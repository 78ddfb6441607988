-- ===== src/Tests.antt =====
-- The theorems at concrete inputs.
mod Frames
mod Disk
mod Packet
mod Ring
mod Task
mod Coordinator
mod Hist
mod Stream
mod Avgtr
mod Info
mod Capture
mod Captured
mod Jitter
mod Convert
mod Daemon
mod Paths
mod StatFile
