-- ===== src/Lib.antt =====
-- A model of the TES daemon, which reads frames of a pulse processor from netmap rings, hands them to
-- tasks in threads of their own, and serves clients over ZeroMQ.
--
-- The parts and how they interact. include/net/tespkt.h lays a frame out and says which frames are
-- valid. src/lib/tesif.c wraps the rings of netmap: the kernel moves a ring's tail, the reader its
-- cursor and its head. The coordinator of src/bin/tesd.c, when packets arrive, signals the tasks and
-- gives back the slots that every active task has passed. A task, src/bin/tesd_tasks.c, on a signal
-- picks rings by the sequence of their next frame and hands the frames to its handler; it is put to
-- sleep and woken by its clients. The handlers are in files of their own: src/bin/tesd_task_hist.c
-- puts MCA histograms together, src/bin/tesd_task_avgtr.c records an average trace,
-- src/bin/tesd_task_info.c counts frames, src/bin/tesd_task_jitter.c measures the delays between two
-- channels, and src/bin/tesd_task_cap.c captures frames to files, through buffers that are written
-- asynchronously, and has src/lib/hdf5conv.c make datasets of them. src/lib/daemon_ng.c runs a process in
-- the background: the daemon itself, or a conversion that is not waited for.
--
-- The files. Base: names of the library, tests on numbers, lists, and runs of code with assertions. Packet:
-- include/net/tespkt.h, `tespkt_flen` as `flen` and so on, with Packet/Kinds (the frame predicates),
-- Packet/Valid (`tespkt_is_valid`), Packet/Events (the events of a frame), Packet/Report (the error mask)
-- and Packet/Gen (include/net/tespkt_gen.h). Ring: src/lib/tesif.c, `tes_ifring_done` as `done` and so on,
-- with Ring/Order and Ring/Window on the order of slots, and Ring/Desc for the receive rings of an
-- interface. Task: src/bin/tesd_tasks.h and tesd_tasks.c, with Task/Scan (`s_task_next_ring`),
-- Task/Dispatch (`s_task_dispatch`), Task/Signal (`s_sig_hn`) and Task/Subs (`s_sub_hn`). Coordinator:
-- `tasks_wakeup`, `tasks_get_heads` and `s_new_pkts_hn`. Memory: byte buffers. Hist, Avgtr, Info and
-- Jitter: four of the tasks. Capture: the fifth, with Capture/Buffer (`s_try_queue_aiobuf` as `try_queue`,
-- `s_queue_aiobuf` as `queue`, `s_flush` as `flush`), Capture/Store (the buffers of all files, behind the
-- interface `Files`), Capture/Index (the entries as bytes), Capture/Frames (`task_cap_pkt_hn`, part by
-- part), Capture/Request (`s_is_req_valid` and `task_cap_req_hn`), Capture/Conversion (`s_conv_data`),
-- Capture/Paths (`s_task_construct_filenames` and `s_canonicalize_path` as `canonicalize`) and
-- Capture/StatFile (`s_stats_read` and `s_stats_write`). Convert: src/lib/hdf5conv.c over the interface
-- Convert/Calls, with Convert/Groups (`s_get_grp` and `s_crt_grp`), Convert/Mapping (`s_map_file`),
-- Convert/Datasets (`s_create_dset` and `s_hdf5_write`), Convert/Init (`s_hdf5_init`), Convert/Main
-- (`hdf5_conv`) and Convert/Async (the same with `async`). Daemon: src/lib/daemon_ng.c, with Daemon/Fds
-- (the closing of file descriptors). Tests: the theorems at concrete inputs.
--
-- Conventions. The host is little-endian, so `ftohs` and `ftohl` are empty. DEBUG_LEVEL is TESTING, so
-- `dbg_assert` is `assert`, and one that fails is the outcome `abort`, as is a division by zero. A w-bit
-- integer wraps at 2 ^ w where the C type does. A frame is the memory of its buffer, the bytes past its
-- length included. State is passed explicitly; a message to a client is put in front of a list. What
-- netmap, CZMQ and ZeroMQ answer is a parameter: whether a reader can be registered, a signal or a message
-- sent, a timer set. What the aio_* calls answer is a parameter too, one for each call; so is what the
-- paths, the files and the conversion return to the request handler. File offsets do not wrap. The calls of
-- HDF5 and of the file system in src/lib/hdf5conv.c are the parameter `Calls`, and `Lawful` is what the
-- documentation says of them: what a call that fails leaves alone, which link or dataset one that succeeds
-- changes, and that it takes or gives back one id; an id stands for one group, and nobody else writes to
-- the files. What open, read, write and close answer is the parameter `Disk` of Capture/StatFile; what
-- realpath and mkdir answer is the parameter `Tree` of Capture/Paths, and `Sound` is what is taken for
-- granted of it. The processes of src/lib/daemon_ng.c are run one after the other, each with what the
-- others have sent by then.
--
-- Fuel. `wait_for_more` has as much as the cursor's value, a dispatch as many rounds as the ring has slots,
-- the walk over the directories of a name one for each byte and one more, a signal five rounds for four
-- rings, and the error walks eight for a mask of seven bits. A full buffer of the capture task is waited
-- for three rounds, one for each batch that can be in it and one for what is being written, and a flush has
-- one more. A loop that ran out would have the outcome `hang`, or no result.
--
-- Not modelled: the transmit rings, which repeat the receive rings; threads, sockets and start-up of the
-- tasks; logging and statistics for the log; the opening of the data files of the capture task, and its
-- start and end; the reset of the signal handlers of the daemon; the command line client and the test
-- programs, which are I/O.
pub mod Base
pub mod Packet
pub mod Ring
pub mod Task
pub mod Coordinator
pub mod Memory
pub mod Hist
pub mod Avgtr
pub mod Info
pub mod Capture
pub mod Jitter
pub mod Daemon
pub mod Convert
pub mod Tests
