-- ===== src/Base/Runs.antt =====
-- A run of code with assertions. The daemon is built with DEBUG_LEVEL = TESTING, so `dbg_assert` is
-- `assert`, and one that fails ends the process: `abort`. A loop of the model that runs out of its
-- fuel gives `hang`.

use mathlib.Core.Path.{◌≡◌, refl}
use mathlib.Core.Bool.{Bool, true, false, false≢true}
use tes_0mq.Base.Tests.{if◌then◌else◌}

pub data Outcome {ℓ} (A : Type ℓ) : Type ℓ where
  ok : A → Outcome A
  abort : Outcome A
  hang : Outcome A

infixl 5 ◌>>=◌ ◌>>◌
abbrev pub ◌>>=◌ {ℓ κ} : {A : Type ℓ} {B : Type κ} → Outcome A → (A → Outcome B) → Outcome B
ok a >>= f = f a
abort >>= f = abort
hang >>= f = hang

abbrev pub ◌>>◌ {ℓ} : {B : Type ℓ} → Outcome (Unit {0}) → Outcome B → Outcome B
m >> k = m >>= λ _. k

-- `assert (b)` and `dbg_assert (b)`.
abbrev pub check : Bool → Outcome (Unit {0})
check true = ok tt
check false = abort

-- A run that ends: in an abort, or with a value that satisfies the predicate.
abbrev pub Ends {ℓ} : {A : Type ℓ} → (A → Type 0) → Outcome A → Type 0
Ends P (ok a) = P a
Ends P abort = Unit
Ends P hang = ⊥

-- A run that fails no assertion and ends with a value that satisfies the predicate.
abbrev pub Returns {ℓ} : {A : Type ℓ} → (A → Type 0) → Outcome A → Type 0
Returns P (ok a) = P a
Returns P abort = ⊥
Returns P hang = ⊥

pub Ends-bind {ℓ κ} :
    {A : Type ℓ} {B : Type κ} (P : A → Type 0) (Q : B → Type 0) (m : Outcome A) (f : A → Outcome B)
    → Ends P m
    → ((a : A) → P a → Ends Q (f a))
    → Ends Q (m >>= f)
Ends-bind P Q (ok a) f e k = k a e
Ends-bind P Q abort f e k = tt
Ends-bind P Q hang f e k = e

pub Ends-mono {ℓ} :
    {A : Type ℓ} (P Q : A → Type 0) (m : Outcome A) → Ends P m → ((a : A) → P a → Q a) → Ends Q m
Ends-mono P Q (ok a) e k = k a e
Ends-mono P Q abort e k = tt
Ends-mono P Q hang e k = e

-- An assertion before a run.
pub Ends-check {ℓ} :
    {A : Type ℓ} (P : A → Type 0) (b : Bool) (m : Outcome A) → Ends P m → Ends P (check b >> m)
Ends-check P true m e = e
Ends-check P false m e = tt

pub Returns-bind {ℓ κ} :
    {A : Type ℓ} {B : Type κ} (P : A → Type 0) (Q : B → Type 0) (m : Outcome A) (f : A → Outcome B)
    → Returns P m
    → ((a : A) → P a → Returns Q (f a))
    → Returns Q (m >>= f)
Returns-bind P Q (ok a) f e k = k a e
Returns-bind P Q abort f e k = absurd e
Returns-bind P Q hang f e k = absurd e

pub Returns-mono {ℓ} :
    {A : Type ℓ} (P Q : A → Type 0) (m : Outcome A)
    → Returns P m
    → ((a : A) → P a → Q a)
    → Returns Q m
Returns-mono P Q (ok a) e k = k a e
Returns-mono P Q abort e k = e
Returns-mono P Q hang e k = e

-- An assertion that holds, and the two branches of a test.
pub Returns-check {ℓ} :
    {A : Type ℓ} (P : A → Type 0) (b : Bool) (m : Outcome A)
    → b ≡ true
    → Returns P m
    → Returns P (check b >> m)
Returns-check P true m e k = k
Returns-check P false m e k = absurd (false≢true e)

pub Returns-if {ℓ} :
    {A : Type ℓ} (P : A → Type 0) (b : Bool) (m n : Outcome A)
    → ((b ≡ true) → Returns P m)
    → ((b ≡ false) → Returns P n)
    → Returns P (if b then m else n)
Returns-if P true m n h k = h refl
Returns-if P false m n h k = k refl

pub Ends-if {ℓ} :
    {A : Type ℓ} (P : A → Type 0) (b : Bool) (m n : Outcome A)
    → ((b ≡ true) → Ends P m)
    → ((b ≡ false) → Ends P n)
    → Ends P (if b then m else n)
Ends-if P true m n h k = h refl
Ends-if P false m n h k = k refl

pub Returns→Ends {ℓ} : {A : Type ℓ} (P : A → Type 0) (m : Outcome A) → Returns P m → Ends P m
Returns→Ends P (ok a) r = r
Returns→Ends P abort r = absurd r
Returns→Ends P hang r = absurd r

-- What is returned, with what is known of it.
pub Returns-ok {ℓ} :
    {A : Type ℓ} (P : A → Type 0) (m : Outcome A) → Returns P m → (a : A) × (m ≡ ok a) × P a
Returns-ok P (ok a) e = (a, refl, e)
Returns-ok P abort e = absurd e
Returns-ok P hang e = absurd e

-- A run that ends: with a value that satisfies the predicate, or in an abort, for which there is a reason.
abbrev pub Settles {ℓ} : {A : Type ℓ} → Type 0 → (A → Type 0) → Outcome A → Type 0
Settles Q P (ok a) = P a
Settles Q P abort = Q
Settles Q P hang = ⊥

pub Settles-bind {ℓ κ} :
    {A : Type ℓ} {B : Type κ} (Q : Type 0) (P : A → Type 0) (R : B → Type 0) (m : Outcome A)
    (f : A → Outcome B)
    → Settles Q P m
    → ((a : A) → P a → Settles Q R (f a))
    → Settles Q R (m >>= f)
Settles-bind Q P R (ok a) f e k = k a e
Settles-bind Q P R abort f e k = e
Settles-bind Q P R hang f e k = absurd e

pub Settles-check {ℓ} :
    {A : Type ℓ} (Q : Type 0) (P : A → Type 0) (b : Bool) (m : Outcome A)
    → b ≡ true
    → Settles Q P m
    → Settles Q P (check b >> m)
Settles-check Q P true m e k = k
Settles-check Q P false m e k = absurd (false≢true e)

pub Settles-if {ℓ} :
    {A : Type ℓ} (Q : Type 0) (P : A → Type 0) (b : Bool) (m n : Outcome A)
    → ((b ≡ true) → Settles Q P m)
    → ((b ≡ false) → Settles Q P n)
    → Settles Q P (if b then m else n)
Settles-if Q P true m n h k = h refl
Settles-if Q P false m n h k = k refl
