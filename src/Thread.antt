-- ===== src/Thread.antt =====
-- threads/thread.h and the data of threads/thread.c. A thread is named by the address of its page;
-- `Kernel` holds what the pages contain and the static variables. An operation disables interrupts
-- where it changes the data, and is one step: it returns `none` when an ASSERT fails, and the new
-- state otherwise. `in_interrupt` is what intr_context() says, `yield_on_return` that
-- intr_yield_on_return() was called, `freed` the pages handed to palloc_free_page().
pub mod Lists
pub mod Sched
pub mod Fields
pub mod Donation
pub mod Mlfqs
pub mod Create
pub mod Steps
pub mod Boot
use pintos.Prelude.{
  ◌==◌, if◌then◌else◌, ℕ, ◌≡◌, refl, Bool, true, false, not, ◌&&◌, Option, none, some, List,
}
use pintos.Prelude.Int.{ℤ, pos, negsuc, ltb_ℤ}

pub data Status : Type 0 where
  running ready blocked dying : Status

-- enum intr_level: what intr_get_level() returns. It is not part of `Kernel`, since each thread has
-- its own: an operation that asserts it takes the level of its call as an argument.
pub data IntrLevel : Type 0 where
  intr_off intr_on : IntrLevel

unfoldable pub is_off : IntrLevel → Bool
is_off intr_off = true
is_off intr_on = false

-- struct donate: the lock, and the donating thread.
pub record Donate : Type 0 where
  pub lock : ℕ
  pub donator : ℕ

pub record Thread : Type 0 where
  pub tid : ℕ
  pub status : Status
  pub name : List ℕ
  pub stack : ℕ
  pub priority : ℤ
  pub pagedir : ℕ
  pub pwd : ℕ
  pub magic : ℕ
  pub o_priority : ℤ
  pub donate_list : List Donate
  pub nice : ℤ
  pub recent_cpu : ℤ

pub record Kernel : Type 0 where
  pub thread : ℕ → Thread
  pub ready_list : List ℕ
  pub all_list : List ℕ
  pub current : ℕ
  pub idle_thread : ℕ
  pub initial_thread : ℕ
  pub next_tid : ℕ
  pub mlfqs : Bool
  pub load_avg : ℤ
  pub idle_ticks : ℕ
  pub kernel_ticks : ℕ
  pub user_ticks : ℕ
  pub thread_ticks : ℕ
  pub yield_on_return : Bool
  pub in_interrupt : Bool
  pub freed : List ℕ

abbrev pub null : ℕ
null = 0

abbrev pub thread_magic : ℕ
thread_magic = 0xcd6abf4b

abbrev pub pri_min : ℤ
pri_min = pos 0

abbrev pub pri_default : ℤ
pri_default = pos 31

abbrev pub pri_max : ℤ
pri_max = pos 63

abbrev pub time_slice : ℕ
time_slice = 4

abbrev pub tid_error : ℤ
tid_error = negsuc 0

abbrev pub pg_size : ℕ
pg_size = 4096

abbrev pub is_running : Status → Bool
is_running running = true
is_running _ = false

abbrev pub is_blocked : Status → Bool
is_blocked blocked = true
is_blocked _ = false

abbrev pub is_dying : Status → Bool
is_dying dying = true
is_dying _ = false

-- A store to the page at `p`.
abbrev pub put : (ℕ → Thread) → ℕ → Thread → ℕ → Thread
put f p t q = if q == p then t else f q

abbrev pub write : Kernel → ℕ → Thread → Kernel
write k p t = record k { thread = put k.thread p t }

abbrev pub set_status : Kernel → ℕ → Status → Kernel
set_status k p s = write k p (record (k.thread p) { status = s })

unfoldable pub is_thread : Kernel → ℕ → Bool
is_thread k p = not (p == null) && ((k.thread p).magic == thread_magic)

-- The comparison of the ready list: higher priorities first.
abbrev pub compare_pri : (ℕ → Thread) → ℕ → ℕ → Bool
compare_pri f a b = ltb_ℤ (f b).priority (f a).priority

-- A command that returns a value, or fails an ASSERT.
abbrev pub Act : Type 0 → Type 0
Act A = Kernel → Option (A × Kernel)

abbrev pub pure : {A : Type 0} → A → Act A
pure a = λ k. some (a, k)

abbrev pub and_then : {A B : Type 0} → Option (A × Kernel) → (A → Act B) → Option (B × Kernel)
and_then none f = none
and_then (some (a, k)) f = f a k

infixl 5 ◌>>=◌ ◌>>◌
abbrev pub ◌>>=◌ : {A B : Type 0} → Act A → (A → Act B) → Act B
m >>= f = λ k. and_then (m k) f

abbrev pub ◌>>◌ : {A B : Type 0} → Act A → Act B → Act B
m >> n = m >>= λ _. n

abbrev pub check : Bool → Kernel → Option (Unit {0} × Kernel)
check true k = some (tt, k)
check false k = none

abbrev pub assert : (Kernel → Bool) → Act (Unit {0})
assert c = λ k. check (c k) k

abbrev pub modify : (Kernel → Kernel) → Act (Unit {0})
modify f = λ k. some (tt, f k)

abbrev pub gets : {A : Type 0} → (Kernel → A) → Act A
gets f = λ k. some (f k, k)

-- The command succeeds, and its value and the new state satisfy `P`.
abbrev pub Returns : {A : Type 0} → (A → Kernel → Type 0) → Option (A × Kernel) → Type 0
Returns P none = ⊥
Returns P (some (a, k)) = P a k

pub Returns-mono :
    {A : Type 0} {P Q : A → Kernel → Type 0} (r : Option (A × Kernel))
    → Returns P r
    → ((a : A) (k : Kernel) → P a k → Q a k)
    → Returns Q r
Returns-mono none h w = h
Returns-mono (some (a, k)) h w = w a k h

unfoldable pub thread_current : Act ℕ
unfolding is_thread
thread_current k =
    if is_thread k k.current && is_running (k.thread k.current).status
    then some (k.current, k)
    else none

-- What holds of two commands in a row.
pub Returns-bind :
    {A B : Type 0} (P : A → Kernel → Type 0) (Q : B → Kernel → Type 0) (r : Option (A × Kernel))
    (f : A → Act B)
    → Returns P r
    → ((a : A) (k : Kernel) → P a k → Returns Q (f a k))
    → Returns Q (and_then r f)
Returns-bind P Q none f h w = h
Returns-bind P Q (some (a, k)) f h w = w a k h

pub Returns-some :
    (P : Unit {0} → Kernel → Type 0) (r : Option (Unit {0} × Kernel))
    → Returns P r
    → (k : Kernel) × (r ≡ some (tt, k))
Returns-some P none h = absurd h
Returns-some P (some (u, k)) h = (k, refl)
