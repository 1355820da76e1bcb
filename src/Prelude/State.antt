-- ===== src/Prelude/State.antt =====
-- Commands over a state, that return a value and the new state, or stop the kernel (`none`): by a
-- failed ASSERT, a PANIC or an access to memory that is not allocated.
use pintos.Prelude.{◌≡◌, Bool, true, false, Option, none, some, arith}

abbrev pub pure {ℓ} : {S : Type ℓ} {A : Type 0} → A → S → Option (A × S)
pure a = λ s. some (a, s)

abbrev pub and_then {ℓ} :
    {S : Type ℓ} {A B : Type 0} → Option (A × S) → (A → S → Option (B × S)) → Option (B × S)
and_then none f = none
and_then (some (a, s)) f = f a s

infixl 5 ◌>>=◌ ◌>>◌
abbrev pub ◌>>=◌ {ℓ} :
    {S : Type ℓ} {A B : Type 0}
    → (S → Option (A × S))
    → (A → S → Option (B × S))
    → S
    → Option (B × S)
m >>= f = λ s. and_then (m s) f

abbrev pub ◌>>◌ {ℓ} :
    {S : Type ℓ} {A B : Type 0} → (S → Option (A × S)) → (S → Option (B × S)) → S → Option (B × S)
m >> n = m >>= λ _. n

abbrev pub stop {ℓ} : {S : Type ℓ} {A : Type 0} → S → Option (A × S)
stop = λ s. none

abbrev pub check {ℓ} : {S : Type ℓ} → Bool → S → Option (Unit {0} × S)
check true = λ s. some (tt, s)
check false = λ s. none

-- The command succeeds, and its value and the new state satisfy `P`.
abbrev pub Returns {ℓ} : {S : Type ℓ} {A : Type 0} → (A → S → Type 0) → Option (A × S) → Type 0
Returns P none = ⊥
Returns P (some (a, s)) = P a s

-- A test between two commands.
abbrev pub branch {ℓ} :
    {S : Type ℓ} {A : Type 0}
    → Bool
    → (S → Option (A × S))
    → (S → Option (A × S))
    → S
    → Option (A × S)
branch true m n = m
branch false m n = n

abbrev pub when {ℓ} : {S : Type ℓ} → Bool → (S → Option (Unit {0} × S)) → S → Option (Unit {0} × S)
when true m = m
when false m = pure tt

-- A result that a missing value stops.
abbrev pub lift {ℓ} : {S : Type ℓ} {A : Type 0} → Option A → S → Option (A × S)
lift none = λ s. none
lift (some a) = λ s. some (a, s)

pub Returns-bind {ℓ} :
    {S : Type ℓ} {A B : Type 0} (P : A → S → Type 0) (Q : B → S → Type 0) (r : Option (A × S))
    (f : A → S → Option (B × S))
    → Returns P r
    → ((a : A) (s : S) → P a s → Returns Q (f a s))
    → Returns Q (and_then r f)
Returns-bind P Q none f h w = h
Returns-bind P Q (some (a, s)) f h w = w a s h

pub Returns-mono {ℓ} :
    {S : Type ℓ} {A : Type 0} (P Q : A → S → Type 0) (r : Option (A × S))
    → Returns P r
    → ((a : A) (s : S) → P a s → Q a s)
    → Returns Q r
Returns-mono P Q none h w = h
Returns-mono P Q (some (a, s)) h w = w a s h

pub Returns-none {ℓ} :
    {S : Type ℓ} {A B : Type 0} (P : A → S → Type 0) (r : Option (A × S))
    (f : A → S → Option (B × S))
    → Returns P r
    → ((a : A) (s : S) → P a s → f a s ≡ none)
    → and_then r f ≡ none
Returns-none P none f h w = absurd h
Returns-none P (some (a, s)) f h w = w a s h

-- If the command returns, its value and the new state satisfy `P`.
abbrev pub Ensures {ℓ} : {S : Type ℓ} {A : Type 0} → (A → S → Type 0) → Option (A × S) → Type 0
Ensures P none = Unit {0}
Ensures P (some (a, s)) = P a s

pub Ensures-after {ℓ} :
    {S : Type ℓ} {A B : Type 0} (Q : B → S → Type 0) (r : Option (A × S))
    (f : A → S → Option (B × S))
    → ((a : A) (s : S) → Ensures Q (f a s))
    → Ensures Q (and_then r f)
Ensures-after Q none f w = tt
Ensures-after Q (some (a, s)) f w = w a s

pub Ensures-bind {ℓ} :
    {S : Type ℓ} {A B : Type 0} (P : A → S → Type 0) (Q : B → S → Type 0) (r : Option (A × S))
    (f : A → S → Option (B × S))
    → Ensures P r
    → ((a : A) (s : S) → P a s → Ensures Q (f a s))
    → Ensures Q (and_then r f)
Ensures-bind P Q none f h w = tt
Ensures-bind P Q (some (a, s)) f h w = w a s h

-- A value that a command never returns.
pub never_returns {ℓ} :
    {S : Type ℓ} (r : Option (Bool × S)) (s : S)
    → Ensures (λ b _. b ≡ false) r
    → ¬ (r ≡ some (true, s))
never_returns none s h e = ground arith
never_returns (some (b, t)) s h e = ground arith
