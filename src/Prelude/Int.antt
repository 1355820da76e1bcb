-- ===== src/Prelude/Int.antt =====
-- Signed integers over the native numbers, under the library's names (its ℤ stands on the unary ℕ):
-- sums, products, the division of C that truncates toward zero, and the 32-bit wrap-around.
use pintos.Prelude.{
  ltb, leb, ◌==◌, if◌then◌else◌, ℕ, suc, ◌+◌, ◌-◌, ◌*◌, ◌/◌, ◌%◌, ◌^◌, ◌≤◌, ◌<◌, ◌≡◌, refl, ◌⊎◌,
  inl, inr, Bool, ◌&&◌, arith,
}

-- `negsuc n` is -(n + 1).
pub data ℤ : Type 0 where
  pos : ℕ → ℤ
  negsuc : ℕ → ℤ

abbrev pub pos_part : ℤ → ℕ
pos_part (pos n) = n
pos_part (negsuc n) = 0

abbrev pub neg_part : ℤ → ℕ
neg_part (pos n) = 0
neg_part (negsuc n) = suc n

-- a - b, as an integer.
abbrev pub sub_ℕ : ℕ → ℕ → ℤ
sub_ℕ a b = if leb b a then pos (a - b) else negsuc (b - a - 1)

infixl 65 ◌+ℤ◌ ◌-ℤ◌
infixl 70 ◌*ℤ◌
infix 50 ◌≤ℤ◌
unfoldable pub ◌+ℤ◌ : ℤ → ℤ → ℤ
a +ℤ b = sub_ℕ (pos_part a + pos_part b) (neg_part a + neg_part b)

unfoldable pub ◌-ℤ◌ : ℤ → ℤ → ℤ
a -ℤ b = sub_ℕ (pos_part a + neg_part b) (neg_part a + pos_part b)

unfoldable pub ◌*ℤ◌ : ℤ → ℤ → ℤ
a *ℤ b =
    sub_ℕ (pos_part a * pos_part b + neg_part a * neg_part b)
      (pos_part a * neg_part b + neg_part a * pos_part b)

-- The quotient truncated toward zero, as C has it; the divisor is not zero where it is used.
unfoldable pub quot : ℤ → ℤ → ℤ
quot a b =
    sub_ℕ (pos_part a / pos_part b + neg_part a / neg_part b)
      (pos_part a / neg_part b + neg_part a / pos_part b)

abbrev pub ◌≤ℤ◌ : ℤ → ℤ → Type 0
a ≤ℤ b = pos_part a + neg_part b ≤ pos_part b + neg_part a

abbrev pub ltb_ℤ : ℤ → ℤ → Bool
ltb_ℤ a b = ltb (pos_part a + neg_part b) (pos_part b + neg_part a)

-- The value of an `int` that holds `a`, reduced modulo 2^32.
unfoldable pub wrap32 : ℤ → ℤ
wrap32 (pos n) = let r = n % 2 ^ 32 in if ltb r (2 ^ 31) then pos r else negsuc (2 ^ 32 - 1 - r)
wrap32 (negsuc n) = let r = n % 2 ^ 32 in if ltb r (2 ^ 31) then negsuc r else pos (2 ^ 32 - 1 - r)

-- The values of a C `int`.
pub record IsInt32 (a : ℤ) : Type 0 where
  pub upper : pos_part a < 2 ^ 31
  pub lower : neg_part a ≤ 2 ^ 31

pub wrap32-IsInt32 : (a : ℤ) → IsInt32 (wrap32 a)
unfolding wrap32
wrap32-IsInt32 (pos n) = ground arith
wrap32-IsInt32 (negsuc n) = ground arith

pub wrap32-eq_of_IsInt32 : (a : ℤ) → IsInt32 a → wrap32 a ≡ a
unfolding wrap32
wrap32-eq_of_IsInt32 (pos n) h = ground arith
wrap32-eq_of_IsInt32 (negsuc n) h = ground arith

pub +ℤ_parts :
    (a b : ℤ)
    → pos_part (a +ℤ b) + neg_part a + neg_part b ≡ neg_part (a +ℤ b) + pos_part a + pos_part b
unfolding ◌+ℤ◌
+ℤ_parts a b = ground arith

pub -ℤ_parts :
    (a b : ℤ)
    → pos_part (a -ℤ b) + neg_part a + pos_part b ≡ neg_part (a -ℤ b) + pos_part a + neg_part b
unfolding ◌-ℤ◌
-ℤ_parts a b = ground arith

-- One of the two parts is zero.
pub ℤ_parts : (a : ℤ) → (pos_part a ≡ 0) ⊎ (neg_part a ≡ 0)
ℤ_parts (pos n) = inr refl
ℤ_parts (negsuc n) = inl refl

pub eq_of_parts : (a b : ℤ) → pos_part a + neg_part b ≡ pos_part b + neg_part a → a ≡ b
eq_of_parts a b h = ground arith

-- -n.
abbrev pub neg : ℕ → ℤ
neg n = sub_ℕ 0 n

-- Every integer is `pos n` or `neg n`.
pub sign_cases : (a : ℤ) → ((n : ℕ) × (a ≡ pos n)) ⊎ ((n : ℕ) × (a ≡ neg n))
sign_cases (pos n) = inl (n, refl)
sign_cases (negsuc n) = inr (suc n, ground arith)

pub mul-pos-pos : (a b : ℕ) → pos a *ℤ pos b ≡ pos (a * b)
unfolding ◌*ℤ◌
mul-pos-pos a b = ground arith

pub mul-pos-neg : (a b : ℕ) → pos a *ℤ neg b ≡ neg (a * b)
unfolding ◌*ℤ◌
mul-pos-neg a b = ground arith

pub mul-neg-pos : (a b : ℕ) → neg a *ℤ pos b ≡ neg (a * b)
unfolding ◌*ℤ◌
mul-neg-pos a b = ground arith

pub mul-neg-neg : (a b : ℕ) → neg a *ℤ neg b ≡ pos (a * b)
unfolding ◌*ℤ◌
mul-neg-neg a b = ground arith

pub quot-pos-pos : (a b : ℕ) → quot (pos a) (pos b) ≡ pos (a / b)
unfolding quot
quot-pos-pos a b = ground arith

pub quot-neg-pos : (a b : ℕ) → quot (neg a) (pos b) ≡ neg (a / b)
unfolding quot
quot-neg-pos a b = ground arith

pub quot-pos-neg : (a b : ℕ) → quot (pos a) (neg b) ≡ neg (a / b)
unfolding quot
quot-pos-neg a b = ground arith

pub quot-neg-neg : (a b : ℕ) → quot (neg a) (neg b) ≡ pos (a / b)
unfolding quot
quot-neg-neg a b = ground arith

-- Products and quotients by the signs of their operands.
pub ruleset sign_laws = (
  mul-pos-pos, mul-pos-neg, mul-neg-pos, mul-neg-neg, quot-pos-pos, quot-neg-pos, quot-pos-neg,
  quot-neg-neg,
)

abbrev pub eq_ℤ : ℤ → ℤ → Bool
eq_ℤ a b = (pos_part a == pos_part b) && (neg_part a == neg_part b)

pub wrap32-pos : (n : ℕ) → n < 2147483648 → wrap32 (pos n) ≡ pos n
wrap32-pos n h = wrap32-eq_of_IsInt32 (pos n) (record { upper = h; lower = omega arith })

pub +ℤ-pos : (a b : ℕ) → pos a +ℤ pos b ≡ pos (a + b)
unfolding ◌+ℤ◌
+ℤ-pos a b = ground arith

-- Lemmas on `neg` hold of every negative number.
pub negsuc-neg : (n : ℕ) → negsuc n ≡ neg (suc n)
negsuc-neg n = ground arith

pub wrap32-neg : (n : ℕ) → n ≤ 2147483648 → wrap32 (neg n) ≡ neg n
wrap32-neg n h =
    wrap32-eq_of_IsInt32 (neg n) (record { upper = ground arith; lower = ground arith })

pub pos_part-neg : (n : ℕ) → pos_part (neg n) ≡ 0
pos_part-neg n = ground arith

pub neg_part-neg : (n : ℕ) → neg_part (neg n) ≡ n
neg_part-neg n = ground arith
