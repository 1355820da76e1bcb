-- ===== src/Fixed/Scale.antt =====
-- Products and quotients by a whole number: mulxy() and divxy() of threads/thread.c.
use native.Mathlib.Nat.{mul-div-mul_right, div-le_self}
use pintos.Prelude.{ℕ, suc, ◌*◌, ◌/◌, ◌<◌, ◌≡◌, inl, inr, ap, arith}
use pintos.Prelude.Int.{
  ℤ, pos, negsuc, neg, sign_cases, sign_laws, ◌*ℤ◌, quot, wrap32, neg_part, IsInt32,
  wrap32-eq_of_IsInt32,
}
use pintos.Fixed.{is_zero, f_one, con_ntof, mulxy, mulxn, divxy, divxn}
use pintos.Fixed.Convert.{IsWhole}

con_ntof-mul : (n : ℤ) → IsWhole n → con_ntof n ≡ n *ℤ f_one
unfolding con_ntof wrap32 ◌*ℤ◌
con_ntof-mul (pos n) h = ground arith
con_ntof-mul (negsuc n) h = ground arith

-- A sign split of a statement about two integers.
by_signs :
    (P : ℤ → ℤ → Type 0)
    → ((a b : ℕ) → P (pos a) (pos b))
    → ((a b : ℕ) → P (pos a) (neg b))
    → ((a b : ℕ) → P (neg a) (pos b))
    → ((a b : ℕ) → P (neg a) (neg b))
    → (x n : ℤ) → P x n
by_signs P pp pn np nn x n = elim (sign_cases x) [
  | inl (a, e) ↦ elim (sign_cases n) [
    | inl (b, f) ↦ rw (e, f) (pp a b)
    | inr (b, f) ↦ rw (e, f) (pn a b)
  ]
  | inr (a, e) ↦ elim (sign_cases n) [
    | inl (b, f) ↦ rw (e, f) (np a b)
    | inr (b, f) ↦ rw (e, f) (nn a b)
  ]
]

scaled : (a b : ℕ) → a * (b * 16384) / 16384 ≡ a * b
scaled a b = omega arith

quot-mul : (x n : ℤ) → quot (x *ℤ (n *ℤ f_one)) f_one ≡ x *ℤ n
quot-mul =
    by_signs (λ x n. quot (x *ℤ (n *ℤ f_one)) f_one ≡ x *ℤ n) (λ a b. simp (sign_laws, scaled))
      (λ a b. simp (sign_laws, scaled)) (λ a b. simp (sign_laws, scaled))
      (λ a b. simp (sign_laws, scaled))

-- Multiplying by a whole number that fixed point can hold is multiplying by the integer, overflow
-- included.
pub mulxy-con_ntof : (x n : ℤ) → IsWhole n → mulxy x (con_ntof n) ≡ mulxn x n
unfolding mulxy mulxn
mulxy-con_ntof x n h = rw (con_ntof-mul n h) (ap wrap32 (quot-mul x n))

ratio : (a b : ℕ) → a * 16384 / (b * 16384) ≡ a / b
ratio a b = mul-div-mul_right a b (omega arith)

quot-div : (x n : ℤ) → quot (x *ℤ f_one) (n *ℤ f_one) ≡ quot x n
quot-div =
    by_signs (λ x n. quot (x *ℤ f_one) (n *ℤ f_one) ≡ quot x n) (λ a b. simp (sign_laws, ratio))
      (λ a b. simp (sign_laws, ratio)) (λ a b. simp (sign_laws, ratio))
      (λ a b. simp (sign_laws, ratio))

quot-IsInt32 : (x n : ℤ) → IsInt32 x → neg_part x < 2147483648 → IsInt32 (quot x n)
unfolding quot
quot-IsInt32 (pos x) (pos n) h k = ground (arith, div-le_self x n)
quot-IsInt32 (pos x) (negsuc n) h k = ground (arith, div-le_self x (suc n))
quot-IsInt32 (negsuc x) (pos n) h k = ground (arith, div-le_self (suc x) n)
quot-IsInt32 (negsuc x) (negsuc n) h k = ground (arith, div-le_self (suc x) (suc n))

is_zero-mul : (n : ℤ) → is_zero (n *ℤ f_one) ≡ is_zero n
unfolding ◌*ℤ◌
is_zero-mul (pos n) = ground arith
is_zero-mul (negsuc n) = ground arith

-- Dividing by a whole number that fixed point can hold is dividing by the integer, and both refuse
-- zero. The dividend is an `int`, but not INT_MIN, whose quotient by -1 does not fit an `int`.
pub divxy-con_ntof :
    (x n : ℤ) → IsInt32 x → neg_part x < 2147483648 → IsWhole n → divxy x (con_ntof n) ≡ divxn x n
unfolding divxy divxn
divxy-con_ntof x n h k w =
    rw (con_ntof-mul n w, is_zero-mul n, quot-div x n)
      (rw (wrap32-eq_of_IsInt32 (quot x n) (quot-IsInt32 x n h k)) (ground arith))
