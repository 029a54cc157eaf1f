-- ===== src/Base/Bits/Step.antt =====
-- The native `&` and `|` stand for a recursion on binary digits that is bounded by the first
-- operand. Here the bound is dropped, and each becomes one equation for the lowest digit.
use Prim.Native.Nat.{digits, bitwise, bit_and-bitwise, bit_or-bitwise}
use Prim.Native.Nat.{ℕ, zero, suc, ◌+◌, ◌*◌, ◌/◌, ◌%◌, ◌≤◌, min, max, bit_and, bit_or}
use mathlib.Core.Path.{◌≡◌, refl}
use native.Mathlib.Omega.{arith}

-- `stop` is what is left of the second operand when the first has run out, `op` joins two digits.
module _ (stop : ℕ → ℕ) (op : ℕ → ℕ → ℕ) where
  -- Any two bounds that cover the first operand agree.
  same_digits : (a b k l : ℕ) → a ≤ k → a ≤ l → digits stop op k a b ≡ digits stop op l a b
  same_digits (suc a) b zero l fits _ = absurd (omega arith)
  same_digits (suc a) b (suc k) zero _ fits = absurd (omega arith)
  same_digits (suc a) b (suc k) (suc l) left right =
      let half = same_digits (suc a / 2) (b / 2) k l (omega arith) (omega arith) in rw half refl
  same_digits zero b zero zero _ _ = refl
  same_digits zero b zero (suc l) _ _ = refl
  same_digits zero b (suc k) zero _ _ = refl
  same_digits zero b (suc k) (suc l) _ _ = refl

  lowest_digit :
      (n b : ℕ)
      → let a = suc n in
        bitwise stop op a b ≡ bitwise stop op (a / 2) (b / 2) * 2 + op (a % 2) (b % 2)
  lowest_digit n b =
      let half : suc n / 2 ≤ n = omega arith in
      let own : suc n / 2 ≤ suc n / 2 = omega arith in
      omega (arith, same_digits (suc n / 2) (b / 2) n (suc n / 2) half own)

pub bit_or_step : (a b : ℕ) → bit_or a b ≡ bit_or (a / 2) (b / 2) * 2 + max (a % 2) (b % 2)
bit_or_step (suc n) b = simp bit_or-bitwise (lowest_digit (λ y. y) max n b)
bit_or_step zero b = simp bit_or-bitwise (omega arith)

pub bit_and_step : (a b : ℕ) → bit_and a b ≡ bit_and (a / 2) (b / 2) * 2 + min (a % 2) (b % 2)
bit_and_step (suc n) b = simp bit_and-bitwise (lowest_digit (λ y. 0) min n b)
bit_and_step zero b = simp bit_and-bitwise (omega arith)
