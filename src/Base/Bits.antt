-- ===== src/Base/Bits.antt =====
-- The binary digits of a native number, and what `&` and `|` do to each of them.
mod Step
pub use Step.{bit_and_step}
use Step.{bit_or_step}
use Prim.Native.Nat.{
  ℕ, zero, suc, ◌+◌, ◌-◌, ◌*◌, ◌/◌, ◌%◌, ◌^◌, ◌≤◌, ◌<◌, min, max, bit_and, bit_or, bit_and-bitwise,
  bit_or-bitwise,
}
use mathlib.Core.Path.{◌≡◌, refl, sym, ap, ◌∙◌}
use mathlib.Core.Bool.{Bool, true, false}
use native.Mathlib.Nat.{
  pow-zero, mod-one, dvd-mul_right, pow-suc, pow-succ', one-le-pow, dvd-mul_left, div-add-mod,
  mul-add-mod_self_left, mod-eq_of_lt, mod-mod_of_dvd,
}
use native.Mathlib.Omega.{arith}
use umbral_os.Base.Tests.{◌==◌, if◌then◌else◌}

-- The digit of weight `2 ^ k`.
abbrev pub bit : ℕ → ℕ → ℕ
bit x zero = x % 2
bit x (suc k) = bit (x / 2) k

pub bit-lt : (x k : ℕ) → bit x k < 2
bit-lt x zero = omega arith
bit-lt x (suc k) = bit-lt (x / 2) k

pub bit-zero : (k : ℕ) → bit 0 k ≡ 0
bit-zero zero = refl
bit-zero (suc k) = bit-zero k

pub bit-bit_or : (a b k : ℕ) → bit (bit_or a b) k ≡ max (bit a k) (bit b k)
bit-bit_or a b zero = omega (arith, bit_or_step a b)
bit-bit_or a b (suc k) =
    let e : bit_or a b / 2 ≡ bit_or (a / 2) (b / 2) = omega (arith, bit_or_step a b) in
    rw e (bit-bit_or (a / 2) (b / 2) k)

pub bit-bit_and : (a b k : ℕ) → bit (bit_and a b) k ≡ min (bit a k) (bit b k)
bit-bit_and a b zero = omega (arith, bit_and_step a b)
bit-bit_and a b (suc k) =
    let e : bit_and a b / 2 ≡ bit_and (a / 2) (b / 2) = omega (arith, bit_and_step a b) in
    rw e (bit-bit_and (a / 2) (b / 2) k)

pub bit-pow : (j k : ℕ) → bit (2 ^ j) k ≡ (if j == k then 1 else 0)
bit-pow zero zero = refl
bit-pow zero (suc k) = ground (arith, bit-zero k)
bit-pow (suc j) zero = ground (arith, pow-suc 2 j)
bit-pow (suc j) (suc k) =
    let e : 2 ^ suc j / 2 ≡ 2 ^ j = omega (arith, pow-suc 2 j) in rw e (ground (arith, bit-pow j k))

pub half_mod : (p x : ℕ) → 0 < p → x % (2 * p) / 2 ≡ x / 2 % p
half_mod p x h =
    let e : x / 2 ≡ p * (x / (2 * p)) + x % (2 * p) / 2 = omega (arith, div-add-mod x (2 * p)) in
    rw (e, mul-add-mod_self_left, mod-eq_of_lt {n = x % (2 * p) / 2} {m = p} (omega arith))

-- A reduction to `w` digits keeps them.
pub bit-mod : (w k x : ℕ) → k < w → bit (x % 2 ^ w) k ≡ bit x k
bit-mod zero k x h = absurd (omega arith)
bit-mod (suc w) zero x h = rw pow-suc (mod-mod_of_dvd 2 x (dvd-mul_left 2 (2 ^ w)))
bit-mod (suc w) (suc k) x h =
    let e : x % 2 ^ suc w / 2 ≡ x / 2 % 2 ^ w =
      ap (λ (t : ℕ). x % t / 2) (pow-succ' 2 w)
      ∙ half_mod (2 ^ w) x (one-le-pow w 2 (omega arith)) in
    rw e (bit-mod w k (x / 2) (omega arith))

-- The complement in `w` digits flips each of them.
pub bit_complement : (w k m : ℕ) → k < w → m < 2 ^ w → bit (2 ^ w - 1 - m) k ≡ 1 - bit m k
bit_complement zero k m h p = absurd (omega arith)
bit_complement (suc w) zero m h p = omega (arith, pow-suc 2 w)
bit_complement (suc w) (suc k) m h p =
    let e : (2 ^ suc w - 1 - m) / 2 ≡ 2 ^ w - 1 - m / 2 = omega (arith, pow-suc 2 w) in
    rw e (bit_complement w k (m / 2) (omega arith) (omega (arith, pow-suc 2 w)))

bit_and-zero_below : (n x : ℕ) → x ≤ n → bit_and x 0 ≡ 0
bit_and-zero_below n zero h = bit_and-bitwise 0 0
bit_and-zero_below zero (suc x) h = absurd (omega arith)
bit_and-zero_below (suc n) (suc x) h =
    omega (arith, bit_and_step (suc x) 0, bit_and-zero_below n (suc x / 2) (omega arith))

pub bit_and-zero : (x : ℕ) → bit_and x 0 ≡ 0
bit_and-zero x = bit_and-zero_below x x (omega arith)

-- One digit, cut out by its mask.
pub bit_and-pow : (x k : ℕ) → bit_and x (2 ^ k) ≡ bit x k * 2 ^ k
bit_and-pow x zero = omega (arith, bit_and_step x 1, bit_and-zero (x / 2))
bit_and-pow x (suc k) =
    let e : 2 ^ suc k / 2 ≡ 2 ^ k = omega (arith, pow-suc 2 k) in
    grind (arith, bit_and_step x (2 ^ suc k), pow-suc 2 k, bit_and-pow (x / 2) k)

bit_or-zero_below : (n x : ℕ) → x ≤ n → bit_or x 0 ≡ x
bit_or-zero_below n zero h = bit_or-bitwise 0 0
bit_or-zero_below zero (suc x) h = absurd (omega arith)
bit_or-zero_below (suc n) (suc x) h =
    omega (arith, bit_or_step (suc x) 0, bit_or-zero_below n (suc x / 2) (omega arith))

-- A field shifted above another is added to it.
pub bit_or-fields : (k q r : ℕ) → r < 2 ^ k → bit_or (q * 2 ^ k) r ≡ q * 2 ^ k + r
bit_or-fields zero q zero h =
    rw pow-zero (omega (arith, bit_or-zero_below (q * 1) (q * 1) (omega arith)))
bit_or-fields zero q (suc r) h = absurd (omega arith)
bit_or-fields (suc k) q r h =
    let double = ap (λ (t : ℕ). q * t) (pow-succ' 2 k) in
    let half : q * 2 ^ suc k / 2 ≡ q * 2 ^ k = omega (arith, double) in
    let step =
      bit_or_step (q * 2 ^ suc k) r
      ∙ ap (λ t. bit_or t (r / 2) * 2 + max (q * 2 ^ suc k % 2) (r % 2)) half in
    omega (arith, step, double, bit_or-fields k q (r / 2) (omega (arith, pow-succ' 2 k)))

-- A digit above all others is added.
pub bit_or-pow : (k x : ℕ) → x < 2 ^ k → bit_or x (2 ^ k) ≡ x + 2 ^ k
bit_or-pow zero zero h = refl
bit_or-pow zero (suc x) h = absurd (omega arith)
bit_or-pow (suc k) x h =
    let half : 2 ^ suc k / 2 ≡ 2 ^ k = omega (arith, pow-succ' 2 k) in
    let step =
      bit_or_step x (2 ^ suc k)
      ∙ ap (λ t. bit_or (x / 2) t * 2 + max (x % 2) (2 ^ suc k % 2)) half in
    omega (arith, step, pow-succ' 2 k, bit_or-pow k (x / 2) (omega (arith, pow-succ' 2 k)))

-- A mask of `k` ones keeps the remainder.
pub bit_and-mask : (k x : ℕ) → bit_and x (2 ^ k - 1) ≡ x % 2 ^ k
bit_and-mask zero x = bit_and-zero x ∙ sym (rw pow-zero (mod-one x))
bit_and-mask (suc k) x =
    let one = one-le-pow k 2 (omega arith) in
    let half : (2 ^ suc k - 1) / 2 ≡ 2 ^ k - 1 = omega (arith, pow-succ' 2 k, one) in
    let step =
      bit_and_step x (2 ^ suc k - 1)
      ∙ ap (λ t. bit_and (x / 2) t * 2 + min (x % 2) ((2 ^ suc k - 1) % 2)) half in
    let whole : x % (2 * 2 ^ k) / 2 ≡ x / 2 % 2 ^ k = half_mod (2 ^ k) x one in
    let low : x % (2 * 2 ^ k) % 2 ≡ x % 2 = mod-mod_of_dvd 2 x (dvd-mul_right 2 (2 ^ k)) in
    omega (
      arith,
      step,
      pow-succ' 2 k,
      one,
      whole,
      low,
      ap (λ (t : ℕ). x % t) (pow-succ' 2 k),
      bit_and-mask k (x / 2),
    )

-- A union of two words fits where both fit.
pub bit_or-lt : (w a b : ℕ) → a < 2 ^ w → b < 2 ^ w → bit_or a b < 2 ^ w
bit_or-lt zero zero zero ha hb = omega arith
bit_or-lt zero (suc a) b ha hb = absurd (omega arith)
bit_or-lt zero zero (suc b) ha hb = absurd (omega arith)
bit_or-lt (suc w) a b ha hb =
    let twice = pow-succ' 2 w in
    omega (
      arith,
      bit_or_step a b,
      twice,
      bit_or-lt w (a / 2) (b / 2) (omega (arith, twice)) (omega (arith, twice)),
    )
