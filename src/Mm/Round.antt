-- ===== src/Mm/Round.antt =====
-- `round_down` and `round_up` of mm.c (lines 24-36), and PAGE_SIZE and CHAR_BIT.
mod Tests
use native.Mathlib.Decide.{dec_le, ℕ_discrete}
use native.Mathlib.Nat.{
  div-add-mod, mod-lt, mul-mod_left, add-mod_right, mul-le-mul_right, le-div_iff_mul-le,
}
use umbral_os.Base.{
  ◌==◌, ℕ, ◌+◌, ◌-◌, ◌*◌, ◌/◌, ◌%◌, ◌^◌, ◌≤◌, ◌<◌, ◌≡◌, ◌≢◌, ◌∙◌, refl, arith, ◌!=◌, if◌then◌else◌,
}
use umbral_os.Base.Word.{u64, sub64}

abbrev pub page_size : ℕ
page_size = 0x1000

abbrev pub char_bit : ℕ
char_bit = 8

unfoldable pub round_down : ℕ → ℕ → ℕ
round_down value multiple = if value % multiple != 0 then sub64 value (value % multiple) else value

unfoldable pub round_up : ℕ → ℕ → ℕ
unfolding round_down
round_up value multiple =
    if value % multiple != 0 then u64 (round_down value multiple + multiple) else value

-- `round_up(n, PAGE_SIZE) / PAGE_SIZE`, the pages that hold `n` bytes.
unfoldable pub pages_of : ℕ → ℕ
unfolding round_up
pages_of n = round_up n page_size / page_size

pub round_down-eq : (v m : ℕ) → v < 2 ^ 64 → round_down v m ≡ v / m * m
unfolding round_down
round_down-eq v m fits = ground (arith, div-add-mod v m)

pub round_up-eq :
    (v m : ℕ) → 0 < m → v + m ≤ 2 ^ 64 → round_up v m ≡ (if v % m == 0 then v else v / m * m + m)
unfolding round_up
round_up-eq v m pos fits = ground (arith, div-add-mod v m)

multiple-le : (k m v : ℕ) → 0 < m → k * m ≤ v → k * m ≤ v / m * m
multiple-le k m v pos h = mul-le-mul_right m ((le-div_iff_mul-le pos).1 h)

multiple-ge : (k m v : ℕ) → 0 < m → v % m ≢ 0 → v ≤ k * m → v / m * m + m ≤ k * m
multiple-ge k m v pos ne h = elim (dec_le k (v / m)) [
  | yes below ↦ absurd (omega (arith, mul-le-mul_right m below, div-add-mod v m))
  | no above ↦
      let step : (v / m + 1) * m ≤ k * m = mul-le-mul_right m (omega arith) in omega (arith, step)
]

-- Where the value fits `uint64_t`, `round_down` gives the greatest multiple that is not above it.
pub round_down_lem :
    (v m k : ℕ)
    → 0 < m
    → v < 2 ^ 64
    → (round_down v m % m ≡ 0) × (round_down v m ≤ v) × (k * m ≤ v → k * m ≤ round_down v m)
round_down_lem v m k pos fits =
    rw (round_down-eq v m fits)
      (mul-mod_left (v / m) m, omega (arith, div-add-mod v m), multiple-le k m v pos)

-- Where the sum with the multiple fits `uint64_t`, `round_up` gives the least multiple that is not
-- below the value.
pub round_up_lem :
    (v m k : ℕ)
    → 0 < m
    → v + m ≤ 2 ^ 64
    → (round_up v m % m ≡ 0) × (v ≤ round_up v m) × (v ≤ k * m → round_up v m ≤ k * m)
round_up_lem v m k pos fits = rw (round_up-eq v m pos fits) (elim (ℕ_discrete (v % m) 0) [
  | yes exact ↦ ground arith
  | no rest ↦
      let next : (v / m * m + m) % m ≡ 0 = add-mod_right (v / m * m) m ∙ mul-mod_left (v / m) m in
      ground (arith, next, div-add-mod v m, mod-lt v pos, multiple-ge k m v pos rest)
])
