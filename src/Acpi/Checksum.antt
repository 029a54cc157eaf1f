-- ===== src/Acpi/Checksum.antt =====
-- `validate_sdt`, `validate_rsdp` and `validate_xsdp`: the sum of the bytes.
use umbral_os.Base.{
  ℕ, zero, suc, ◌+◌, ◌%◌, ◌≤◌, ◌<◌, ◌≡◌, ◌≢◌, refl, ◌∙◌, ap, arith, true, false, none, some, List,
  [], ◌∷◌, ◌!=◌, length,
}
use umbral_os.Base.Word.{u8}
use umbral_os.Base.Panics.{Panic}
use umbral_os.Base.Action.{ok, panicked, faulted, out_of_bounds}
use umbral_os.Acpi.{Acpi, sum_from, validate}

-- The sum of the first `n` bytes.
abbrev pub total : ℕ → List ℕ → ℕ
total zero bytes = 0
total (suc n) [] = 0
total (suc n) (b ∷ bytes) = b + total n bytes

sum_from_lem :
    (n : ℕ) (bytes : List ℕ) (c : ℕ)
    → c < 256
    → n ≤ length bytes
    → sum_from n bytes c ≡ some ((c + total n bytes) % 256)
unfolding sum_from
sum_from_lem zero bytes c small inside = ap some (omega arith)
sum_from_lem (suc n) [] c small inside = absurd (omega arith)
sum_from_lem (suc n) (b ∷ bytes) c small inside =
    sum_from_lem n bytes (u8 (c + b)) (omega arith) (omega arith) ∙ ap some (omega arith)

sum_from_start :
    (n : ℕ) (bytes : List ℕ) → n ≤ length bytes → sum_from n bytes 0 ≡ some (total n bytes % 256)
sum_from_start n bytes inside = sum_from_lem n bytes 0 (omega arith) inside ∙ ap some (omega arith)

sum_from_outside : (n : ℕ) (bytes : List ℕ) (c : ℕ) → length bytes < n → sum_from n bytes c ≡ none
unfolding sum_from
sum_from_outside zero bytes c outside = absurd (omega arith)
sum_from_outside (suc n) [] c outside = refl
sum_from_outside (suc n) (b ∷ bytes) c outside = sum_from_outside n bytes (u8 (c + b)) (omega arith)

-- A table is accepted exactly when the sum of its bytes is a multiple of 256; otherwise the check
-- panics with what is left over. A size past the end of the object makes it read outside.
pub validate_lem :
    (p : ℕ → Panic) (size : ℕ) (bytes : List ℕ) (s : Acpi)
    → ((size ≤ length bytes) → (total size bytes % 256 ≡ 0) → validate p size bytes s ≡ ok tt s)
      × ((size ≤ length bytes)
          → (total size bytes % 256 ≢ 0)
          → validate p size bytes s ≡ panicked (p (total size bytes % 256)) s)
      × ((length bytes < size) → validate p size bytes s ≡ faulted out_of_bounds s)
unfolding validate
validate_lem p size bytes s = (
  λ inside zero_sum.
      let good : (total size bytes % 256 != 0) ≡ false = ground arith in
      rw (sum_from_start size bytes inside, good) refl,
  λ inside other.
      let bad : (total size bytes % 256 != 0) ≡ true = ground arith in
      rw (sum_from_start size bytes inside, bad) refl,
  λ outside. rw (sum_from_outside size bytes 0 outside) refl,
)
