-- ===== src/Base/Fields.antt =====
-- Bit-fields of a word: the field of `width` digits from digit `offset` on.
use Prim.Native.Nat.{ℕ, zero, suc, ◌+◌, ◌-◌, ◌*◌, ◌/◌, ◌%◌, ◌^◌, ◌≤◌}
use mathlib.Core.Path.{◌≡◌, refl, sym, ap, ◌∙◌}
use native.Mathlib.Nat.{
  one-le-pow, pow-succ', add-mul-mod_self_right, mod-mod_of_dvd, dvd_refl, dvd-mul_right,
  div-div-eq-div-mul, mul_left_comm,
}
use native.Mathlib.Decide.{dec_le}
use mathlib.Core.Logic.{inl, inr}
use mathlib.Core.Bool.{Bool, true, ◌&&◌, ◌||◌}
use mathlib.Core.List.{List, [], ◌∷◌}
use umbral_os.Base.Bits.{half_mod}
use umbral_os.Base.Tests.{leb, ◌==◌, if◌then◌else◌, Bool-cases}
use native.Mathlib.Omega.{arith}

unfoldable pub get_field : ℕ → ℕ → ℕ → ℕ
get_field zero width w = w % 2 ^ width
get_field (suc offset) width w = get_field offset width (w / 2)

unfoldable pub set_field : ℕ → ℕ → ℕ → ℕ → ℕ
set_field zero width v w = v % 2 ^ width + w / 2 ^ width * 2 ^ width
set_field (suc offset) width v w = w % 2 + 2 * set_field offset width v (w / 2)

half_set : (w x : ℕ) → (w % 2 + 2 * x) / 2 ≡ x
half_set w x = omega arith

-- A field reads back what was written to it, cut to its width.
pub get_field-set_field :
    (offset width v w : ℕ) → get_field offset width (set_field offset width v w) ≡ v % 2 ^ width
unfolding get_field set_field
get_field-set_field zero width v w =
    add-mul-mod_self_right (v % 2 ^ width) (w / 2 ^ width) (2 ^ width)
    ∙ mod-mod_of_dvd (2 ^ width) v (dvd_refl (2 ^ width))
get_field-set_field (suc offset) width v w =
    rw (half_set w (set_field offset width v (w / 2))) (get_field-set_field offset width v (w / 2))

get_field-split : (width w : ℕ) → get_field 0 (suc width) w ≡ w % 2 + 2 * get_field 0 width (w / 2)
unfolding get_field
get_field-split width w =
    let p : 2 ^ suc width ≡ 2 * 2 ^ width = pow-succ' 2 width in
    let high = half_mod (2 ^ width) w (one-le-pow width 2 (omega arith)) in
    let low : w % (2 * 2 ^ width) % 2 ≡ w % 2 = mod-mod_of_dvd 2 w (dvd-mul_right 2 (2 ^ width)) in
    rw p (omega (arith, high, low))

get_field-low :
    (width x w : ℕ) → get_field 0 (suc width) (w % 2 + 2 * x) ≡ w % 2 + 2 * get_field 0 width x
unfolding get_field
get_field-low width x w =
    let low : (w % 2 + 2 * x) % 2 ≡ w % 2 = omega arith in
    get_field-split width (w % 2 + 2 * x) ∙ rw (low, half_set w x) refl

-- A write to a field above leaves a field alone.
pub get_field-set_above :
    (offset width gap width' v w : ℕ)
    → get_field offset width (set_field (offset + width + gap) width' v w)
      ≡ get_field offset width w
unfolding get_field set_field
get_field-set_above zero zero gap width' v w = omega arith
get_field-set_above zero (suc width) gap width' v w =
    let e : 0 + suc width + gap ≡ suc (0 + width + gap) = omega arith in
    let x = set_field (0 + width + gap) width' v (w / 2) in
    rw e (
      get_field-low width x w
      ∙ rw (get_field-set_above 0 width gap width' v (w / 2)) (sym (get_field-split width w)))
get_field-set_above (suc offset) width gap width' v w =
    let e : suc offset + width + gap ≡ suc (offset + width + gap) = omega arith in
    rw (e, half_set w (set_field (offset + width + gap) width' v (w / 2)))
      (get_field-set_above offset width gap width' v (w / 2))

-- One digit of a word whose low field was written.
half_of_low :
    (width v w : ℕ)
    → (v % 2 ^ suc width + w / 2 ^ suc width * 2 ^ suc width) / 2
      ≡ v / 2 % 2 ^ width + w / 2 / 2 ^ width * 2 ^ width
half_of_low width v w =
    let p : 2 ^ suc width ≡ 2 * 2 ^ width = pow-succ' 2 width in
    let high = half_mod (2 ^ width) v (one-le-pow width 2 (omega arith)) in
    let quotient : w / 2 / 2 ^ width ≡ w / (2 * 2 ^ width) = div-div-eq-div-mul w 2 (2 ^ width) in
    let product : w / (2 * 2 ^ width) * (2 * 2 ^ width) ≡ 2 * (w / (2 * 2 ^ width) * 2 ^ width) =
      mul_left_comm (w / (2 * 2 ^ width)) 2 (2 ^ width) in
    rw (p, quotient, product) (omega (arith, high))

-- A write to a field below leaves a field alone.
get_field-set_low :
    (width' gap width v w : ℕ)
    → get_field (width' + gap) width (v % 2 ^ width' + w / 2 ^ width' * 2 ^ width')
      ≡ get_field (width' + gap) width w
unfolding get_field
get_field-set_low zero gap width v w =
    let e : v % 2 ^ 0 + w / 2 ^ 0 * 2 ^ 0 ≡ w = omega arith in rw e refl
get_field-set_low (suc width') gap width v w =
    let e : suc width' + gap ≡ suc (width' + gap) = omega arith in
    rw e (
      ap (get_field (width' + gap) width) (half_of_low width' v w)
      ∙ get_field-set_low width' gap width (v / 2) (w / 2))

pub get_field-set_below :
    (offset' width' gap width v w : ℕ)
    → get_field (offset' + width' + gap) width (set_field offset' width' v w)
      ≡ get_field (offset' + width' + gap) width w
unfolding get_field set_field
get_field-set_below zero width' gap width v w =
    let e : 0 + width' + gap ≡ width' + gap = omega arith in
    rw e (get_field-set_low width' gap width v w)
get_field-set_below (suc offset') width' gap width v w =
    let e : suc offset' + width' + gap ≡ suc (offset' + width' + gap) = omega arith in
    rw e (
      ap (get_field (offset' + width' + gap) width)
        (half_set w (set_field offset' width' v (w / 2)))
      ∙ get_field-set_below offset' width' gap width v (w / 2))

-- Assignments to bit-fields of one word, in order.
pub record FieldWrite : Type 0 where
  pub offset : ℕ
  pub width : ℕ
  pub value : ℕ

-- The widths of a packed struct's members, in order: how much stands before a member, and its width.
abbrev pub before : List ℕ → ℕ → ℕ
before layout zero = 0
before [] (suc k) = 0
before (w ∷ layout) (suc k) = w + before layout k

abbrev pub width_of : List ℕ → ℕ → ℕ
width_of [] k = 0
width_of (w ∷ layout) zero = w
width_of (w ∷ layout) (suc k) = width_of layout k

abbrev pub total : List ℕ → ℕ
total [] = 0
total (w ∷ layout) = w + total layout

-- The assignment to a member, and its value.
abbrev pub member : (layout : List ℕ) (k value : ℕ) → FieldWrite
member layout k value = record {
  offset = before layout k;
  width = width_of layout k;
  value = value;
}

abbrev pub get_member : (layout : List ℕ) (k w : ℕ) → ℕ
get_member layout k w = get_field (before layout k) (width_of layout k) w

unfoldable pub write_fields : List FieldWrite → ℕ → ℕ
write_fields [] w = w
write_fields (f ∷ fs) w = write_fields fs (set_field f.offset f.width f.value w)

-- The assignment is to the same field, or to digits that are none of the field's.
abbrev same_field : ℕ → ℕ → FieldWrite → Bool
same_field offset width f = (f.offset == offset) && (f.width == width)

abbrev apart_from : ℕ → ℕ → FieldWrite → Bool
apart_from offset width f = leb (offset + width) f.offset || leb (f.offset + f.width) offset

abbrev pub is_separate : ℕ → ℕ → List FieldWrite → Bool
is_separate offset width [] = true
is_separate offset width (f ∷ fs) =
    (same_field offset width f || apart_from offset width f) && is_separate offset width fs

-- The last value assigned to the field, or `old`.
abbrev pub last_write : ℕ → ℕ → List FieldWrite → ℕ → ℕ
last_write offset width [] old = old
last_write offset width (f ∷ fs) old =
    last_write offset width fs (if same_field offset width f then f.value % 2 ^ width else old)

get_field-apart :
    (offset width : ℕ) (f : FieldWrite) (w : ℕ)
    → apart_from offset width f ≡ true
    → get_field offset width (set_field f.offset f.width f.value w) ≡ get_field offset width w
get_field-apart offset width f w h = elim (dec_le (offset + width) f.offset) [
  | yes above ↦
      let e : f.offset ≡ offset + width + (f.offset - (offset + width)) = omega arith in
      rw e (get_field-set_above offset width (f.offset - (offset + width)) f.width f.value w)
  | no below ↦
      let le : f.offset + f.width ≤ offset = ground arith in
      let e : offset ≡ f.offset + f.width + (offset - (f.offset + f.width)) = omega arith in
      rw e (get_field-set_below f.offset f.width (offset - (f.offset + f.width)) width f.value w)
]

get_field-one_write :
    (offset width : ℕ) (f : FieldWrite) (w : ℕ)
    → (same_field offset width f || apart_from offset width f) ≡ true
    → get_field offset width (set_field f.offset f.width f.value w)
      ≡ (if same_field offset width f then f.value % 2 ^ width else get_field offset width w)
get_field-one_write offset width f w h = elim (Bool-cases (same_field offset width f)) [
  | inl same ↦
      let o : f.offset ≡ offset = ground arith in
      let k : f.width ≡ width = ground arith in
      rw (same, o, k) (get_field-set_field offset width f.value w)
  | inr other ↦ rw other (get_field-apart offset width f w (ground arith))
]

pub get_field-write_fields :
    (offset width : ℕ) (fs : List FieldWrite) (w : ℕ)
    → is_separate offset width fs ≡ true
    → get_field offset width (write_fields fs w)
      ≡ last_write offset width fs (get_field offset width w)
unfolding write_fields
get_field-write_fields offset width [] w h = refl
get_field-write_fields offset width (f ∷ fs) w h =
    get_field-write_fields offset width fs (set_field f.offset f.width f.value w) (ground arith)
    ∙ ap (last_write offset width fs) (get_field-one_write offset width f w (ground arith))

-- Two runs of assignments to a word that was 0.
pub get_field-written_twice :
    (offset width : ℕ) (fs gs : List FieldWrite)
    → is_separate offset width fs ≡ true
    → is_separate offset width gs ≡ true
    → get_field offset width (write_fields gs (write_fields fs 0))
      ≡ last_write offset width gs (last_write offset width fs (get_field offset width 0))
get_field-written_twice offset width fs gs a b =
    get_field-write_fields offset width gs (write_fields fs 0) b
    ∙ ap (last_write offset width gs) (get_field-write_fields offset width fs 0 a)
