-- ===== src/Common/Str.antt =====
-- `memcpy`, `memset`, `memzero`, `strlen` and `strncmp` of common.c. An object is the list of its
-- bytes, and a pointer into it the list from there on; `none` is an access outside the object.
pub mod Laws
mod Tests
use umbral_os.Base.{
  ℕ, zero, suc, ◌+◌, ◌-◌, ◌%◌, Bool, true, false, Option, none, some, List, [], ◌∷◌, ltb, leb, ◌==◌,
  if◌then◌else◌, length, get_elem?, set,
}
use umbral_os.Base.Word.{u8}
use umbral_os.Base.Int.{ℤ, pos, sub_ℕ}

-- The loops recur on the rounds left; `i` is the index.
pub copy_from : ℕ → ℕ → List ℕ → List ℕ → Option (List ℕ)
copy_from zero i dest src = some dest
copy_from (suc rounds) i dest src = elim (get_elem? src i) [
  | none ↦ none
  | some byte ↦
      let rest = copy_from rounds (i + 1) (set dest i byte) src in
      if ltb i (length dest) then rest else none
]

pub memcpy : List ℕ → List ℕ → ℕ → Option (List ℕ)
unfolding copy_from
memcpy dest src count = copy_from count 0 dest src

pub fill_from : ℕ → ℕ → List ℕ → ℕ → Option (List ℕ)
fill_from zero i s c = some s
fill_from (suc rounds) i s c =
    let rest = fill_from rounds (i + 1) (set s i (u8 c)) c in
    if ltb i (length s) then rest else none

pub memset : List ℕ → ℕ → ℕ → Option (List ℕ)
unfolding fill_from
memset s c n = fill_from n 0 s c

pub memzero : List ℕ → ℕ → Option (List ℕ)
unfolding memset
memzero s n = memset s 0 n

pub length_from : List ℕ → ℕ → Option ℕ
length_from [] i = none
length_from (c ∷ str) i = if c == 0 then some i else length_from str (i + 1)

unfoldable pub strlen : List ℕ → Option ℕ
unfolding length_from
strlen str = length_from str 0

-- `s1[i] - s2[i]`, each byte read as a signed `char`.
abbrev pub char_difference : ℕ → ℕ → ℤ
char_difference a b = sub_ℕ ((a + 128) % 256) ((b + 128) % 256)

-- Both strings move on together, so that `i` is the number of bytes passed.
unfoldable pub strncmp : List ℕ → List ℕ → ℕ → Option ℤ
strncmp s1 s2 zero = some (pos 0)
strncmp [] s2 (suc n) = none
strncmp (a ∷ s1) [] (suc n) = none
strncmp (a ∷ s1) (b ∷ s2) (suc n) =
    let rest = strncmp s1 s2 n in
    if a == b then (if a == 0 then some (pos 0) else rest) else some (char_difference a b)
