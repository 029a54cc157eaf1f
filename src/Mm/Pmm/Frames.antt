-- ===== src/Mm/Pmm/Frames.antt =====
-- What one page's digit of the bitmap says, and what the two accessors do with it.
use native.Mathlib.Nat.{one-le-pow}
use native.Mathlib.Decide.{ℕ_discrete}
use umbral_os.Base.{
  ℕ, zero, suc, ◌*◌, ◌/◌, ◌%◌, ◌^◌, ◌≤◌, ◌<◌, ◌≡◌, refl, arith, bit_and, bit_or, Bool, true, false,
  ◌==◌, if◌then◌else◌, length, get_or, set, length-set, get_elem?-eq-get_or, get_or-set_self,
  get_or-set_ne,
}
use umbral_os.Base.Word.{u8, not8, ◌<<◌}
use umbral_os.Base.Bits.{
  bit, bit-lt, bit-bit_or, bit-bit_and, bit-pow, bit-mod, bit_complement, bit_and-pow,
}
use umbral_os.Base.Action.{ok}
use umbral_os.Mm.Round.{page_size, char_bit}
use umbral_os.Mm.Pmm.{Pmm, addr_to_bitmap_location, mark_page, query_page}

-- The digit of page `p`, 1 for a page that may be handed out.
abbrev pub is_free : Pmm → ℕ → Bool
is_free s p = bit (get_or s.bitmap (p / char_bit) 0) (p % char_bit) == 1

-- The bitmap has a digit for each page, and an address for each page fits 64 bits.
pub record IsValid (s : Pmm) : Type 0 where
  pub addressable : s.num_pages < 2 ^ 52
  pub covered : s.num_pages ≤ char_bit * length s.bitmap

mask_lem : (k : ℕ) → k < 8 → u8 (1 << k) ≡ 2 ^ k
mask_lem zero h = refl
mask_lem (suc zero) h = refl
mask_lem (suc (suc zero)) h = refl
mask_lem (suc (suc (suc zero))) h = refl
mask_lem (suc (suc (suc (suc zero)))) h = refl
mask_lem (suc (suc (suc (suc (suc zero))))) h = refl
mask_lem (suc (suc (suc (suc (suc (suc zero)))))) h = refl
mask_lem (suc (suc (suc (suc (suc (suc (suc zero))))))) h = refl
mask_lem (suc (suc (suc (suc (suc (suc (suc (suc k)))))))) h = absurd (omega arith)

pow-lt : (k : ℕ) → k < 8 → 2 ^ k < 2 ^ 8
pow-lt k h = omega (arith, mask_lem k h)

pub location_lem :
    (s : Pmm) (p : ℕ)
    → p < s.num_pages
    → addr_to_bitmap_location (p * page_size) s ≡ ok (p / char_bit, 2 ^ (p % char_bit)) s
unfolding addr_to_bitmap_location
location_lem s p h = ground (arith, mask_lem (p % 8) (omega arith))

-- The byte with the digit set or cleared.
abbrev marked_byte : ℕ → ℕ → Bool → ℕ
marked_byte byte k usable =
    if usable then u8 (bit_or byte (2 ^ k)) else u8 (bit_and byte (not8 (2 ^ k)))

bit-marked_byte :
    (byte k j : ℕ) (usable : Bool)
    → k < 8
    → j < 8
    → bit (marked_byte byte k usable) j ≡ (if k == j then (if usable then 1 else 0) else bit byte j)
bit-marked_byte byte k j true hk hj = ground (
  arith,
  bit-mod 8 j (bit_or byte (2 ^ k)) hj,
  bit-bit_or byte (2 ^ k) j,
  bit-pow k j,
  bit-lt byte j,
)
bit-marked_byte byte k j false hk hj = ground (
  arith,
  bit-mod 8 j (bit_and byte (not8 (2 ^ k))) hj,
  bit-bit_and byte (not8 (2 ^ k)) j,
  bit_complement 8 j (2 ^ k) hj (pow-lt k hk),
  bit-pow k j,
  bit-lt byte j,
)

-- The state after the digit of page `p` has been written.
abbrev pub marked : Pmm → ℕ → Bool → Pmm
marked s p usable = record s {
  bitmap =
      set s.bitmap (p / char_bit)
        (marked_byte (get_or s.bitmap (p / char_bit) 0) (p % char_bit) usable);
}

module _ (s : Pmm) (p : ℕ) (v : IsValid s) (h : p < s.num_pages) where
  in_bitmap : p / char_bit < length s.bitmap
  in_bitmap = omega (arith, v.covered)

  abbrev byte : ℕ
  byte = get_or s.bitmap (p / char_bit) 0

  pub query_page_lem : query_page (p * page_size) s ≡ ok (is_free s p) s
  unfolding query_page
  query_page_lem =
      rw (location_lem s p h, get_elem?-eq-get_or s.bitmap (p / char_bit) 0 in_bitmap)
        (ground (
          arith,
          bit_and-pow byte (p % char_bit),
          bit-lt byte (p % char_bit),
          one-le-pow (p % char_bit) 2,
        ))

  pub mark_page_lem :
      (usable : Bool) → mark_page (p * page_size) usable s ≡ ok tt (marked s p usable)
  unfolding mark_page
  mark_page_lem usable =
      rw (location_lem s p h, get_elem?-eq-get_or s.bitmap (p / char_bit) 0 in_bitmap)

  pub marked-IsValid : (usable : Bool) → IsValid (marked s p usable)
  marked-IsValid usable = record {
    addressable = v.addressable;
    covered = omega (
      arith,
      v.covered,
      length-set s.bitmap (p / char_bit) (marked_byte byte (p % char_bit) usable),
    );
  }

  pub is_free-marked :
      (usable : Bool) (q : ℕ)
      → is_free (marked s p usable) q ≡ (if p == q then usable else is_free s q)
  is_free-marked usable q = elim (ℕ_discrete (p / 8) (q / 8)) [
    | yes e ↦
        rw
          (
            ← e,
            get_or-set_self s.bitmap (p / 8) (marked_byte byte (p % 8) usable) 0 in_bitmap,
            bit-marked_byte byte (p % 8) (q % 8) usable (omega arith) (omega arith),
          )
          (ground arith)
    | no ne ↦
        rw (get_or-set_ne s.bitmap (p / 8) (q / 8) (marked_byte byte (p % 8) usable) 0 ne)
          (ground arith)
  ]
