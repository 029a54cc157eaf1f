-- ===== src/Main/Fp.antt =====
-- `fp_init`: which digits of the two control registers it sets.
use umbral_os.Base.{
  ℕ, ◌-◌, ◌^◌, ◌<◌, ◌≡◌, refl, arith, bit_and, bit_or, ◌||◌, ◌==◌, if◌then◌else◌, List, [], ◌∷◌,
  ◌++◌,
}
use umbral_os.Base.Bits.{bit, bit-lt, bit-bit_or, bit-bit_and, bit-pow, bit_complement}
use mathlib.Core.List.{append_assoc}
use umbral_os.Base.Action.{ok}
use umbral_os.Intel.{Event}
use umbral_os.Main.{fp_init}

-- The digits of the two words that `fp_init` adds.
abbrev pub cr0_word : ℕ → ℕ
cr0_word w = bit_or (bit_and w (2 ^ 64 - 1 - 4)) (bit_or (bit_or 32 8) 2)

abbrev pub cr4_word : ℕ → ℕ
cr4_word w = bit_or w (bit_or 1024 512)

-- The digits of the constants.
mask0 :
    (k : ℕ) → bit (bit_or (bit_or 32 8) 2) k ≡ (if (k == 1) || ((k == 3) || (k == 5)) then 1 else 0)
mask0 k =
    rw (bit-bit_or (bit_or (2 ^ 5) (2 ^ 3)) (2 ^ 1) k, bit-bit_or (2 ^ 5) (2 ^ 3) k)
      (ground (arith, bit-pow 5 k, bit-pow 3 k, bit-pow 1 k))

mask4 : (k : ℕ) → bit (bit_or 1024 512) k ≡ (if (k == 9) || (k == 10) then 1 else 0)
mask4 k = rw (bit-bit_or (2 ^ 10) (2 ^ 9) k) (ground (arith, bit-pow 10 k, bit-pow 9 k))

cr0_digit :
    (w k : ℕ)
    → k < 64
    → bit (cr0_word w) k
      ≡ (if k == 2 then 0 else if (k == 1) || ((k == 3) || (k == 5)) then 1 else bit w k)
cr0_digit w k h =
    rw
      (
        bit-bit_or (bit_and w (2 ^ 64 - 1 - 4)) (bit_or (bit_or 32 8) 2) k,
        bit-bit_and w (2 ^ 64 - 1 - 2 ^ 2) k,
        bit_complement 64 k (2 ^ 2) h (omega arith),
        bit-pow 2 k,
        mask0 k,
      )
      (ground (arith, bit-lt w k))

cr4_digit : (w k : ℕ) → bit (cr4_word w) k ≡ (if (k == 9) || (k == 10) then 1 else bit w k)
cr4_digit w k = rw (bit-bit_or w (bit_or 1024 512) k, mask4 k) (ground (arith, bit-lt w k))

-- `fp_init` clears EM and sets MP, TS and NE in CR0, and sets OSFXSR and OSXMMEXCPT in CR4. All other
-- digits of both registers stay.
pub fp_init_lem :
    (w0 w4 : ℕ) (rest : List ℕ) (trace : List Event)
    → (v0 v4 : ℕ) × (fp_init (record { replies = w0 ∷ w4 ∷ rest; trace = trace })
        ≡ ok tt (record {
          replies = rest;
          trace = trace ++ (Event.load_register 0 v0 ∷ Event.load_register 4 v4 ∷ []);
        }))
      × ((k : ℕ)
          → k < 64
          → bit v0 k
            ≡ (if k == 2 then 0 else if (k == 1) || ((k == 3) || (k == 5)) then 1 else bit w0 k))
      × ((k : ℕ) → bit v4 k ≡ (if (k == 9) || (k == 10) then 1 else bit w4 k))
unfolding fp_init
fp_init_lem w0 w4 rest trace =
    (cr0_word w0, cr4_word w4, simp append_assoc refl, cr0_digit w0, cr4_digit w4)
