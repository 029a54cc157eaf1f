-- ===== src/Security/Laws.antt =====
-- What `security_init` turns on.
use umbral_os.Base.{
  ℕ, ◌^◌, ◌≡◌, refl, ap, ◌∙◌, arith, bit_and, bit_or, Bool, true, false, ◌&&◌, List, [], ◌∷◌, ◌++◌,
  ◌==◌, ◌!=◌, if◌then◌else◌, Bool-cases, inl, inr,
}
use mathlib.Core.List.{append-nil}
use native.Mathlib.Nat.{one-le-pow}
use umbral_os.Base.Bits.{bit, bit-lt, bit-pow, bit_and-pow, bit-bit_or}
use umbral_os.Base.Word.{u32}
use umbral_os.Base.Action.{ok}
use umbral_os.Intel.{Event, cpuid}
use umbral_os.Security.{security_init, enforce_smap, clac, cr4}

-- A digit set under a condition.
with_bit :
    (t : Bool) (m w k : ℕ)
    → bit (if t then bit_or w (2 ^ m) else w) k ≡ (if (m == k) && t then 1 else bit w k)
with_bit true m w k = ground (arith, bit-bit_or w (2 ^ m) k, bit-pow m k, bit-lt w k)
with_bit false m w k = ground arith

test_bit : (x k : ℕ) → (bit_and x (2 ^ k) != 0) ≡ (bit x k == 1)
test_bit x k = ground (arith, bit_and-pow x k, bit-lt x k, one-le-pow k 2 (omega arith))

-- The digit `k` of CR4 afterwards.
abbrev pub protected_bit : (ebx ecx initial k : ℕ) → ℕ
protected_bit ebx ecx initial k =
    if (11 == k) && (bit ecx 2 == 1)
    then 1
    else if (20 == k) && (bit ebx 7 == 1)
    then 1
    else if (21 == k) && (bit ebx 20 == 1)
    then 1
    else bit initial k

-- `security_init` loads CR4 with SMAP, SMEP and UMIP set where the processor reports them and every
-- other digit as it was, keeps whether SMAP is there, and ends with `clac` exactly if it is.
pub security_init_lem :
    (a b c d initial : ℕ) (rest : List ℕ) (trace : List Event) (old : Bool)
    → (value : ℕ) × (security_init (record {
      cpu = record { replies = a ∷ b ∷ c ∷ d ∷ initial ∷ rest; trace = trace };
      has_smap = old;
    })
        ≡ ok tt (record {
          cpu = record {
            replies = rest;
            trace =
                ((trace ++ (Event.run_cpuid 7 0 ∷ [])) ++ (Event.load_register cr4 value ∷ []))
                ++ (if bit (u32 b) 20 == 1 then Event.instruction clac ∷ [] else []);
          };
          has_smap = bit (u32 b) 20 == 1;
        }))
      × ((k : ℕ) → bit value k ≡ protected_bit (u32 b) (u32 c) initial k)
unfolding security_init enforce_smap cpuid
security_init_lem a b c d initial rest trace old =
    let smap = test_bit (u32 b) 20 in
    let smep = test_bit (u32 b) 7 in
    let umip = test_bit (u32 c) 2 in
    let has_smap = bit (u32 b) 20 == 1 in
    let has_smep = bit (u32 b) 7 == 1 in
    let has_umip = bit (u32 c) 2 == 1 in
    let with_smap = if has_smap then bit_or initial (2 ^ 21) else initial in
    let with_smep = if has_smep then bit_or with_smap (2 ^ 20) else with_smap in
    (
      if has_umip then bit_or with_smep (2 ^ 11) else with_smep,
      rw (smap, smep, umip)
          (elim (Bool-cases has_smap) [
            | inl there ↦ rw there refl
            | inr absent ↦ rw absent (simp append-nil refl)
          ]),
      λ k.
          with_bit has_umip 11 with_smep k
          ∙ ap (λ (x : ℕ). if (11 == k) && has_umip then 1 else x)
              (with_bit has_smep 20 with_smap k
                ∙ ap (λ (x : ℕ). if (20 == k) && has_smep then 1 else x)
                    (with_bit has_smap 21 initial k)),
    )
