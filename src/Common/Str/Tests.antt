-- ===== src/Common/Str/Tests.antt =====
-- The string functions on short objects.
use umbral_os.Base.{
  length, get_or, ltb, if◌then◌else◌, ℕ, ◌≡◌, ◌↔◌, refl, arith, none, some, List, [], ◌∷◌,
}
use umbral_os.Base.Int.{pos, negsuc}
use umbral_os.Common.Str.{memcpy, memset, strncmp}
use umbral_os.Common.Str.Laws.{memcpy_lem, compared, strncmp_iff}

abbrev apic : List ℕ
apic = b'A' ∷ b'P' ∷ b'I' ∷ b'C' ∷ []

abbrev facp : List ℕ
facp = b'F' ∷ b'A' ∷ b'C' ∷ b'P' ∷ 0 ∷ []

memset_runs : memset (1 ∷ 2 ∷ 3 ∷ []) 0x1ff 2 ≡ some (255 ∷ 255 ∷ 3 ∷ [])
unfolding memset
memset_runs = refl

memcpy_out : memcpy (1 ∷ []) (5 ∷ 6 ∷ []) 2 ≡ none
unfolding memcpy
memcpy_out = refl

-- Bytes above 127 are negative.
strncmp_signed : strncmp (200 ∷ []) (100 ∷ []) 1 ≡ some (negsuc 155)
unfolding strncmp
strncmp_signed = refl

memcpy_lem_example :
    (t : List ℕ) × (memcpy (1 ∷ 2 ∷ 3 ∷ []) (8 ∷ 9 ∷ []) 2 ≡ some t)
    × (length t ≡ 3)
    × ((j : ℕ)
        → get_or t j 0 ≡ (if ltb j 2 then get_or (8 ∷ 9 ∷ []) j 0 else get_or (1 ∷ 2 ∷ 3 ∷ []) j 0))
memcpy_lem_example = memcpy_lem (1 ∷ 2 ∷ 3 ∷ []) (8 ∷ 9 ∷ []) 2 (omega arith) (omega arith)

strncmp_iff_example : (strncmp apic facp 4 ≡ some (pos 0)) ↔ (compared apic 4 ≡ compared facp 4)
strncmp_iff_example =
    strncmp_iff apic facp 4 (omega arith) (omega arith) (omega arith) (omega arith)
