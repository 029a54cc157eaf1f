-- ===== src/Acpi/Records.antt =====
-- The loop of `acpi_parse_madt` over the records.
use umbral_os.Base.{
  ℕ, zero, suc, ◌+◌, ◌^◌, ◌≤◌, ◌<◌, ◌≡◌, refl, arith, true, Option, some, List, ltb, drop,
}
use umbral_os.Base.Word.{u32}
use umbral_os.Base.Action.{Action, faulted, no_end}
use umbral_os.Acpi.{Acpi, little_endian, parse_record, records_from, records_offset}

-- The length byte of the record at index `i`.
abbrev pub record_length : List ℕ → ℕ → Option ℕ
record_length bytes i = little_endian 1 (drop (records_offset + i + 1) bytes)

abbrev pub record_type : List ℕ → ℕ → Option ℕ
record_type bytes i = little_endian 1 (drop (records_offset + i) bytes)

-- A record of type 0 and length 0 before the end of the table makes the loop go on for ever: however
-- many rounds it is given, they do not suffice.
pub records_from-no_end :
    (rounds size i : ℕ) (bytes : List ℕ) (s : Acpi)
    → i + records_offset < size
    → size < 2 ^ 32
    → record_type bytes i ≡ some 0
    → record_length bytes i ≡ some 0
    → records_from rounds bytes size i s ≡ faulted no_end s
unfolding records_from parse_record
records_from-no_end zero size i bytes s inside small type_ len = refl
records_from-no_end (suc rounds) size i bytes s inside small type_ len =
    let again : ltb (i + records_offset) size ≡ true = ground arith in
    let same : u32 (i + 0) ≡ i = omega arith in
    rw (again, type_, len, same) (records_from-no_end rounds size i bytes s inside small type_ len)

-- The records that the loop comes to from index `i`: the one there, and those after its length.
pub data Visited (bytes : List ℕ) : ℕ → ℕ → Type 0 where
  here : {i : ℕ} → Visited bytes i i
  further :
      {i v j : ℕ} → record_length bytes i ≡ some v → Visited bytes (i + v) j → Visited bytes i j

pub Visited-le : {bytes : List ℕ} {i j : ℕ} → Visited bytes i j → i ≤ j
Visited-le here = omega arith
Visited-le (further len at) = let past = Visited-le at in omega (arith, past)

-- The records before the end of the table that the loop comes to have a length.
abbrev pub HaveLengths : (bytes : List ℕ) (size i : ℕ) → Type 0
HaveLengths bytes size i =
    (j v : ℕ)
    → Visited bytes i j
    → j + records_offset < size
    → record_length bytes j ≡ some v
    → (0 < v) × (v < 256)
