-- ===== src/Gdt/Laws.antt =====
-- What the processor reads of the descriptors: the base of the task state segment is spread over
-- three fields of two entries.
use umbral_os.Base.{ℕ, ◌+◌, ◌*◌, ◌^◌}
use umbral_os.Base.Fields.{get_member}
use umbral_os.Gdt.{Gdt, segment_descriptor, system_descriptor_low, system_descriptor_high}

-- The segment behind two entries: base and limit, the limit's unit, the type, which counts for a system
-- segment only where `s` is 0, the level, the presence, and the digits that have to be 0.
pub record SystemSegment : Type 0 where
  pub base : ℕ
  pub limit : ℕ
  pub g : ℕ
  pub s : ℕ
  pub type_ : ℕ
  pub dpl : ℕ
  pub p : ℕ
  pub reserved : ℕ

abbrev pub system_segment : (low high : ℕ) → SystemSegment
system_segment low high = record {
  base =
      get_member system_descriptor_low 1 low
      + 2 ^ 24 * get_member system_descriptor_low 10 low
      + 2 ^ 32 * get_member system_descriptor_high 0 high;
  limit = get_member system_descriptor_low 0 low + 2 ^ 16 * get_member system_descriptor_low 6 low;
  g = get_member system_descriptor_low 9 low;
  s = get_member system_descriptor_low 3 low;
  type_ = get_member system_descriptor_low 2 low;
  dpl = get_member system_descriptor_low 4 low;
  p = get_member system_descriptor_low 5 low;
  reserved = get_member system_descriptor_high 1 high;
}

-- What the processor reads of a code segment: it is present, for the kernel's level, a code segment,
-- and for 64-bit code.
pub record CodeSegment : Type 0 where
  pub p : ℕ
  pub dpl : ℕ
  pub s : ℕ
  pub e : ℕ
  pub l : ℕ
  pub db : ℕ

abbrev pub code_segment : ℕ → CodeSegment
code_segment w = record {
  p = get_member segment_descriptor 8 w;
  dpl = get_member segment_descriptor 7 w;
  s = get_member segment_descriptor 6 w;
  e = get_member segment_descriptor 5 w;
  l = get_member segment_descriptor 11 w;
  db = get_member segment_descriptor 12 w;
}
