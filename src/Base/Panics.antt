-- ===== src/Base/Panics.antt =====
-- The calls of `panic`, one constructor for each message of the source, with the values printed.
use Prim.Native.Nat.{ℕ}
use mathlib.Core.List.{List, [], ◌∷◌, ◌++◌}
use umbral_os.Base.Text.{codes}

-- The exceptions that `vector_to_menemonic` of interrupt.c names.
pub data Mnemonic : Type 0 where
  de db nmi bp of_ br ud nm df cso ts np ss gp pf mf ac mc xm ve cp hv vc sx : Mnemonic

abbrev pub mnemonic_name : Mnemonic → List ℕ
mnemonic_name de = codes "#DE"
mnemonic_name db = codes "#DB"
mnemonic_name nmi = codes "#NMI"
mnemonic_name bp = codes "#BP"
mnemonic_name of_ = codes "#OF"
mnemonic_name br = codes "#BR"
mnemonic_name ud = codes "#UD"
mnemonic_name nm = codes "#NM"
mnemonic_name df = codes "#DF"
mnemonic_name cso = codes "#CSO"
mnemonic_name ts = codes "#TS"
mnemonic_name np = codes "#NP"
mnemonic_name ss = codes "#SS"
mnemonic_name gp = codes "#GP"
mnemonic_name pf = codes "#PF"
mnemonic_name mf = codes "#MF"
mnemonic_name ac = codes "#AC"
mnemonic_name mc = codes "#MC"
mnemonic_name xm = codes "#XM/#XF"
mnemonic_name ve = codes "#VE"
mnemonic_name cp = codes "#CP"
mnemonic_name hv = codes "#HV"
mnemonic_name vc = codes "#VC"
mnemonic_name sx = codes "#SX"

-- The text that the code prints.
abbrev pub mnemonic_text : Mnemonic → List ℕ
mnemonic_text m = mnemonic_name m ++ (0 ∷ [])

pub data Panic : Type 0 where
  -- common.c
  unknown_conversion : ℕ → Panic
  -- mm.c
  addr_not_aligned page_out_of_range : ℕ → Panic
  range_base_not_aligned range_len_not_aligned : Panic
  no_contiguous_pages : ℕ → Panic
  no_bitmap_region : ℕ → Panic
  what_not_aligned where_not_aligned map_at_null write_and_execute : Panic
  unknown_caching : ℕ → Panic
  map_what_not_aligned map_where_not_aligned map_size_not_aligned no_pat_support : Panic
  -- drivers/pic
  lapic_read_out_of_range lapic_write_out_of_range : ℕ → Panic
  multiple_ioapics ioapic_remapped too_few_pins : Panic
  unknown_bus : ℕ → Panic
  -- drivers/acpi
  invalid_sdt invalid_rsdp invalid_xsdp : ℕ → Panic
  unknown_madt_struct : ℕ → Panic
  unknown_legacy_feature : ℕ → Panic
  -- drivers/ps2.c
  port1_faulty port2_faulty : ℕ → Panic
  -- interrupt.c
  page_fault : (cr2 : ℕ) → Panic
  unhandled_mnemonic : Mnemonic → Panic
  unhandled_exception unhandled_interrupt : (vector : ℕ) → Panic
  -- main.c
  no_rsdp : Panic
