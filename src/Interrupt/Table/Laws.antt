-- ===== src/Interrupt/Table/Laws.antt =====
-- What the processor reads of each entry: the address of the stub is spread over two fields.
use umbral_os.Base.{ℕ, ◌+◌, ◌*◌, ◌^◌}
use umbral_os.Base.Fields.{get_member}
use umbral_os.Interrupt.Table.{idt_entry}

pub record Gate : Type 0 where
  pub offset : ℕ
  pub segment_selector : ℕ
  pub ist : ℕ
  pub type_ : ℕ
  pub dpl : ℕ
  pub p : ℕ

abbrev pub gate : ℕ → Gate
gate w = record {
  offset = get_member idt_entry 0 w + 2 ^ 16 * get_member idt_entry 8 w;
  segment_selector = get_member idt_entry 1 w;
  ist = get_member idt_entry 2 w;
  type_ = get_member idt_entry 4 w;
  dpl = get_member idt_entry 6 w;
  p = get_member idt_entry 7 w;
}
