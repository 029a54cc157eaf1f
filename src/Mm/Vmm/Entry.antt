-- ===== src/Mm/Vmm/Entry.antt =====
-- The fields of the entries that the map writes, whatever the words held before.
use umbral_os.Base.{
  ℕ, zero, suc, ◌+◌, ◌*◌, ◌/◌, ◌%◌, ◌^◌, ◌<◌, ◌≡◌, refl, arith, Bool, true, false, not, ◌!=◌,
}
use umbral_os.Base.Fields.{get_field, write_fields, get_field-write_fields}
use umbral_os.Mm.Vmm.Walk.{is_open}
use umbral_os.Mm.Vmm.{
  table_writes, leaf_writes, is_present, entry_addr, is_large, has_flag, digit, m_w, m_x, m_u,
}

digit_read : (b : Bool) → (digit b % 2 != 0) ≡ b
digit_read true = refl
digit_read false = refl

digit_read_not : (b : Bool) → not (digit (not b) % 2 != 0) ≡ b
digit_read_not true = refl
digit_read_not false = refl

caching_digits :
    (pat : ℕ)
    → pat < 8
    → 4 * (digit (has_flag pat 0b100) % 2)
        + 2 * (digit (has_flag pat 0b010) % 2)
        + digit (has_flag pat 0b001) % 2
      ≡ pat
caching_digits zero h = refl
caching_digits (suc zero) h = refl
caching_digits (suc (suc zero)) h = refl
caching_digits (suc (suc (suc zero))) h = refl
caching_digits (suc (suc (suc (suc zero)))) h = refl
caching_digits (suc (suc (suc (suc (suc zero))))) h = refl
caching_digits (suc (suc (suc (suc (suc (suc zero)))))) h = refl
caching_digits (suc (suc (suc (suc (suc (suc (suc zero))))))) h = refl
caching_digits (suc (suc (suc (suc (suc (suc (suc (suc pat)))))))) h = absurd (omega arith)

pub table-is_present : (page w : ℕ) → is_present (write_fields (table_writes page) w) ≡ true
table-is_present page w = rw (get_field-write_fields 0 1 (table_writes page) w refl) refl

pub table-entry_addr :
    (page w : ℕ) → page < 2 ^ 52 → entry_addr (write_fields (table_writes page) w) ≡ page / 2 ^ 12
table-entry_addr page w h =
    rw (get_field-write_fields 12 40 (table_writes page) w refl) (omega arith)

pub table-is_large : (page w : ℕ) → is_large (write_fields (table_writes page) w) ≡ false
table-is_large page w = rw (get_field-write_fields 7 1 (table_writes page) w refl) refl

pub table-is_open : (page w : ℕ) → is_open (write_fields (table_writes page) w) ≡ true
table-is_open page w =
    rw
      (
        get_field-write_fields 1 1 (table_writes page) w refl,
        get_field-write_fields 63 1 (table_writes page) w refl,
      )
      refl

pub leaf-is_present :
    (what flags pat w : ℕ) → is_present (write_fields (leaf_writes what flags pat) w) ≡ true
leaf-is_present what flags pat w =
    rw (get_field-write_fields 0 1 (leaf_writes what flags pat) w refl) refl

-- What the processor reads in a `page_table_entry`.
pub record Leaf : Type 0 where
  pub frame : ℕ
  pub writable : Bool
  pub user : Bool
  pub executable : Bool
  pub caching : ℕ

abbrev pub leaf : (frame : ℕ) (writable user executable : Bool) (caching : ℕ) → Leaf
leaf f w u x c = record { frame = f; writable = w; user = u; executable = x; caching = c }

-- The caching index is PAT, PCD and PWT.
abbrev pub read_leaf : ℕ → Leaf
read_leaf w = record {
  frame = get_field 12 40 w;
  writable = get_field 1 1 w != 0;
  user = get_field 2 1 w != 0;
  executable = not (get_field 63 1 w != 0);
  caching = 4 * get_field 7 1 w + 2 * get_field 4 1 w + get_field 3 1 w;
}

Leaf_ext :
    {f f' c c' : ℕ} {w w' u u' x x' : Bool}
    → f ≡ f'
    → w ≡ w'
    → u ≡ u'
    → x ≡ x'
    → c ≡ c'
    → leaf f w u x c ≡ leaf f' w' u' x' c'
Leaf_ext a b c d e = rw (a, b, c, d, e) refl

pub read_leaf-leaf_writes :
    (what flags pat w : ℕ)
    → what < 2 ^ 52
    → pat < 8
    → read_leaf (write_fields (leaf_writes what flags pat) w)
      ≡ leaf (what / 2 ^ 12) (has_flag flags m_w) (has_flag flags m_u) (has_flag flags m_x) pat
read_leaf-leaf_writes what flags pat w fits small =
    let field = λ (o k : ℕ). get_field-write_fields o k (leaf_writes what flags pat) w in
    rw
      (
        field 12 40 refl,
        field 1 1 refl,
        field 2 1 refl,
        field 63 1 refl,
        field 7 1 refl,
        field 4 1 refl,
        field 3 1 refl,
      )
      (Leaf_ext (omega arith) (digit_read (has_flag flags m_w)) (digit_read (has_flag flags m_u))
        (digit_read_not (has_flag flags m_x)) (caching_digits pat small))

pub zero-is_present : is_present 0 ≡ false
unfolding get_field
zero-is_present = refl
