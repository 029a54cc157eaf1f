-- ===== src/Mm/Vmm.antt =====
-- The virtual memory map: the functions of mm.c from line 38 on that read or write page tables, and
-- `pmm_zero`. The allocator's bitmap stands in its own state, apart from the words of memory: the
-- pages that it covers are never handed out.
pub mod Entry
pub mod Walk
pub mod Tree
pub mod Install
pub mod Ensure
pub mod Reach
pub mod Leaf
pub mod Map
pub mod Pages
pub mod Range
pub mod Unaligned
pub mod Boot
pub mod Root
mod Tests
use umbral_os.Base.{
  ℕ, zero, suc, ◌+◌, ◌-◌, ◌*◌, ◌/◌, ◌%◌, bit_and, bit_or, Bool, true, false, not, ◌&&◌, List, [],
  ◌∷◌, ltb, leb, ◌==◌, ◌!=◌, if◌then◌else◌,
}
use umbral_os.Base.Word.{u16, u64, sub64, ◌<<◌, ◌>>>◌}
use umbral_os.Base.Fields.{FieldWrite, get_field, write_fields}
use umbral_os.Base.Panics.{
  what_not_aligned, where_not_aligned, map_at_null, write_and_execute, unknown_caching,
  map_what_not_aligned, map_where_not_aligned, map_size_not_aligned, no_pat_support,
}
use umbral_os.Base.Action.{Action, pure, panic, panic_if, gets, modify, within, ◌>>=◌, ◌>>◌}
use umbral_os.Intel.{Cpu, Event, record_event, cpuid, wrmsr}
use umbral_os.Limine.{MemmapEntry, MemmapType}
use umbral_os.Mm.Round.{page_size, round_down, round_up}
use umbral_os.Mm.Pmm.{Pmm, alloc_page, phy_to_virt, query_page}

-- `mem` is the 64-bit word at a virtual address, and `pml4` the pointer `PML4`.
pub record Vmm : Type 0 where
  pub pmm : Pmm
  pub mem : ℕ → ℕ
  pub pml4 : ℕ
  pub cpu : Cpu

abbrev pub with_pmm : {A : Type 0} → Action Pmm A → Action Vmm A
with_pmm = within (λ s. s.pmm) (λ p s. record s { pmm = p })

abbrev pub with_cpu : {A : Type 0} → Action Cpu A → Action Vmm A
with_cpu = within (λ s. s.cpu) (λ c s. record s { cpu = c })

abbrev pub load64 : ℕ → Action Vmm ℕ
load64 address = gets (λ s. s.mem address)

abbrev pub store64 : ℕ → ℕ → Action Vmm (Unit {0})
store64 address value =
    modify (λ s. record s { mem = λ x. if x == address then value else s.mem x })

-- `memzero` on whole words.
abbrev pub zero_words : ℕ → ℕ → Action Vmm (Unit {0})
zero_words start n =
    modify (λ s. record s { mem = λ x. if leb start x && ltb x (start + n) then 0 else s.mem x })

-- The loop of `pmm_zero`, with the rounds left.
pub zero_from : ℕ → ℕ → Action Vmm (Unit {0})
zero_from zero i = pure tt
zero_from (suc rounds) i = do
  usable ← with_pmm (query_page (u64 (i * page_size)))
  let clear = do virt ← with_pmm (phy_to_virt (u64 (i * page_size))); zero_words virt page_size
  (if usable then clear else pure tt)
  zero_from rounds (i + 1)

pub pmm_zero : Action Vmm (Unit {0})
pmm_zero = do zero_from (← gets (λ s. s.pmm.num_pages)) 0

abbrev pub at : (offset width value : ℕ) → FieldWrite
at offset width value = record { offset = offset; width = width; value = value }

-- The writes of `vmm_ensure_present` to a `page_directory_entry_subdirectory`, in order.
abbrev pub table_writes : ℕ → List FieldWrite
table_writes page =
    at 63 1 0
    ∷ at 12 40 (page >>> 12)
    ∷ at 7 1 0
    ∷ at 5 1 0
    ∷ at 4 1 0
    ∷ at 3 1 0
    ∷ at 2 1 0
    ∷ at 1 1 1
    ∷ at 0 1 1
    ∷ []

abbrev pub is_present : ℕ → Bool
is_present w = get_field 0 1 w != 0

abbrev pub is_large : ℕ → Bool
is_large w = get_field 7 1 w != 0

abbrev pub entry_addr : ℕ → ℕ
entry_addr w = get_field 12 40 w

-- The branch for an entry that is not present.
pub install_table : ℕ → Action Vmm (Unit {0})
install_table entry = do
  page ← with_pmm alloc_page
  virt ← with_pmm (phy_to_virt page)
  zero_words virt page_size
  w ← load64 entry
  store64 entry (write_fields (table_writes page) w)

pub ensure_present : ℕ → Action Vmm ℕ
ensure_present entry = do
  w ← load64 entry
  (if is_present w then pure tt else install_table entry)
  w' ← load64 entry
  with_pmm (phy_to_virt (u64 (entry_addr w' << 12)))

abbrev pub m_w : ℕ
m_w = 0x1

abbrev pub m_x : ℕ
m_x = 0x2

abbrev pub m_u : ℕ
m_u = 0x4

abbrev pub m_cache_uc : ℕ
m_cache_uc = 0x8

abbrev pub m_cache_wc : ℕ
m_cache_wc = 0x10

abbrev pub m_cache_mask : ℕ
m_cache_mask = 0x18

abbrev pub has_flag : ℕ → ℕ → Bool
has_flag flags m = bit_and flags m != 0

-- The switch over the caching mode.
pub caching_pat : ℕ → Action Vmm ℕ
caching_pat flags =
    let mode = bit_and flags m_cache_mask in
    if mode == 0
    then pure 0b000
    else if mode == m_cache_uc
    then pure 0b010
    else if mode == m_cache_wc
    then pure 0b101
    else panic (unknown_caching mode)

abbrev pub digit : Bool → ℕ
digit b = if b then 1 else 0

-- The writes of `vmm_map_page` to a `page_table_entry`, in order.
abbrev pub leaf_writes : ℕ → ℕ → ℕ → List FieldWrite
leaf_writes what flags pat =
    at 63 1 (digit (not (has_flag flags m_x)))
    ∷ at 59 4 0
    ∷ at 12 40 (what >>> 12)
    ∷ at 8 1 0
    ∷ at 7 1 (digit (has_flag pat 0b100))
    ∷ at 5 1 0
    ∷ at 6 1 0
    ∷ at 4 1 (digit (has_flag pat 0b010))
    ∷ at 3 1 (digit (has_flag pat 0b001))
    ∷ at 2 1 (digit (has_flag flags m_u))
    ∷ at 1 1 (digit (has_flag flags m_w))
    ∷ at 0 1 1
    ∷ []

-- `(((uintptr_t)where) >> shift) & 0x1FF`
abbrev pub table_index : ℕ → ℕ → ℕ
table_index shift where_ = u16 (bit_and (where_ >>> shift) 0x1FF)

-- What `vmm_map_page` does once its arguments are accepted.
pub map_leaf : ℕ → ℕ → ℕ → ℕ → Action Vmm (Unit {0})
map_leaf what where_ flags pat = do
  pml4 ← gets (λ s. s.pml4)
  pdpt ← ensure_present (pml4 + 8 * table_index 39 where_)
  pd ← ensure_present (pdpt + 8 * table_index 30 where_)
  pt ← ensure_present (pd + 8 * table_index 21 where_)
  let entry = pt + 8 * table_index 12 where_
  w ← load64 entry
  store64 entry (write_fields (leaf_writes what flags pat) w)

pub map_page : ℕ → ℕ → ℕ → Action Vmm (Unit {0})
map_page what where_ flags = do
  panic_if (what % page_size != 0) what_not_aligned
  panic_if (where_ % page_size != 0) where_not_aligned
  panic_if (where_ == 0) map_at_null
  panic_if (has_flag flags m_w && has_flag flags m_x) write_and_execute
  pat ← caching_pat flags
  map_leaf what where_ flags pat

-- The loop of `vmm_map`.
pub map_from : ℕ → ℕ → ℕ → ℕ → ℕ → Action Vmm (Unit {0})
map_from zero what where_ i flags = pure tt
map_from (suc rounds) what where_ i flags = do
  map_page (u64 (what + i)) (u64 (where_ + i)) flags
  map_from rounds what where_ (i + page_size) flags

pub vmm_map : ℕ → ℕ → ℕ → ℕ → Action Vmm (Unit {0})
vmm_map what where_ size flags = do
  panic_if (what % page_size != 0) map_what_not_aligned
  panic_if (where_ % page_size != 0) map_where_not_aligned
  panic_if (size % page_size != 0) map_size_not_aligned
  map_from (size / page_size) what where_ 0 flags

unfoldable pub map_unaligned : ℕ → ℕ → ℕ → ℕ → Action Vmm (Unit {0})
map_unaligned what where_ size flags =
    let aligned_what = round_down what page_size in
    let aligned_where = round_down where_ page_size in
    let aligned_end = round_up (u64 (what + size)) page_size in
    vmm_map aligned_what aligned_where (sub64 aligned_end aligned_what) flags
