-- ===== src/Mm/Pmm.antt =====
-- The physical page allocator: PMM_DATA and the functions of mm.c (lines 16-21 and 45-197) that
-- read or write its bitmap. `pHHDM` is kept beside it.
pub mod Frames
pub mod Runs
pub mod Alloc
pub mod Laws
pub mod Entries
pub mod Init
mod Tests
use umbral_os.Base.{
  ℕ, zero, suc, ◌+◌, ◌*◌, ◌/◌, ◌%◌, bit_and, bit_or, Bool, true, false, ◌&&◌, List, [], ◌∷◌, ltb,
  leb, ◌==◌, ◌!=◌, if◌then◌else◌, get_elem?, set, replicate,
}
use umbral_os.Base.Word.{u8, u64, sub64, not8, ◌<<◌}
use umbral_os.Base.Panics.{
  addr_not_aligned, page_out_of_range, range_base_not_aligned, range_len_not_aligned,
  no_contiguous_pages, no_bitmap_region,
}
use umbral_os.Base.Action.{Action, pure, panic, panic_if, gets, modify, or_fault, ◌>>=◌, ◌>>◌}
use umbral_os.Limine.{MemmapEntry, MemmapType, is_usable}
use umbral_os.Mm.Round.{page_size, char_bit, round_up, pages_of}

-- `bitmap` holds the bytes that the pointer `bitmap_base` leads to.
pub record Pmm : Type 0 where
  pub hhdm : ℕ
  pub num_pages : ℕ
  pub bitmap_base : ℕ
  pub bitmap : List ℕ

unfoldable pub phy_to_virt : ℕ → Action Pmm ℕ
phy_to_virt paddr = gets (λ s. u64 (s.hhdm + paddr))

pub addr_to_bitmap_location : ℕ → Action Pmm (ℕ × ℕ)
addr_to_bitmap_location page = do
  panic_if (page % page_size != 0) (addr_not_aligned page)
  let page_idx = page / page_size
  num_pages ← gets (λ s. s.num_pages)
  panic_if (leb num_pages page_idx) (page_out_of_range page)
  pure (page_idx / char_bit, u8 (1 << (page_idx % char_bit)))

-- `PMM_DATA.bitmap[i]`, read and written.
pub load : ℕ → Action Pmm ℕ
load i s = or_fault (get_elem? s.bitmap i) s

pub store : ℕ → ℕ → Action Pmm (Unit {0})
store i byte = modify (λ s. record s { bitmap = set s.bitmap i byte })

pub mark_page : ℕ → Bool → Action Pmm (Unit {0})
unfolding load store
mark_page page usable = do
  (bitmap_index, bitmap_mask) ← addr_to_bitmap_location page
  byte ← load bitmap_index
  store bitmap_index
      (if usable then u8 (bit_or byte bitmap_mask) else u8 (bit_and byte (not8 bitmap_mask)))

pub query_page : ℕ → Action Pmm Bool
unfolding load
query_page page = do
  (bitmap_index, bitmap_mask) ← addr_to_bitmap_location page
  byte ← load bitmap_index
  pure (bit_and byte bitmap_mask != 0)

-- The loop of `pmm_mark_range`, with the rounds left.
pub mark_from : ℕ → ℕ → ℕ → Bool → Action Pmm (Unit {0})
mark_from zero base i usable = pure tt
mark_from (suc rounds) base i usable = do
  mark_page (u64 (base + i)) usable
  mark_from rounds base (i + page_size) usable

pub mark_range : ℕ → ℕ → Bool → Action Pmm (Unit {0})
mark_range base len usable = do
  panic_if (base % page_size != 0) range_base_not_aligned
  panic_if (len % page_size != 0) range_len_not_aligned
  mark_from (len / page_size) base 0 usable

-- The two inner loops of `pmm_alloc_pages`, over `j`. The first asks about every page, also after
-- one that is not usable.
pub query_run : ℕ → ℕ → ℕ → Bool → Action Pmm Bool
query_run zero i j usable = pure usable
query_run (suc rounds) i j usable = do
  free ← query_page (u64 (u64 (i + j) * page_size))
  query_run rounds i (j + 1) (usable && free)

pub claim_run : ℕ → ℕ → ℕ → Action Pmm (Unit {0})
claim_run zero i j = pure tt
claim_run (suc rounds) i j = do
  mark_page (u64 (u64 (i + j) * page_size)) false
  claim_run rounds i (j + 1)

-- The outer loop, over `i`.
pub search_from : ℕ → ℕ → ℕ → Action Pmm ℕ
search_from zero i num_pages = panic (no_contiguous_pages num_pages)
search_from (suc rounds) i num_pages = do
  usable ← query_run num_pages i 0 true
  if usable
      then (do claim_run num_pages i 0; pure (u64 (i * page_size)))
      else search_from rounds (i + 1) num_pages

pub alloc_pages : ℕ → Action Pmm ℕ
alloc_pages num_pages = do search_from (← gets (λ s. s.num_pages)) 0 num_pages

unfoldable pub alloc_page : Action Pmm ℕ
alloc_page = alloc_pages 1

-- The loop of `pmm_free_pages`.
pub free_from : ℕ → ℕ → ℕ → Action Pmm (Unit {0})
free_from zero paddr i = pure tt
free_from (suc rounds) paddr i = do
  mark_page (u64 (paddr + u64 (i * page_size))) true
  free_from rounds paddr (i + 1)

pub free_pages : ℕ → ℕ → Action Pmm (Unit {0})
free_pages paddr num_pages = free_from num_pages paddr 0

pub free_page : ℕ → Action Pmm (Unit {0})
free_page paddr = free_pages paddr 1

-- `kalloc` and `kfree`, less the warning that each prints.
pub kalloc : ℕ → Action Pmm ℕ
kalloc size = do paddr ← alloc_pages (pages_of size); phy_to_virt paddr

pub kfree : ℕ → ℕ → Action Pmm (Unit {0})
kfree ptr size = do hhdm ← gets (λ s. s.hhdm); free_pages (sub64 ptr hhdm) (pages_of size)

-- The three loops of `pmm_init` over the entries, and the one of `pmm_reclaim`.
pub highest_end : List MemmapEntry → ℕ → ℕ
highest_end [] highest_addr = highest_addr
highest_end (e ∷ entries) highest_addr =
    let entry_end = u64 (e.base + e.len) in
    highest_end entries (if ltb highest_addr entry_end then entry_end else highest_addr)

-- 0 where no entry will do.
pub find_region : List MemmapEntry → ℕ → ℕ
find_region [] bitmap_size = 0
find_region (e ∷ entries) bitmap_size =
    if is_usable e.kind && ltb bitmap_size e.len then e.base else find_region entries bitmap_size

pub mark_entries : (MemmapType → Bool) → List MemmapEntry → Action Pmm (Unit {0})
mark_entries test [] = pure tt
mark_entries test (e ∷ entries) =
    (if test e.kind then mark_range e.base e.len true else pure tt) >> mark_entries test entries

-- `memzero(PMM_DATA.bitmap, bitmap_size)` gives the bitmap its extent.
pub init : List MemmapEntry → ℕ → Action Pmm (Unit {0})
init entries phhdm = do
  modify (λ s. record s { hhdm = phhdm })
  let highest_addr = highest_end entries 0
  modify (λ s. record s { num_pages = pages_of highest_addr })
  num_pages ← gets (λ s. s.num_pages)
  let bitmap_size = round_up num_pages char_bit / char_bit
  let bitmap_phy = find_region entries bitmap_size
  panic_if (bitmap_phy == 0) (no_bitmap_region bitmap_size)
  bitmap_base ← phy_to_virt bitmap_phy
  modify (λ s. record s { bitmap_base = bitmap_base; bitmap = replicate bitmap_size 0 })
  mark_entries is_usable entries
  mark_range bitmap_phy (round_up bitmap_size page_size) false

-- The cases of the switch in `pmm_reclaim`.
abbrev pub is_reclaimable : MemmapType → Bool
is_reclaimable MemmapType.acpi_reclaimable = true
is_reclaimable MemmapType.bootloader_reclaimable = true
is_reclaimable _ = false

pub reclaim : List MemmapEntry → ℕ → ℕ → Action Pmm (Unit {0})
reclaim entries stack_origin stack_size = do
  mark_entries is_reclaimable entries
  let stack_bottom = sub64 stack_origin stack_size
  hhdm ← gets (λ s. s.hhdm)
  mark_range (sub64 stack_bottom hhdm) stack_size false
