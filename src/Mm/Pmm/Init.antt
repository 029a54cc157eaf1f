-- ===== src/Mm/Pmm/Init.antt =====
-- `pmm_init` and `pmm_reclaim`: which pages they leave free.
use umbral_os.Base.{
  ℕ, ◌+◌, ◌-◌, ◌*◌, ◌/◌, ◌%◌, ◌^◌, ◌≤◌, ◌<◌, ◌≡◌, ◌≢◌, ◌∙◌, refl, arith, true, false, ◌&&◌, ◌||◌,
  not, Bool, List, [], ◌∷◌, All, length-replicate, get_or-replicate, replicate, ne→==,
}
use umbral_os.Base.Word.{u64, sub64}
use umbral_os.Base.Bits.{bit-zero}
use umbral_os.Base.Panics.{no_bitmap_region}
use umbral_os.Base.Action.{Outcome, ok, panicked}
use umbral_os.Limine.{MemmapType, MemmapEntry, is_usable}
use umbral_os.Mm.Round.{page_size, char_bit, round_up, pages_of, round_up_lem}
use umbral_os.Mm.Pmm.{Pmm, highest_end, find_region, init, reclaim, is_reclaimable, phy_to_virt}
use mathlib.Core.Path.{subst, sym}
use umbral_os.Mm.Pmm.Frames.{IsValid, is_free}
use umbral_os.Mm.Pmm.Runs.{Marks, in_run, mark_range_whole}
use umbral_os.Mm.Pmm.Entries.{
  covers, WholePages, Freed, mark_entries-Freed, EndsBy, highest_end-EndsBy, find_region_lem,
}

-- The numbers that `pmm_init` computes from the memory map.
abbrev pub page_count : List MemmapEntry → ℕ
page_count es = pages_of (highest_end es 0)

abbrev pub bitmap_bytes : List MemmapEntry → ℕ
bitmap_bytes es = round_up (page_count es) char_bit / char_bit

abbrev pub bitmap_region : List MemmapEntry → ℕ
bitmap_region es = find_region es (bitmap_bytes es)

-- A memory map that the boot loader may give: no entry reaches the last page of the address space,
-- and usable entries consist of whole pages.
pub record IsMemmap (es : List MemmapEntry) : Type 0 where
  pub ends : All (EndsBy (2 ^ 64 - page_size)) es
  pub bases : All (λ e. is_usable e.kind ≡ true → e.base % page_size ≡ 0) es
  pub lens : All (λ e. is_usable e.kind ≡ true → e.len % page_size ≡ 0) es

pages_of_lem :
    (n : ℕ) → n ≤ 2 ^ 64 - page_size → (n ≤ pages_of n * page_size) × (pages_of n < 2 ^ 52)
unfolding pages_of
pages_of_lem n h = ground (arith, round_up_lem n page_size 0 (omega arith) (omega arith))

bytes_lem :
    (n : ℕ)
    → n < 2 ^ 52
    → (n ≤ char_bit * (round_up n char_bit / char_bit)) × (round_up n char_bit / char_bit ≤ 2 ^ 52)
bytes_lem n h = ground (arith, round_up_lem n char_bit (2 ^ 52) (omega arith) (omega arith))

All-WholePages :
    (limit end : ℕ) (es : List MemmapEntry)
    → limit ≤ end
    → All (EndsBy limit) es
    → All (λ e. is_usable e.kind ≡ true → e.base % page_size ≡ 0) es
    → All (λ e. is_usable e.kind ≡ true → e.len % page_size ≡ 0) es
    → All (WholePages is_usable end) es
All-WholePages limit end [] l a b c = tt
All-WholePages limit end (e ∷ es) l (a, a') (b, b') (c, c') = (
  record { base_aligned = b; len_aligned = c; below = λ _. omega arith },
  All-WholePages limit end es l a' b' c',
)

-- The state of the allocator before any page is marked.
abbrev cleared : List MemmapEntry → ℕ → Pmm
cleared es phhdm = record {
  hhdm = phhdm;
  num_pages = page_count es;
  bitmap_base = u64 (phhdm + bitmap_region es);
  bitmap = replicate (bitmap_bytes es) 0;
}

cleared-IsValid : (es : List MemmapEntry) (phhdm : ℕ) → IsMemmap es → IsValid (cleared es phhdm)
cleared-IsValid es phhdm h =
    let (_, bound) =
      highest_end-EndsBy (2 ^ 64 - page_size) es 0 (omega arith) (omega arith) h.ends in
    let pages = pages_of_lem (highest_end es 0) bound in
    record {
      addressable = pages.1;
      covered =
          omega (
            arith,
            bytes_lem (page_count es) pages.1,
            length-replicate {A = ℕ} (bitmap_bytes es) 0,
          );
    }

is_free-cleared : (es : List MemmapEntry) (phhdm q : ℕ) → is_free (cleared es phhdm) q ≡ false
is_free-cleared es phhdm q =
    rw (get_or-replicate {A = ℕ} (bitmap_bytes es) (q / char_bit) 0, bit-zero (q % char_bit)) refl

cleared-WholePages :
    (es : List MemmapEntry) (phhdm : ℕ)
    → IsMemmap es
    → All (WholePages is_usable (page_count es * page_size)) es
cleared-WholePages es phhdm h =
    let (ends, bound) =
      highest_end-EndsBy (2 ^ 64 - page_size) es 0 (omega arith) (omega arith) h.ends in
    All-WholePages (highest_end es 0) (page_count es * page_size) es
      (pages_of_lem (highest_end es 0) bound).0 ends h.bases h.lens

bytes_fit : (es : List MemmapEntry) → IsMemmap es → bitmap_bytes es ≤ 2 ^ 52
bytes_fit es h =
    let (_, bound) =
      highest_end-EndsBy (2 ^ 64 - page_size) es 0 (omega arith) (omega arith) h.ends in
    (bytes_lem (page_count es) (pages_of_lem (highest_end es 0) bound).1).1

init_frames :
    (es : List MemmapEntry) (phhdm : ℕ) {t u : Pmm}
    → Freed (cleared es phhdm) t is_usable es
    → Marks t u
        (bitmap_region es / page_size)
        (round_up (bitmap_bytes es) page_size / page_size)
        false
    → (q : ℕ)
    → is_free u q ≡ (
        covers is_usable es q
        && not (in_run (bitmap_region es / page_size) (pages_of (bitmap_bytes es)) q))
unfolding pages_of
init_frames es phhdm f m q = ground (arith, f.frames q, m.frames q, is_free-cleared es phhdm q)

-- From any state, on such a memory map, where a usable entry at an address other than 0 has room for
-- the bitmap, `pmm_init` returns, the allocator has the bit count and the pointers that the map and the offset determine, and exactly the pages of usable
-- entries outside the bitmap's own pages are free.
pub init_frees :
    (es : List MemmapEntry) (phhdm : ℕ) (s : Pmm)
    → IsMemmap es
    → bitmap_region es ≢ 0
    → (t : Pmm) × (init es phhdm s ≡ ok tt t)
      × IsValid t
      × (t.num_pages ≡ page_count es)
      × (t.hhdm ≡ phhdm)
      × (t.bitmap_base ≡ u64 (phhdm + bitmap_region es))
      × ((q : ℕ)
          → is_free t q ≡ (
              covers is_usable es q
              && not (in_run (bitmap_region es / page_size) (pages_of (bitmap_bytes es)) q)))
unfolding init phy_to_virt
init_frees es phhdm s h room =
    let (t, returns, f) =
      mark_entries-Freed is_usable es (cleared es phhdm) (cleared-IsValid es phhdm h)
        (cleared-WholePages es phhdm h) in
    let region =
      find_region_lem (page_count es * page_size) (bitmap_bytes es) es
        (omega (arith, bytes_fit es h)) (cleared-WholePages es phhdm h) room in
    let (u, returns', m) =
      mark_range_whole (bitmap_region es) (round_up (bitmap_bytes es) page_size) false t f.valid
        region.0
        (round_up_lem (bitmap_bytes es) page_size 0 (omega arith) (omega (arith, bytes_fit es h))).0
        (omega (arith, f.same_count, region)) in
    (
      u,
      rw (ne→== (bitmap_region es) 0 room, returns, returns'),
      m.valid,
      m.same_count ∙ f.same_count,
      m.same_hhdm ∙ f.same_hhdm,
      m.same_base ∙ f.same_base,
      init_frames es phhdm f m,
    )

-- Without a usable entry that is longer than the bitmap `pmm_init` panics.
pub init_no_region :
    (es : List MemmapEntry) (phhdm : ℕ) (s : Pmm)
    → bitmap_region es ≡ 0
    → init es phhdm s
      ≡ panicked
          (no_bitmap_region (bitmap_bytes es))
          (record s { hhdm = phhdm; num_pages = page_count es })
unfolding init
init_no_region es phhdm s none = rw none

-- What may be freed once the kernel has started: the loader's memory and the ACPI tables' copies.
-- Everything else stays as it is, the memory that ACPI keeps over a sleep included.
abbrev pub free_after_start : MemmapType → Bool
free_after_start MemmapType.usable = false
free_after_start MemmapType.reserved = false
free_after_start MemmapType.acpi_reclaimable = true
free_after_start MemmapType.acpi_nvs = false
free_after_start MemmapType.bad_memory = false
free_after_start MemmapType.bootloader_reclaimable = true
free_after_start MemmapType.executable_and_modules = false
free_after_start MemmapType.framebuffer = false
free_after_start MemmapType.reserved_mapped = false
free_after_start (MemmapType.other n) = false

is_reclaimable-same : (k : MemmapType) → is_reclaimable k ≡ free_after_start k
is_reclaimable-same MemmapType.usable = refl
is_reclaimable-same MemmapType.reserved = refl
is_reclaimable-same MemmapType.acpi_reclaimable = refl
is_reclaimable-same MemmapType.acpi_nvs = refl
is_reclaimable-same MemmapType.bad_memory = refl
is_reclaimable-same MemmapType.bootloader_reclaimable = refl
is_reclaimable-same MemmapType.executable_and_modules = refl
is_reclaimable-same MemmapType.framebuffer = refl
is_reclaimable-same MemmapType.reserved_mapped = refl
is_reclaimable-same (MemmapType.other n) = refl

-- How `pmm_reclaim` leaves the pages, by the kinds of entries that it frees.
abbrev Reclaimed :
    (test : MemmapType → Bool) (es : List MemmapEntry) (bottom size : ℕ) (s : Pmm)
    → Outcome Pmm (Unit {0})
    → Type 0
Reclaimed test es bottom size s r =
    (t : Pmm) × (r ≡ ok tt t)
    × IsValid t
    × ((q : ℕ)
        → is_free t q ≡ (
            (covers test es q || is_free s q)
            && not (in_run (bottom / page_size) (size / page_size) q)))

reclaim-Reclaimed :
    (es : List MemmapEntry) (stack_origin stack_size : ℕ) (s : Pmm)
    → IsValid s
    → All (WholePages is_reclaimable (s.num_pages * page_size)) es
    → let bottom = sub64 (sub64 stack_origin stack_size) s.hhdm in
      bottom % page_size ≡ 0
      → stack_size % page_size ≡ 0
      → bottom + stack_size ≤ s.num_pages * page_size
      → Reclaimed is_reclaimable es bottom stack_size s (reclaim es stack_origin stack_size s)
unfolding reclaim
reclaim-Reclaimed es stack_origin stack_size s v h b l inside =
    let (t, returns, f) = mark_entries-Freed is_reclaimable es s v h in
    let (u, returns', m) =
      mark_range_whole (sub64 (sub64 stack_origin stack_size) s.hhdm) stack_size false t f.valid b l
        (omega (arith, f.same_count, inside)) in
    (u, rw (returns, f.same_hhdm, returns'), m.valid, λ q. ground (arith, f.frames q, m.frames q))

-- `pmm_reclaim`, where the entries that it frees consist of whole pages inside the bitmap and the stack's
-- pages lie inside the bitmap: the pages of reclaimable entries become free, those of the stack do not.
pub reclaim_frees :
    (es : List MemmapEntry) (stack_origin stack_size : ℕ) (s : Pmm)
    → IsValid s
    → All (WholePages free_after_start (s.num_pages * page_size)) es
    → let bottom = sub64 (sub64 stack_origin stack_size) s.hhdm in
      bottom % page_size ≡ 0
      → stack_size % page_size ≡ 0
      → bottom + stack_size ≤ s.num_pages * page_size
      → (t : Pmm) × (reclaim es stack_origin stack_size s ≡ ok tt t)
        × IsValid t
        × ((q : ℕ)
            → is_free t q ≡ (
                (covers free_after_start es q || is_free s q)
                && not (in_run (bottom / page_size) (stack_size / page_size) q)))
reclaim_frees es stack_origin stack_size s v h b l inside =
    let same : is_reclaimable ≡ free_after_start = λ i k. is_reclaimable-same k i in
    subst
      (λ test.
        Reclaimed test es (sub64 (sub64 stack_origin stack_size) s.hhdm) stack_size s
          (reclaim es stack_origin stack_size s))
      same
      (reclaim-Reclaimed es stack_origin stack_size s v
        (subst (λ test. All (WholePages test (s.num_pages * page_size)) es) (sym same) h) b l
        inside)
