-- ===== src/Mm/Pmm/Tests.antt =====
-- The page allocator on a bitmap of sixteen pages, and on a memory map of three entries.
use umbral_os.Base.{
  ℕ, ◌+◌, ◌*◌, ◌/◌, ◌^◌, ◌≤◌, ◌≡◌, ◌⊎◌, refl, arith, ◌&&◌, ◌||◌, not, List, [], ◌∷◌,
}
use umbral_os.Base.Action.{ok, panicked}
use umbral_os.Base.Panics.{page_out_of_range}
use umbral_os.Base.Word.{u64}
use umbral_os.Limine.{MemmapEntry, MemmapType, is_usable}
use umbral_os.Mm.Round.{page_size, pages_of}
use umbral_os.Mm.Pmm.{
  Pmm, addr_to_bitmap_location, mark_page, query_page, query_run, claim_run, search_from,
  alloc_pages, free_pages, init, reclaim, highest_end, find_region,
}
use umbral_os.Mm.Pmm.Frames.{IsValid, is_free}
use umbral_os.Mm.Pmm.Runs.{in_run}
use umbral_os.Mm.Pmm.Alloc.{Searched, alloc_pages-Searched}
use umbral_os.Mm.Pmm.Laws.{
  run_free-get, alloc_pages_total, alloc_pages_disjoint, free_pages-alloc_pages,
}
use umbral_os.Mm.Pmm.Entries.{covers}
use umbral_os.Mm.Pmm.Init.{
  free_after_start, IsMemmap, page_count, bitmap_bytes, bitmap_region, init_frees, reclaim_frees,
}

-- Pages 1, 4, 5 and 8 to 11 are free.
abbrev sixteen : Pmm
sixteen = record {
  hhdm = 2 ^ 47;
  num_pages = 16;
  bitmap_base = 2 ^ 47;
  bitmap = 0b00110010 ∷ 0b00001111 ∷ [];
}

abbrev after_two : Pmm
after_two = record sixteen { bitmap = 0b00000010 ∷ 0b00001111 ∷ [] }

abbrev after_four : Pmm
after_four = record sixteen { bitmap = 0b00000010 ∷ 0 ∷ [] }

sixteen-IsValid : IsValid sixteen
sixteen-IsValid = omega arith

alloc_two : alloc_pages 2 sixteen ≡ ok (4 * page_size) after_two
unfolding alloc_pages search_from query_run claim_run query_page mark_page addr_to_bitmap_location
alloc_two = refl

alloc_four : alloc_pages 4 after_two ≡ ok (8 * page_size) after_four
unfolding alloc_pages search_from query_run claim_run query_page mark_page addr_to_bitmap_location
alloc_four = refl

-- No five pages in a row are free: the search runs into the end of the bitmap.
alloc_five : alloc_pages 5 sixteen ≡ panicked (page_out_of_range (16 * page_size)) sixteen
unfolding alloc_pages search_from query_run claim_run query_page mark_page addr_to_bitmap_location
alloc_five = refl

alloc_pages-Searched_example : Searched sixteen 2 0 (alloc_pages 2 sixteen)
alloc_pages-Searched_example = alloc_pages-Searched 2 sixteen sixteen-IsValid

alloc_pages_total_example :
    (a : ℕ) × (t : Pmm) × (alloc_pages 4 sixteen ≡ ok a t) × (a ≤ 8 * page_size)
alloc_pages_total_example =
    alloc_pages_total 4 8 sixteen sixteen-IsValid (omega arith) (omega arith)
      (λ q. run_free-get (is_free sixteen) 8 4 q refl)

alloc_pages_disjoint_example :
    (4 * page_size + 2 * page_size ≤ 8 * page_size)
    ⊎ (8 * page_size + 4 * page_size ≤ 4 * page_size)
alloc_pages_disjoint_example =
    alloc_pages_disjoint 2 4 (4 * page_size) (8 * page_size) sixteen after_two after_four
      sixteen-IsValid (omega arith) (omega arith) alloc_two alloc_four

free_pages-alloc_pages_example :
    (u : Pmm) × (free_pages (4 * page_size) 2 after_two ≡ ok tt u)
    × IsValid u
    × ((q : ℕ) → is_free u q ≡ is_free sixteen q)
free_pages-alloc_pages_example =
    free_pages-alloc_pages 2 (4 * page_size) sixteen after_two sixteen-IsValid alloc_two

abbrev memmap : List MemmapEntry
memmap =
    record { base = 0; len = 0x9fc00; kind = MemmapType.reserved }
    ∷ record { base = 0x100000; len = 0x40000; kind = MemmapType.usable }
    ∷ record { base = 0x140000; len = 0x10000; kind = MemmapType.bootloader_reclaimable }
    ∷ []

memmap-IsMemmap : IsMemmap memmap
memmap-IsMemmap = record {
  ends = omega arith;
  bases = (λ _. refl, (λ _. refl, (λ _. refl, tt)));
  lens = (λ h. cc, (λ _. refl, (λ _. refl, tt)));
}

memmap-region : bitmap_region memmap ≡ 0x100000
unfolding highest_end find_region pages_of
memmap-region = refl

init_frees_example :
    (t : Pmm) × (init memmap (2 ^ 47) sixteen ≡ ok tt t)
    × IsValid t
    × (t.num_pages ≡ page_count memmap)
    × (t.hhdm ≡ 2 ^ 47)
    × (t.bitmap_base ≡ u64 (2 ^ 47 + bitmap_region memmap))
    × ((q : ℕ)
        → is_free t q ≡ (
            covers is_usable memmap q
            && not (in_run (bitmap_region memmap / page_size) (pages_of (bitmap_bytes memmap)) q)))
init_frees_example =
    init_frees memmap (2 ^ 47) sixteen memmap-IsMemmap (rw memmap-region (omega arith))

-- Pages 2 and 3 are reclaimed, and the stack takes page 4.
abbrev reclaimable : List MemmapEntry
reclaimable = record { base = 0x2000; len = 0x2000; kind = MemmapType.acpi_reclaimable } ∷ []

reclaim_frees_example :
    (t : Pmm) × (reclaim reclaimable (2 ^ 47 + 0x5000) 0x1000 sixteen ≡ ok tt t)
    × IsValid t
    × ((q : ℕ)
        → is_free t q ≡ (
            (covers free_after_start reclaimable q || is_free sixteen q)
            && not (in_run (0x4000 / page_size) (0x1000 / page_size) q)))
reclaim_frees_example =
    reclaim_frees reclaimable (2 ^ 47 + 0x5000) 0x1000 sixteen sixteen-IsValid
      (record { base_aligned = λ _. refl; len_aligned = λ _. refl; below = λ _. omega arith }, tt)
      refl refl (omega arith)
