-- ===== src/Mm/Vmm/Unaligned.antt =====
-- `vmm_map_unaligned`: a range of bytes that need not begin or end with a page.
use umbral_os.Base.{ℕ, ◌+◌, ◌-◌, ◌/◌, ◌%◌, ◌^◌, ◌<◌, ◌≡◌, ◌≢◌, false, some}
use umbral_os.Base.Action.{Outcome, ok, panicked}
use umbral_os.Base.Panics.{no_contiguous_pages}
use umbral_os.Mm.Round.{page_size}
use umbral_os.Mm.Pmm.Frames.{is_free}
use umbral_os.Mm.Vmm.{Vmm}
use umbral_os.Mm.Vmm.Entry.{read_leaf}
use umbral_os.Mm.Vmm.Walk.{translate}
use umbral_os.Mm.Vmm.Map.{HasTree, page_of}
use umbral_os.Mm.Vmm.Pages.{entry_for}

-- How mapping the `size` bytes from `where_` on to those from `what` on may end.
pub data MappedBytes (s : Vmm) (what where_ size flags : ℕ) : Outcome Vmm (Unit {0}) → Type 0 where
  mapped_bytes :
      {s' : Vmm}
      → HasTree s'
      → ((x : ℕ)
          → x < size
          → (w : ℕ) × (translate s' (where_ + x) ≡ some w)
            × (read_leaf w ≡ entry_for ((what + x) / 2 ^ 12) flags))
      → ((u : ℕ)
          → ((x : ℕ) → x < size → page_of u ≢ page_of (where_ + x))
          → translate s' u ≡ translate s u)
      → MappedBytes s what where_ size flags (ok tt s')
  no_page_for_bytes :
      {s' : Vmm}
      → HasTree s'
      → ((q : ℕ) → q < s'.pmm.num_pages → is_free s'.pmm q ≡ false)
      → MappedBytes s what where_ size flags (panicked (no_contiguous_pages 1) s')

-- The pages that hold the bytes, the first one's offset included.
abbrev pages : (what size : ℕ) → ℕ
pages what size = (what % page_size + size + (page_size - 1)) / page_size
