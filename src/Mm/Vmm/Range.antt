-- ===== src/Mm/Vmm/Range.antt =====
-- `vmm_map`: a range of pages, one after the other.
use mathlib.Core.Path.{subst}
use umbral_os.Base.{
  ℕ, zero, suc, ◌+◌, ◌*◌, ◌/◌, ◌%◌, ◌^◌, ◌≤◌, ◌<◌, ◌≡◌, ◌≢◌, refl, sym, ap, ◌∙◌, arith, false, ◌!=◌,
  some,
}
use umbral_os.Base.Word.{u64}
use umbral_os.Base.Action.{Action, Outcome, ok, panicked, bind_outcome}
use umbral_os.Base.Panics.{no_contiguous_pages}
use umbral_os.Mm.Round.{page_size}
use umbral_os.Mm.Pmm.Frames.{is_free}
use umbral_os.Mm.Vmm.{Vmm, map_from, vmm_map}
use umbral_os.Mm.Vmm.Entry.{read_leaf}
use umbral_os.Mm.Vmm.Walk.{translate}
use umbral_os.Mm.Vmm.Map.{HasTree, page_of, Mapped, mapped_page, no_page_left}
use umbral_os.Mm.Vmm.Pages.{IsMappable, entry_for, map_page-Mapped}

-- How mapping `n` pages from `start` on may end, page `j` to frame
-- `frame + j` as `flags` ask.
pub data MappedRange (s : Vmm) (start n frame flags : ℕ) : Outcome Vmm (Unit {0}) → Type 0 where
  mapped_range :
      {s' : Vmm}
      → HasTree s'
      → ((j : ℕ)
          → j < n
          → (w : ℕ) × (translate s' (start + j * page_size) ≡ some w)
            × (read_leaf w ≡ entry_for (frame + j) flags))
      → ((u : ℕ)
          → ((j : ℕ) → j < n → page_of u ≢ page_of (start + j * page_size))
          → translate s' u ≡ translate s u)
      → MappedRange s start n frame flags (ok tt s')
  no_page_for_range :
      {s' : Vmm}
      → HasTree s'
      → ((q : ℕ) → q < s'.pmm.num_pages → is_free s'.pmm q ≡ false)
      → MappedRange s start n frame flags (panicked (no_contiguous_pages 1) s')

frame_first : (frame : ℕ) → frame ≡ frame + 0
frame_first frame = omega arith

frame_next : (frame j : ℕ) → frame + 1 + j ≡ frame + suc j
frame_next frame j = omega arith

first_page : (start : ℕ) → start ≡ start + 0 * page_size
first_page start = omega arith

next_page : (start j : ℕ) → start + page_size + j * page_size ≡ start + suc j * page_size
next_page start j = omega arith

all_pages :
    (P : ℕ → Type 0) (n : ℕ) → P 0 → ((j : ℕ) → j < n → P (suc j)) → (j : ℕ) → j < suc n → P j
all_pages P n first others zero l = first
all_pages P n first others (suc j) l = others j (omega arith)

-- The first page, then the others.
cons_page :
    {s s' : Vmm} {start n frame flags : ℕ} {r : Outcome Vmm (Unit {0})}
    → start + suc n * page_size ≤ 2 ^ 64
    → suc n * page_size ≤ 2 ^ 48
    → (w : ℕ) × (translate s' start ≡ some w) × (read_leaf w ≡ entry_for frame flags)
    → ((u : ℕ) → page_of u ≢ page_of start → translate s' u ≡ translate s u)
    → MappedRange s' (start + page_size) n (frame + 1) flags r
    → MappedRange s start (suc n) frame flags r
cons_page {s} {s'} {start} {n} {frame} {flags} fits small (w, first, reads) others
      (mapped_range {s' = s''} t pages keeps) =
    let kept : translate s'' start ≡ translate s' start =
      keeps start (λ j l e. absurd (omega arith)) in
    mapped_range t
      (all_pages
        (λ j.
          (x : ℕ) × (translate s'' (start + j * page_size) ≡ some x)
          × (read_leaf x ≡ entry_for (frame + j) flags))
        n
        (
          w,
          ap (translate s'') (sym (first_page start)) ∙ kept ∙ first,
          reads ∙ ap (λ f. entry_for f flags) (frame_first frame),
        )
        (λ j l.
          let (x, at, reads') = pages j l in
          (
            x,
            ap (translate s'') (sym (next_page start j)) ∙ at,
            reads' ∙ ap (λ f. entry_for f flags) (frame_next frame j),
          )))
      (λ u other.
        keeps u (λ j l e. other (suc j) (omega arith) (e ∙ ap page_of (next_page start j)))
        ∙ others u (λ e. other 0 (omega arith) (e ∙ ap page_of (first_page start))))
cons_page fits small first others (no_page_for_range t none_free) = no_page_for_range t none_free

map_round :
    {s : Vmm} {start n frame flags : ℕ} {r : Outcome Vmm (Unit {0})}
    → start + suc n * page_size ≤ 2 ^ 64
    → suc n * page_size ≤ 2 ^ 48
    → (rest : Action Vmm (Unit {0}))
    → ((s' : Vmm) → HasTree s' → MappedRange s' (start + page_size) n (frame + 1) flags (rest s'))
    → Mapped s start (entry_for frame flags) r
    → MappedRange s start (suc n) frame flags (bind_outcome r (λ _. rest))
map_round fits small rest later (mapped_page {s'} t same first others) =
    cons_page fits small first others (later s' t)
map_round fits small rest later (no_page_left t none_free others) = no_page_for_range t none_free

no_wrap :
    (a b rounds : ℕ)
    → a + suc rounds * page_size ≤ 2 ^ 52
    → b + suc rounds * page_size ≤ 2 ^ 64
    → 0 < b
    → (u64 a ≡ a) × (u64 b ≡ b)
no_wrap a b rounds x y h = (omega arith, omega arith)

next-IsMappable :
    (what where_ i flags : ℕ)
    → IsMappable (what + i) (where_ + i) flags
    → IsMappable (what + (i + page_size)) (where_ + (i + page_size)) flags
next-IsMappable what where_ i flags m = record {
  what_aligned = omega (arith, m.what_aligned);
  where_aligned = omega (arith, m.where_aligned);
  not_null = omega arith;
  proper = m.proper;
}

map_from-MappedRange :
    (rounds what where_ i flags : ℕ) (s : Vmm)
    → HasTree s
    → what + i + rounds * page_size ≤ 2 ^ 52
    → where_ + i + rounds * page_size ≤ 2 ^ 64
    → rounds * page_size ≤ 2 ^ 48
    → (0 < rounds → IsMappable (what + i) (where_ + i) flags)
    → MappedRange s
        (where_ + i)
        rounds
        ((what + i) / 2 ^ 12)
        flags
        (map_from rounds what where_ i flags s)
unfolding map_from
map_from-MappedRange zero what where_ i flags s t a b c m =
    mapped_range t (λ j l. absurd (omega arith)) (λ u other. refl)
map_from-MappedRange (suc rounds) what where_ i flags s t a b c m =
    let (w, v) = no_wrap (what + i) (where_ + i) rounds a b (m (omega arith)).not_null in
    let shift_frame : (what + (i + page_size)) / 2 ^ 12 ≡ (what + i) / 2 ^ 12 + 1 = omega arith in
    let shift_where : where_ + (i + page_size) ≡ where_ + i + page_size = omega arith in
    rw (w, v)
      (map_round b c (map_from rounds what where_ (i + page_size) flags)
        (λ s' t'.
          rw (← shift_where, ← shift_frame)
            (map_from-MappedRange rounds what where_ (i + page_size) flags s' t' (omega arith)
              (omega arith) (omega arith)
              (λ h. next-IsMappable what where_ i flags (m (omega arith)))))
        (map_page-Mapped (what + i) (where_ + i) flags s t (omega arith) (m (omega arith))))

-- From a tree of page tables and with arguments that it accepts, `vmm_map` maps every page of the
-- range: the walk for page `j` of it gives an entry with the frame number that lies `j` after the
-- first, and the rights and caching asked for; the walks for all pages outside the range are as
-- before. Or it runs out of free pages for tables and panics.
pub vmm_map-MappedRange :
    (what where_ n flags : ℕ) (s : Vmm)
    → HasTree s
    → IsMappable what where_ flags
    → what + n * page_size ≤ 2 ^ 52
    → where_ + n * page_size ≤ 2 ^ 64
    → n * page_size ≤ 2 ^ 48
    → MappedRange s where_ n (what / 2 ^ 12) flags (vmm_map what where_ (n * page_size) flags s)
unfolding vmm_map
vmm_map-MappedRange what where_ n flags s t m a b c =
    let x : (what % page_size != 0) ≡ false = ground (arith, m.what_aligned) in
    let y : (where_ % page_size != 0) ≡ false = ground (arith, m.where_aligned) in
    let z : (n * page_size % page_size != 0) ≡ false = ground arith in
    let r : n * page_size / page_size ≡ n = omega arith in
    let w : what + 0 ≡ what = omega arith in
    let v : where_ + 0 ≡ where_ = omega arith in
    let result =
      map_from-MappedRange n what where_ 0 flags s t (rw w a) (rw v b) c (λ h. rw (w, v) m) in
    let run = map_from n what where_ 0 flags s in
    rw (x, y, z, r)
      (subst (λ start. MappedRange s start n (what / 2 ^ 12) flags run) v
        (subst (λ base. MappedRange s (where_ + 0) n (base / 2 ^ 12) flags run) w result))
