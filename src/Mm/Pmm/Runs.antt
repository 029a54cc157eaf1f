-- ===== src/Mm/Pmm/Runs.antt =====
-- The loops over a run of pages: what they leave free, and where they panic.
use native.Mathlib.Nat.{add_assoc, add-zero}
use native.Mathlib.Decide.{dec_lt}
use mathlib.Core.Bool.{and_assoc}
use umbral_os.Base.{
  ℕ, zero, suc, ◌+◌, ◌*◌, ◌/◌, ◌%◌, ◌^◌, ◌≤◌, ◌<◌, ◌≡◌, refl, arith, Bool, true, false, ◌&&◌, ltb,
  leb, if◌then◌else◌,
}
use umbral_os.Base.Word.{u64}
use umbral_os.Base.Panics.{page_out_of_range}
use umbral_os.Base.Action.{Action, ok, panicked, pure, ◌>>◌}
use umbral_os.Mm.Round.{page_size}
use umbral_os.Mm.Pmm.{
  Pmm, addr_to_bitmap_location, mark_page, query_page, mark_from, mark_range, query_run, claim_run,
  free_from, free_pages,
}
use umbral_os.Mm.Pmm.Frames.{
  IsValid, is_free, marked, query_page_lem, mark_page_lem, marked-IsValid, is_free-marked,
}

-- `first <= q && q < first + count`
abbrev pub in_run : ℕ → ℕ → ℕ → Bool
in_run first count q = leb first q && ltb q (first + count)

-- Every page of the run is free.
abbrev pub run_free : (ℕ → Bool) → ℕ → ℕ → Bool
run_free free first zero = true
run_free free first (suc count) = free first && run_free free (first + 1) count

-- From `s` to `t` the pages of the run have become `usable` or not, and nothing else has changed.
pub record Marks (s t : Pmm) (first count : ℕ) (usable : Bool) : Type 0 where
  pub valid : IsValid t
  pub same_count : t.num_pages ≡ s.num_pages
  pub same_hhdm : t.hhdm ≡ s.hhdm
  pub same_base : t.bitmap_base ≡ s.bitmap_base
  pub frames : (q : ℕ) → is_free t q ≡ (if in_run first count q then usable else is_free s q)

-- What the three marking loops do: one call for each page, in order.
mark_frames : ℕ → ℕ → Bool → Action Pmm (Unit {0})
mark_frames zero p usable = pure tt
mark_frames (suc count) p usable = do
  mark_page (p * page_size) usable
  mark_frames count (p + 1) usable

mark_frames-Marks :
    (count first : ℕ) (usable : Bool) (s : Pmm)
    → IsValid s
    → first + count ≤ s.num_pages
    → (t : Pmm) × (mark_frames count first usable s ≡ ok tt t) × Marks s t first count usable
unfolding mark_frames
mark_frames-Marks zero first usable s v h = (
  s,
  refl,
  record {
    valid = v;
    same_count = refl;
    same_hhdm = refl;
    same_base = refl;
    frames = λ q. ground arith;
  },
)
mark_frames-Marks (suc count) first usable s v h =
    let (t, returns, m) =
      mark_frames-Marks count (first + 1) usable (marked s first usable)
        (marked-IsValid s first v (omega arith) usable) (omega arith) in
    (
      t,
      rw (mark_page_lem s first v (omega arith) usable) returns,
      record {
        valid = m.valid;
        same_count = m.same_count;
        same_hhdm = m.same_hhdm;
        same_base = m.same_base;
        frames = λ q. ground (arith, m.frames q, is_free-marked s first v (omega arith) usable q);
      },
    )

-- Each of the three loops reaches page `p + k` in its round `k`: no address wraps.
mark_from-eq :
    (rounds base i p : ℕ) (usable : Bool)
    → base + i ≡ p * page_size
    → p + rounds ≤ 2 ^ 52
    → mark_from rounds base i usable ≡ mark_frames rounds p usable
unfolding mark_from mark_frames
mark_from-eq zero base i p usable e h = refl
mark_from-eq (suc rounds) base i p usable e h =
    let a : u64 (base + i) ≡ p * page_size = omega arith in
    rw (a, mark_from-eq rounds base (i + page_size) (p + 1) usable (omega arith) (omega arith))

claim_run-eq :
    (rounds i j : ℕ)
    → i + j + rounds ≤ 2 ^ 52
    → claim_run rounds i j ≡ mark_frames rounds (i + j) false
unfolding claim_run mark_frames
claim_run-eq zero i j h = refl
claim_run-eq (suc rounds) i j h =
    let a : u64 (u64 (i + j) * page_size) ≡ (i + j) * page_size = omega arith in
    rw (a, claim_run-eq rounds i (j + 1) (omega arith), ← add_assoc)

free_from-eq :
    (rounds first i : ℕ)
    → first + i + rounds ≤ 2 ^ 52
    → free_from rounds (first * page_size) i ≡ mark_frames rounds (first + i) true
unfolding free_from mark_frames
free_from-eq zero first i h = refl
free_from-eq (suc rounds) first i h =
    let a : u64 (first * page_size + u64 (i * page_size)) ≡ (first + i) * page_size = omega arith in
    rw (a, free_from-eq rounds first (i + 1) (omega arith), ← add_assoc)

module _ (s : Pmm) (v : IsValid s) (first count : ℕ) (h : first + count ≤ s.num_pages) where
  pub mark_range-Marks :
      (usable : Bool)
      → (t : Pmm) × (mark_range (first * page_size) (count * page_size) usable s ≡ ok tt t)
        × Marks s t first count usable
  unfolding mark_range
  mark_range-Marks usable =
      let (t, returns, m) = mark_frames-Marks count first usable s v h in
      let rounds : count * page_size / page_size ≡ count = omega arith in
      (
        t,
        rw
            (
              rounds,
              mark_from-eq count (first * page_size) 0 first usable (omega arith)
                  (omega (arith, v.addressable)),
            )
            (ground (arith, returns)),
        m,
      )

  pub free_pages-Marks :
      (t : Pmm) × (free_pages (first * page_size) count s ≡ ok tt t) × Marks s t first count true
  unfolding free_pages
  free_pages-Marks =
      rw (free_from-eq count first 0 (omega (arith, v.addressable)), add-zero)
        (mark_frames-Marks count first true s v h)

  pub claim_run-Marks :
      (t : Pmm) × (claim_run count first 0 s ≡ ok tt t) × Marks s t first count false
  claim_run-Marks =
      rw (claim_run-eq count first 0 (omega (arith, v.addressable)), add-zero)
        (mark_frames-Marks count first false s v h)

-- A range of whole pages below the last one is marked, and nothing else.
pub mark_range_whole :
    (base len : ℕ) (usable : Bool) (s : Pmm)
    → IsValid s
    → base % page_size ≡ 0
    → len % page_size ≡ 0
    → base + len ≤ s.num_pages * page_size
    → (t : Pmm) × (mark_range base len usable s ≡ ok tt t)
      × Marks s t (base / page_size) (len / page_size) usable
mark_range_whole base len usable s v b l h =
    let whole_base : base / page_size * page_size ≡ base = omega (arith, b) in
    let whole_len : len / page_size * page_size ≡ len = omega (arith, l) in
    rw (whole_base, whole_len) at
      (mark_range-Marks s v (base / page_size) (len / page_size) (omega arith) usable)

-- The query loop inside the bitmap.
pub query_run_inside :
    (rounds i j : ℕ) (usable : Bool) (s : Pmm)
    → IsValid s
    → i + j + rounds ≤ s.num_pages
    → query_run rounds i j usable s ≡ ok (usable && run_free (is_free s) (i + j) rounds) s
unfolding query_run
query_run_inside zero i j usable s v h = ground arith
query_run_inside (suc rounds) i j usable s v h =
    let a : u64 (u64 (i + j) * page_size) ≡ (i + j) * page_size = omega (arith, v.addressable) in
    rw
      (
        a,
        query_page_lem s (i + j) v (omega arith),
        query_run_inside rounds i (j + 1) (usable && is_free s (i + j)) s v (omega arith),
        and_assoc,
        ← add_assoc,
      )
      refl

query_page_outside :
    (s : Pmm)
    → query_page (s.num_pages * page_size) s
      ≡ panicked (page_out_of_range (s.num_pages * page_size)) s
unfolding query_page addr_to_bitmap_location
query_page_outside s = ground arith

-- A run past the last page: the query for the page behind it panics.
pub query_run_outside :
    (rounds i j : ℕ) (usable : Bool) (s : Pmm)
    → IsValid s
    → i + j ≤ s.num_pages
    → s.num_pages < i + j + rounds
    → query_run rounds i j usable s ≡ panicked (page_out_of_range (s.num_pages * page_size)) s
unfolding query_run
query_run_outside zero i j usable s v below h = absurd (omega arith)
query_run_outside (suc rounds) i j usable s v below h =
    let a : u64 (u64 (i + j) * page_size) ≡ (i + j) * page_size = omega (arith, v.addressable) in
    elim (dec_lt (i + j) s.num_pages) [
      | yes lt ↦
          rw (a, query_page_lem s (i + j) v lt)
            (query_run_outside rounds i (j + 1) (usable && is_free s (i + j)) s v (omega arith)
              (omega arith))
      | no ge ↦ let e : i + j ≡ s.num_pages = omega arith in rw (a, e, query_page_outside s)
    ]
