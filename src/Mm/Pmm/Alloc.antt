-- ===== src/Mm/Pmm/Alloc.antt =====
-- `pmm_alloc_pages` hands out the first run of free pages, and what follows from that.
use native.Mathlib.Nat.{add-zero}
use native.Mathlib.Decide.{dec_le, ℕ_discrete}
use umbral_os.Base.{
  ℕ, zero, suc, ◌+◌, ◌*◌, ◌≤◌, ◌<◌, ◌≡◌, inl, inr, arith, true, false, ◌&&◌, ltb, if◌then◌else◌,
  Bool-cases,
}
use umbral_os.Base.Word.{u64}
use umbral_os.Base.Panics.{Panic, page_out_of_range, no_contiguous_pages}
use umbral_os.Base.Action.{Action, Outcome, ok, panicked, pure, ◌>>=◌, ◌>>◌, bind_outcome}
use umbral_os.Mm.Round.{page_size}
use umbral_os.Mm.Pmm.{Pmm, query_run, claim_run, search_from, alloc_pages}
use umbral_os.Mm.Pmm.Frames.{IsValid, is_free}
use umbral_os.Mm.Pmm.Runs.{Marks, run_free, query_run_inside, query_run_outside, claim_run-Marks}

-- The panic of a search that finds no run: the query of the page behind the last one stops a
-- search for two pages or more before its own message.
abbrev pub search_panic : Pmm → ℕ → Panic
search_panic s n =
    if ltb 1 n && ltb 0 s.num_pages
    then page_out_of_range (s.num_pages * page_size)
    else no_contiguous_pages n

-- How a search for `n` pages from page `i` on may end.
pub data Searched (s : Pmm) (n i : ℕ) : Outcome Pmm ℕ → Type 0 where
  found :
      {k : ℕ} {t : Pmm}
      → i ≤ k
      → k < s.num_pages
      → k + n ≤ s.num_pages
      → run_free (is_free s) k n ≡ true
      → ((j : ℕ) → i ≤ j → j < k → run_free (is_free s) j n ≡ false)
      → Marks s t k n false
      → Searched s n i (ok (k * page_size) t)
  exhausted :
      ((j : ℕ) → i ≤ j → j < s.num_pages → j + n ≤ s.num_pages → run_free (is_free s) j n ≡ false)
      → Searched s n i (panicked (search_panic s n) s)

-- A start that is passed over.
passed_over :
    (s : Pmm) (n i : ℕ) {r : Outcome Pmm ℕ}
    → run_free (is_free s) i n ≡ false
    → Searched s n (i + 1) r
    → Searched s n i r
passed_over s n i no_fit (found {k} a b c d e m) =
    found (omega arith) b c d
      (λ j p q. elim (ℕ_discrete i j) [
        | yes same ↦ rw (← same) no_fit
        | no ne ↦ e j (omega arith) q
      ])
      m
passed_over s n i no_fit (exhausted e) = exhausted (λ j p q r. elim (ℕ_discrete i j) [
  | yes same ↦ rw (← same) no_fit
  | no ne ↦ e j (omega arith) q r
])

pub stop_before_end :
    (s : Pmm) (n : ℕ) → (0 < s.num_pages → n ≤ 1) → search_panic s n ≡ no_contiguous_pages n
stop_before_end s n h = ground (arith, h)

stop_at_end :
    (s : Pmm) (n : ℕ)
    → 0 < s.num_pages
    → 1 < n
    → search_panic s n ≡ page_out_of_range (s.num_pages * page_size)
stop_at_end s n h k = ground arith

-- One round at a start where the run ends inside the bitmap.
round_inside :
    (i n : ℕ) (s : Pmm) (later : Action Pmm ℕ)
    → IsValid s
    → i < s.num_pages
    → i + n ≤ s.num_pages
    → Searched s n (i + 1) (later s)
    → Searched s n i (
        (query_run n i 0 true >>= λ usable.
        if usable then (claim_run n i 0 >> pure (u64 (i * page_size))) else later)
          s)
round_inside i n s later v inside fits rest =
    rw (query_run_inside n i 0 true s v (omega arith), add-zero)
      (elim (Bool-cases (run_free (is_free s) i n)) [
        | inl fit ↦ claimed fit
        | inr no_fit ↦ rw no_fit (passed_over s n i no_fit rest)
      ])
  where
    claimed :
        run_free (is_free s) i n ≡ true
        → Searched s n i (
            bind_outcome
              (ok (run_free (is_free s) i n) s)
              (λ usable. if usable then (claim_run n i 0 >> pure (u64 (i * page_size))) else later))
    claimed fit =
        let (t, returns, m) = claim_run-Marks s v i n fits in
        let a : u64 (i * page_size) ≡ i * page_size = omega (arith, v.addressable) in
        rw (fit, returns, a) (found (omega arith) inside fits fit (λ j p q. absurd (omega arith)) m)

search_from-Searched :
    (rounds i n : ℕ) (s : Pmm)
    → IsValid s
    → i + rounds ≡ s.num_pages
    → (0 < i → i + n ≤ s.num_pages + 1)
    → Searched s n i (search_from rounds i n s)
unfolding search_from
search_from-Searched zero i n s v e reached =
    rw (← stop_before_end s n (λ p. omega (arith, reached (omega arith))))
      (exhausted (λ j p q r. absurd (omega arith)))
search_from-Searched (suc rounds) i n s v e reached = elim (dec_le (i + n) s.num_pages) [
  | yes fits ↦
      round_inside i n s (search_from rounds (i + 1) n) v (omega arith) fits
        (search_from-Searched rounds (i + 1) n s v (omega arith) (λ _. omega arith))
  | no past ↦
      rw
        (
          query_run_outside n i 0 true s v (omega arith) (omega arith),
          ← stop_at_end s n (omega arith) (omega arith),
        )
        (exhausted (λ j p q r. absurd (omega arith)))
]

-- From a valid state `pmm_alloc_pages(n)` returns the address of the first run of `n` free pages
-- and makes those pages unavailable, or, where there is none, panics and leaves the bitmap alone.
pub alloc_pages-Searched : (n : ℕ) (s : Pmm) → IsValid s → Searched s n 0 (alloc_pages n s)
unfolding alloc_pages
alloc_pages-Searched n s v = search_from-Searched s.num_pages 0 n s v (omega arith) (omega arith)
