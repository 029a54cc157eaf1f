-- ===== src/Mm/Pmm/Laws.antt =====
-- What the search's result means for the callers of the page allocator.
use umbral_os.Base.{
  ℕ, zero, suc, ◌+◌, ◌*◌, ◌/◌, ◌%◌, ◌≤◌, ◌<◌, ◌≡◌, ◌⊎◌, inl, inr, refl, arith, Bool, true, false,
  max, Bool-cases,
}
use mathlib.Core.Path.{subst}
use native.Mathlib.Decide.{dec_le, ℕ_discrete}
use umbral_os.Base.Action.{Outcome, ok}
use umbral_os.Mm.Round.{page_size}
use umbral_os.Mm.Pmm.{Pmm, alloc_pages, free_pages}
use umbral_os.Mm.Pmm.Frames.{IsValid, is_free}
use umbral_os.Mm.Pmm.Runs.{Marks, in_run, run_free, free_pages-Marks}
use umbral_os.Mm.Pmm.Alloc.{Searched, found, exhausted, alloc_pages-Searched}

-- The run behind the address that a successful search returns.
pub record Fit (s : Pmm) (n : ℕ) (a : ℕ) (t : Pmm) : Type 0 where
  pub page : ℕ
  pub address : a ≡ page * page_size
  pub in_range : page < s.num_pages
  pub ends : page + n ≤ s.num_pages
  pub was_free : run_free (is_free s) page n ≡ true
  pub first : (j : ℕ) → j < page → run_free (is_free s) j n ≡ false
  pub marks : Marks s t page n false

pub Searched-Fit :
    {s t : Pmm} {n a : ℕ} {r : Outcome Pmm ℕ} → Searched s n 0 r → r ≡ ok a t → Fit s n a t
Searched-Fit {s} {t} {n} {a} (found {k} {t = t'} p q e f b m) eq =
    let same : t' ≡ t = cc in
    record {
      page = k;
      address = cc;
      in_range = q;
      ends = e;
      was_free = f;
      first = λ j. b j (omega arith);
      marks = subst (λ u. Marks s u k n false) same m;
    }
Searched-Fit (exhausted e) eq = cc

pub alloc_pages-Fit : (n a : ℕ) (s t : Pmm) → IsValid s → alloc_pages n s ≡ ok a t → Fit s n a t
alloc_pages-Fit n a s t v e = Searched-Fit (alloc_pages-Searched n s v) e

pub run_free-get :
    (free : ℕ → Bool) (first n q : ℕ)
    → run_free free first n ≡ true
    → first ≤ q
    → q < first + n
    → free q ≡ true
run_free-get free first zero q h a b = absurd (omega arith)
run_free-get free first (suc n) q h a b = elim (ℕ_discrete first q) [
  | yes e ↦ rw (← e) (ground arith)
  | no ne ↦ run_free-get free (first + 1) n q (ground arith) (omega arith) (omega arith)
]

-- A run that is wholly free can be told from its pages.
run_free_intro :
    (free : ℕ → Bool) (first n : ℕ)
    → ((q : ℕ) → first ≤ q → q < first + n → free q ≡ true)
    → run_free free first n ≡ true
run_free_intro free first zero h = refl
run_free_intro free first (suc n) h = ground (
  arith,
  h first (omega arith) (omega arith),
  run_free_intro free (first + 1) n (λ q a b. h q (omega arith) (omega arith)),
)

Returned_of_fit :
    {s : Pmm} {n k : ℕ} {r : Outcome Pmm ℕ}
    → k < s.num_pages
    → k + n ≤ s.num_pages
    → run_free (is_free s) k n ≡ true
    → Searched s n 0 r
    → (a : ℕ) × (t : Pmm) × (r ≡ ok a t) × (a ≤ k * page_size)
Returned_of_fit {s} {n} {k} h e f (found {k = j} {t} p q x y b m) = elim (dec_le j k) [
  | yes le ↦ (j * page_size, t, refl, omega arith)
  | no gt ↦ let no_fit : run_free (is_free s) k n ≡ false = b k (omega arith) (omega arith) in cc
]
Returned_of_fit {s} {n} {k} h e f (exhausted none_fits) =
    let no_fit : run_free (is_free s) k n ≡ false = none_fits k (omega arith) h e in cc

-- If some run of `n` pages is free, `pmm_alloc_pages(n)` returns, with an address not above the
-- run's.
pub alloc_pages_total :
    (n k : ℕ) (s : Pmm)
    → IsValid s
    → k < s.num_pages
    → k + n ≤ s.num_pages
    → ((q : ℕ) → k ≤ q → q < k + n → is_free s q ≡ true)
    → (a : ℕ) × (t : Pmm) × (alloc_pages n s ≡ ok a t) × (a ≤ k * page_size)
alloc_pages_total n k s v h e f =
    Returned_of_fit h e (run_free_intro (is_free s) k n f) (alloc_pages-Searched n s v)

-- The pages that a returned address stands for lie in the range of the bitmap, were free, and are
-- no longer free; every other page is as before.
pub alloc_pages_takes :
    (n a : ℕ) (s t : Pmm)
    → IsValid s
    → alloc_pages n s ≡ ok a t
    → IsValid t
      × (a % page_size ≡ 0)
      × (a / page_size + n ≤ s.num_pages)
      × ((q : ℕ) → in_run (a / page_size) n q ≡ true → (is_free s q ≡ true) × (is_free t q ≡ false))
      × ((q : ℕ) → in_run (a / page_size) n q ≡ false → is_free t q ≡ is_free s q)
alloc_pages_takes n a s t v e =
    let fit = alloc_pages-Fit n a s t v e in
    let page : a / page_size ≡ fit.page = omega (arith, fit.address) in
    (
      fit.marks.valid,
      omega (arith, fit.address),
      omega (arith, fit.address, fit.ends),
      rw page (λ q h. (
        run_free-get (is_free s) fit.page n q fit.was_free (ground arith) (ground arith),
        ground (arith, fit.marks.frames q),
      )),
      rw page (λ q h. ground (arith, fit.marks.frames q)),
    )

-- Two runs that are handed out one after the other do not overlap.
pub alloc_pages_disjoint :
    (n m a b : ℕ) (s t u : Pmm)
    → IsValid s
    → 0 < n
    → 0 < m
    → alloc_pages n s ≡ ok a t
    → alloc_pages m t ≡ ok b u
    → (a + n * page_size ≤ b) ⊎ (b + m * page_size ≤ a)
alloc_pages_disjoint n m a b s t u v hn hm e f =
    let fit = alloc_pages-Fit n a s t v e in
    let fit' = alloc_pages-Fit m b t u fit.marks.valid f in
    elim (dec_le (fit.page + n) fit'.page) [
      | yes before ↦ inl (omega (arith, fit.address, fit'.address))
      | no not_before ↦ elim (dec_le (fit'.page + m) fit.page) [
        | yes behind ↦ inr (omega (arith, fit.address, fit'.address))
        | no not_behind ↦
            let q : ℕ = max fit.page fit'.page in
            let taken : is_free t q ≡ false = ground (arith, fit.marks.frames q) in
            let given : is_free t q ≡ true =
              run_free-get (is_free t) fit'.page m q fit'.was_free (omega arith) (omega arith) in
            cc (taken, given)
      ]
    ]

-- Freeing what was handed out makes every page as free as it was before.
pub free_pages-alloc_pages :
    (n a : ℕ) (s t : Pmm)
    → IsValid s
    → alloc_pages n s ≡ ok a t
    → (u : Pmm) × (free_pages a n t ≡ ok tt u) × IsValid u × ((q : ℕ) → is_free u q ≡ is_free s q)
free_pages-alloc_pages n a s t v e =
    let fit = alloc_pages-Fit n a s t v e in
    let (u, returns, m) =
      free_pages-Marks t fit.marks.valid fit.page n
        (omega (arith, fit.ends, fit.marks.same_count)) in
    (
      u,
      rw fit.address returns,
      m.valid,
      λ q. elim (Bool-cases (in_run fit.page n q)) [
        | inl inside ↦ ground (
          arith,
          m.frames q,
          run_free-get (is_free s) fit.page n q fit.was_free (ground arith) (ground arith),
        )
        | inr outside ↦ ground (arith, m.frames q, fit.marks.frames q)
      ],
    )
