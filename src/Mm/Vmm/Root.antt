-- ===== src/Mm/Vmm/Root.antt =====
-- The top level table that `vmm_init` makes: one table with no entry present.
use mathlib.Core.Bool.{true≢false}
use umbral_os.Base.{
  ℕ, ◌+◌, ◌*◌, ◌%◌, ◌^◌, ◌≤◌, ◌<◌, ◌≡◌, ◌≢◌, refl, sym, ap, ◌∙◌, arith, true, false, none, ◌&&◌,
  ltb, leb, ◌==◌, if◌then◌else◌, eq→==, ne→==, Bool-cases, inl, inr,
}
use umbral_os.Base.Word.{u64}
use umbral_os.Base.Action.{Outcome, ok, panicked}
use umbral_os.Base.Panics.{no_contiguous_pages}
use umbral_os.Mm.Round.{page_size}
use umbral_os.Mm.Pmm.{Pmm, alloc_page, phy_to_virt}
use umbral_os.Mm.Pmm.Frames.{IsValid, is_free}
use umbral_os.Mm.Pmm.Runs.{in_run}
use umbral_os.Mm.Pmm.Laws.{Fit}
use umbral_os.Mm.Vmm.{Vmm, is_present}
use umbral_os.Mm.Vmm.Entry.{zero-is_present}
use umbral_os.Mm.Vmm.Walk.{index, index-lt, translate, lookup-absent}
use umbral_os.Mm.Vmm.Tree.{IsTree}
use umbral_os.Mm.Vmm.Ensure.{OnePage, one_page, no_page, alloc_page-OnePage}
use umbral_os.Mm.Vmm.Map.{HasTree}
use umbral_os.Mm.Vmm.Boot.{make_root}

-- Physical memory can be reached from the kernel, and fits the addresses in an entry.
pub record IsReachable (s : Pmm) : Type 0 where
  pub valid : IsValid s
  pub hhdm_aligned : s.hhdm % 2 ^ 12 ≡ 0
  pub mapped : s.hhdm + s.num_pages * 2 ^ 12 ≤ 2 ^ 64
  pub in_width : s.num_pages ≤ 2 ^ 40

module _ (s : Vmm) (reach : IsReachable s.pmm) {a : ℕ} {p : Pmm} (fit : Fit s.pmm 1 a p) where
  abbrev root : ℕ
  root = s.pmm.hhdm + fit.page * 2 ^ 12

  abbrev pub rooted : Vmm
  rooted = record s {
    pmm = p;
    pml4 = root;
    mem = λ x. if leb root x && ltb x (root + page_size) then 0 else s.mem x;
  }

  abbrev root_rank : ℕ → ℕ
  root_rank x = if x == root then 4 else 0

  root_only : (t : ℕ) → 0 < root_rank t → t ≡ root
  root_only t h = ground arith

  root_aligned : root % 2 ^ 12 ≡ 0
  root_aligned = omega (arith, reach.hhdm_aligned)

  root_word : (i : ℕ) → i < 512 → rooted.mem (root + 8 * i) ≡ 0
  root_word i l = ground arith

  still_unranked : (q : ℕ) → is_free p q ≡ true → root_rank (s.pmm.hhdm + q * 2 ^ 12) ≡ 0
  still_unranked q f = elim (Bool-cases (in_run fit.page 1 q)) [
    | inl taken ↦ absurd (true≢false (sym f ∙ fit.marks.frames q ∙ rw taken refl))
    | inr other ↦
        let ne : q ≢ fit.page = λ e. true≢false (sym (in_run-first q e) ∙ other) in
        rw (ne→== (s.pmm.hhdm + q * 2 ^ 12) root (λ e. ne (omega arith))) refl
  ]
    where
      in_run-first : (q : ℕ) → q ≡ fit.page → in_run fit.page 1 q ≡ true
      in_run-first q e = ground arith

  pub rooted-IsTree : IsTree root_rank (λ x. 0) rooted
  rooted-IsTree = record {
    valid = fit.marks.valid;
    hhdm_aligned = rw fit.marks.same_hhdm reach.hhdm_aligned;
    mapped = rw (fit.marks.same_hhdm, fit.marks.same_count) reach.mapped;
    in_width = rw fit.marks.same_count reach.in_width;
    root_rank = rw (eq→== root root refl) refl;
    root_path = refl;
    aligned = λ t h. rw (root_only t h) root_aligned;
    children = λ k t i r l h. absurd (
        true≢false (
          sym h
          ∙ ap is_present
              (ap (λ x. rooted.mem (x + 8 * i)) (root_only t (omega (arith, r))) ∙ root_word i l)
          ∙ zero-is_present));
    free_unranked = λ q l f. rw fit.marks.same_hhdm (still_unranked q f);
  }

  pub rooted_empty : (v : ℕ) → translate rooted v ≡ none
  rooted_empty v =
      lookup-absent rooted.mem p.hhdm 3 root v
        (ap is_present (root_word (index 3 v) (index-lt 3 v)) ∙ zero-is_present)

-- How the making of the top level table may end.
pub data Rooted (s : Vmm) : Outcome Vmm (Unit {0}) → Type 0 where
  has_root : {s' : Vmm} → HasTree s' → ((v : ℕ) → translate s' v ≡ none) → Rooted s (ok tt s')
  no_root :
      ((q : ℕ) → q < s.pmm.num_pages → is_free s.pmm q ≡ false)
      → Rooted s (panicked (no_contiguous_pages 1) s)

Rooted-from :
    (s : Vmm) {r : Outcome Pmm ℕ}
    → IsReachable s.pmm
    → OnePage s.pmm r
    → alloc_page s.pmm ≡ r
    → Rooted s (make_root s)
unfolding make_root phy_to_virt
Rooted-from s reach (one_page {a} {p} fit) e =
    let at_page : u64 (p.hhdm + a) ≡ s.pmm.hhdm + fit.page * 2 ^ 12 =
      rw fit.marks.same_hhdm (omega (arith, fit.address, fit.in_range, reach.mapped)) in
    rw (e, at_page)
      (has_root (record { rank = _; path = _; tree = rooted-IsTree s reach fit })
        (rooted_empty s reach fit))
Rooted-from s reach (no_page none_free) e = rw e (no_root none_free)

-- `vmm_init` makes a top level table from which no address can be reached: with it the page tables
-- are a tree. Or no page is free and it panics.
pub make_root-Rooted : (s : Vmm) → IsReachable s.pmm → Rooted s (make_root s)
make_root-Rooted s reach = Rooted-from s reach (alloc_page-OnePage s.pmm reach.valid) refl
