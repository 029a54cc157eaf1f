-- ===== src/Mm/Vmm/Install.antt =====
-- A new table below an entry that was not present: the tree grows, and no walk changes.
use mathlib.Core.Bool.{true≢false}
use native.Mathlib.Decide.{ℕ_discrete}
use umbral_os.Base.{
  none, ℕ, zero, suc, ◌+◌, ◌*◌, ◌%◌, ◌^◌, ◌<◌, ◌≡◌, ◌≢◌, refl, sym, ap, ◌∙◌, arith, true, false,
  ◌&&◌, ltb, leb, ◌==◌, if◌then◌else◌, eq→==, ne→==, and-left, not, Bool-cases, inl, inr,
}
use umbral_os.Mm.Round.{page_size}
use umbral_os.Mm.Pmm.{Pmm}
use umbral_os.Mm.Pmm.Frames.{is_free}
use umbral_os.Mm.Pmm.Runs.{in_run}
use umbral_os.Mm.Pmm.Laws.{Fit, run_free-get}
use umbral_os.Mm.Vmm.{Vmm, is_present, is_large, entry_addr}
use umbral_os.Mm.Vmm.Entry.{zero-is_present}
use umbral_os.Mm.Vmm.Walk.{
  is_open, child, leads, lookup, index, index-lt, lookup-absent, lookup-leads,
}
use umbral_os.Mm.Vmm.Tree.{IsTree, Grows}

module _ {rank path : ℕ → ℕ} {s : Vmm} (tree : IsTree rank path s) {k t i a : ℕ} {p : Pmm}
    (is_table : rank t ≡ suc (suc k)) (in_table : i < 512)
    (absent : is_present (s.mem (t + 8 * i)) ≡ false) (fit : Fit s.pmm 1 a p) (word : ℕ)
    (names : leads word ≡ true) (addr : entry_addr word ≡ fit.page) where
  abbrev pub virt : ℕ
  virt = s.pmm.hhdm + fit.page * 2 ^ 12

  abbrev pub new_mem : ℕ → ℕ
  new_mem x =
      if x == t + 8 * i
      then word
      else (if leb virt x && ltb x (virt + page_size) then 0 else s.mem x)

  abbrev pub new_rank : ℕ → ℕ
  new_rank x = if x == virt then suc k else rank x

  abbrev pub new_path : ℕ → ℕ
  new_path x = if x == virt then path t * 512 + i else path x

  abbrev pub installed : Vmm
  installed = record s { pmm = p; mem = new_mem }

  virt_unranked : rank virt ≡ 0
  virt_unranked =
      tree.free_unranked fit.page fit.in_range
        (run_free-get (is_free s.pmm) fit.page 1 fit.page fit.was_free (omega arith) (omega arith))

  virt_apart : (x : ℕ) → 0 < rank x → x ≢ virt
  virt_apart x h e = let z : rank x ≡ 0 = rw e virt_unranked in omega arith

  virt_aligned : virt % 2 ^ 12 ≡ 0
  virt_aligned = omega (arith, tree.hhdm_aligned)

  child_word : child s.pmm.hhdm word ≡ virt
  child_word = rw addr (omega (arith, fit.in_range, tree.mapped))

  rank_apart : (x : ℕ) → x ≢ virt → new_rank x ≡ rank x
  rank_apart x ne = rw (ne→== x virt ne) refl

  path_apart : (x : ℕ) → x ≢ virt → new_path x ≡ path x
  path_apart x ne = rw (ne→== x virt ne) refl

  -- A word of a table is as before, but for the entry.
  old_word :
      (t' i' : ℕ)
      → 0 < rank t'
      → i' < 512
      → t' + 8 * i' ≢ t + 8 * i
      → new_mem (t' + 8 * i') ≡ s.mem (t' + 8 * i')
  old_word t' i' h l ne =
      let other = virt_apart t' h in
      let al = tree.aligned t' h in ground (arith, other, al, virt_aligned)

  -- The new table is empty.
  new_word : (i' : ℕ) → i' < 512 → new_mem (virt + 8 * i') ≡ 0
  new_word i' l =
      let other = virt_apart t (omega (arith, is_table)) in
      let al = tree.aligned t (omega (arith, is_table)) in ground (arith, other, al, virt_aligned)

  entry_word : new_mem (t + 8 * i) ≡ word
  entry_word = ground arith

  same_entry : (t' i' : ℕ) → 0 < rank t' → i' < 512 → t' + 8 * i' ≡ t + 8 * i → (t' ≡ t) × (i' ≡ i)
  same_entry t' i' h l e =
      let al = tree.aligned t' h in
      let al' = tree.aligned t (omega (arith, is_table)) in (omega arith, omega arith)

  new_rank_old : (x : ℕ) → 0 < rank x → (new_rank x ≡ rank x) × (new_path x ≡ path x)
  new_rank_old x h = let other = virt_apart x h in (rank_apart x other, path_apart x other)

  present_word : is_present word ≡ true
  present_word = and-left (is_present word) (not (is_large word) && is_open word) names

  new_rank-virt : (new_rank virt ≡ suc k) × (new_path virt ≡ path t * 512 + i)
  new_rank-virt = rw (eq→== virt virt refl) (refl, refl)

  -- What an entry of an old table leads to, the new entry included.
  new_children :
      (k' t' i' : ℕ)
      → rank t' ≡ suc (suc k')
      → i' < 512
      → is_present (new_mem (t' + 8 * i')) ≡ true
      → (leads (new_mem (t' + 8 * i')) ≡ true)
        × (new_rank (child s.pmm.hhdm (new_mem (t' + 8 * i'))) ≡ suc k')
        × (new_path (child s.pmm.hhdm (new_mem (t' + 8 * i'))) ≡ path t' * 512 + i')
  new_children k' t' i' r l h = elim (ℕ_discrete (t' + 8 * i') (t + 8 * i)) [
    | yes e ↦
        let (et, ei) = same_entry t' i' (omega (arith, r)) l e in
        let ek : k' ≡ k = omega (arith, sym r ∙ ap rank et ∙ is_table) in
        rw (e, entry_word, child_word)
          (names, new_rank-virt.0 ∙ ap suc (sym ek), new_rank-virt.1 ∙ rw (et, ei) refl)
    | no ne ↦
        let old = old_word t' i' (omega (arith, r)) l ne in
        let (a1, b1, c1) = tree.children k' t' i' r l (rw (← old) h) in
        let (nr, np) = new_rank_old (child s.pmm.hhdm (s.mem (t' + 8 * i'))) (omega (arith, b1)) in
        rw old (a1, nr ∙ b1, np ∙ c1)
  ]

  in_run-first : (q : ℕ) → q ≡ fit.page → in_run fit.page 1 q ≡ true
  in_run-first q e = ground arith

  new_aligned : (x : ℕ) → 0 < new_rank x → x % 2 ^ 12 ≡ 0
  new_aligned x h = elim (ℕ_discrete x virt) [
    | yes e ↦ rw e virt_aligned
    | no ne ↦ tree.aligned x (rw (← rank_apart x ne) h)
  ]

  -- Every entry of every table: those of the new one are not present.
  all_children :
      (k' t' i' : ℕ)
      → new_rank t' ≡ suc (suc k')
      → i' < 512
      → is_present (new_mem (t' + 8 * i')) ≡ true
      → (leads (new_mem (t' + 8 * i')) ≡ true)
        × (new_rank (child s.pmm.hhdm (new_mem (t' + 8 * i'))) ≡ suc k')
        × (new_path (child s.pmm.hhdm (new_mem (t' + 8 * i'))) ≡ new_path t' * 512 + i')
  all_children k' t' i' r l h = elim (ℕ_discrete t' virt) [
    | yes e ↦
        let empty : is_present (new_mem (t' + 8 * i')) ≡ false =
          ap (λ x. is_present (new_mem (x + 8 * i'))) e
          ∙ ap is_present (new_word i' l)
          ∙ zero-is_present in
        absurd (true≢false (sym h ∙ empty))
    | no ne ↦ rw (path_apart t' ne) (new_children k' t' i' (rw (← rank_apart t' ne) r) l h)
  ]

  still_unranked :
      (q : ℕ) → q < s.pmm.num_pages → is_free p q ≡ true → new_rank (p.hhdm + q * 2 ^ 12) ≡ 0
  still_unranked q l f = elim (Bool-cases (in_run fit.page 1 q)) [
    | inl taken ↦ absurd (true≢false (sym f ∙ fit.marks.frames q ∙ rw taken refl))
    | inr other ↦
        let was : is_free s.pmm q ≡ true = sym (fit.marks.frames q ∙ rw other refl) ∙ f in
        let ne : q ≢ fit.page = λ e. true≢false (sym (in_run-first q e) ∙ other) in
        let apart : s.pmm.hhdm + q * 2 ^ 12 ≢ virt = λ e. ne (omega arith) in
        rw fit.marks.same_hhdm
          (rank_apart (s.pmm.hhdm + q * 2 ^ 12) apart ∙ tree.free_unranked q l was)
  ]

  installed-IsTree : IsTree new_rank new_path installed
  installed-IsTree = record {
    valid = fit.marks.valid;
    hhdm_aligned = rw fit.marks.same_hhdm tree.hhdm_aligned;
    mapped = rw (fit.marks.same_hhdm, fit.marks.same_count) tree.mapped;
    in_width = rw fit.marks.same_count tree.in_width;
    root_rank = (new_rank_old s.pml4 (omega (arith, tree.root_rank))).0 ∙ tree.root_rank;
    root_path = (new_rank_old s.pml4 (omega (arith, tree.root_rank))).1 ∙ tree.root_path;
    aligned = λ t' h. new_aligned t' h;
    children = λ k' t' i' r l h. rw fit.marks.same_hhdm (all_children k' t' i' r l h);
    free_unranked = λ q' l f. still_unranked q' (omega (arith, l, fit.marks.same_count)) f;
  }

  empty_table : (d v : ℕ) → lookup new_mem s.pmm.hhdm d virt v ≡ none
  empty_table d v =
      lookup-absent new_mem s.pmm.hhdm d virt v
        (ap is_present (new_word (index d v) (index-lt d v)) ∙ zero-is_present)

  -- A walk that meets the entry stops there before, and in the new table after.
  walk_at_entry :
      (d t' v : ℕ)
      → t' + 8 * index (suc d) v ≡ t + 8 * i
      → lookup new_mem s.pmm.hhdm (suc d) t' v ≡ lookup s.mem s.pmm.hhdm (suc d) t' v
  walk_at_entry d t' v e =
      let w : new_mem (t' + 8 * index (suc d) v) ≡ word = ap new_mem e ∙ entry_word in
      let after =
        lookup-leads new_mem s.pmm.hhdm d t' v (ap leads w ∙ names)
        ∙ ap (λ x. lookup new_mem s.pmm.hhdm d x v) (ap (child s.pmm.hhdm) w ∙ child_word)
        ∙ empty_table d v in
      after
      ∙ sym
          (lookup-absent s.mem s.pmm.hhdm (suc d) t' v (ap (λ x. is_present (s.mem x)) e ∙ absent))

  walk_beside_entry :
      (d t' v : ℕ)
      → rank t' ≡ suc (suc d)
      → t' + 8 * index (suc d) v ≢ t + 8 * i
      → ((t'' : ℕ)
          → rank t'' ≡ suc d
          → lookup new_mem s.pmm.hhdm d t'' v ≡ lookup s.mem s.pmm.hhdm d t'' v)
      → lookup new_mem s.pmm.hhdm (suc d) t' v ≡ lookup s.mem s.pmm.hhdm (suc d) t' v
  walk_beside_entry d t' v r ne below =
      let l = index-lt (suc d) v in
      let old = old_word t' (index (suc d) v) (omega (arith, r)) l ne in
      elim (Bool-cases (is_present (s.mem (t' + 8 * index (suc d) v)))) [
        | inl h ↦
            let (le, ra, pa) = tree.children d t' (index (suc d) v) r l h in
            lookup-leads new_mem s.pmm.hhdm d t' v (ap leads old ∙ le)
            ∙ ap (λ x. lookup new_mem s.pmm.hhdm d (child s.pmm.hhdm x) v) old
            ∙ below (child s.pmm.hhdm (s.mem (t' + 8 * index (suc d) v))) ra
            ∙ sym (lookup-leads s.mem s.pmm.hhdm d t' v le)
        | inr h ↦
            lookup-absent new_mem s.pmm.hhdm (suc d) t' v (ap is_present old ∙ h)
            ∙ sym (lookup-absent s.mem s.pmm.hhdm (suc d) t' v h)
      ]

  walks :
      (d t' v : ℕ)
      → rank t' ≡ suc d
      → lookup new_mem s.pmm.hhdm d t' v ≡ lookup s.mem s.pmm.hhdm d t' v
  walks zero t' v r =
      let ne : t' + 8 * index 0 v ≢ t + 8 * i = λ e.
        let (et, ei) = same_entry t' (index 0 v) (omega (arith, r)) (index-lt 0 v) e in
        absurd (omega (arith, sym r ∙ ap rank et ∙ is_table)) in
      rw (old_word t' (index 0 v) (omega (arith, r)) (index-lt 0 v) ne) refl
  walks (suc d) t' v r = elim (ℕ_discrete (t' + 8 * index (suc d) v) (t + 8 * i)) [
    | yes e ↦ walk_at_entry d t' v e
    | no ne ↦ walk_beside_entry d t' v r ne (λ t''. walks d t'' v)
  ]

  installed-Grows : Grows rank path s new_rank new_path installed
  installed-Grows = record {
    tree = installed-IsTree;
    same_hhdm = fit.marks.same_hhdm;
    same_root = refl;
    ranks = new_rank_old;
    keeps = λ k' t' i' r l h.
        old_word t' i' (omega (arith, r)) l
          (λ e. true≢false (sym h ∙ ap (λ x. is_present (s.mem x)) e ∙ absent));
    walks = walks;
  }

  -- The new table is the one that the entry names.
  pub installed_lem :
      Grows rank path s new_rank new_path installed
      × (installed.mem (t + 8 * i) ≡ word)
      × (child s.pmm.hhdm (installed.mem (t + 8 * i)) ≡ virt)
      × (new_rank virt ≡ suc k)
      × (new_path virt ≡ path t * 512 + i)
  installed_lem = (
    installed-Grows,
    entry_word,
    ap (child s.pmm.hhdm) entry_word ∙ child_word,
    new_rank-virt.0,
    new_rank-virt.1,
  )
