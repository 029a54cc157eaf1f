-- ===== src/Mm/Vmm/Leaf.antt =====
-- The write of a page table's entry: it changes the walk for one page and no other.
use umbral_os.Base.{
  ℕ, zero, suc, ◌+◌, ◌*◌, ◌<◌, ◌≡◌, ◌≢◌, refl, sym, ap, ◌∙◌, arith, true, some, ◌==◌, if◌then◌else◌,
  eq→==, ne→==, Bool-cases, inl, inr,
}
use umbral_os.Mm.Vmm.{Vmm, is_present}
use umbral_os.Mm.Vmm.Walk.{
  child, leads, lookup, translate, index, index-lt, prefix, prefix-step, lookup-absent,
  lookup-leads,
}
use umbral_os.Mm.Vmm.Tree.{IsTree}
use umbral_os.Mm.Vmm.Reach.{Reaches, Reaches-kept, translate-Reaches}

module _ {rank path : ℕ → ℕ} {s : Vmm} (tree : IsTree rank path s) {pt i : ℕ}
    (is_leaf_table : rank pt ≡ 1) (in_table : i < 512) (word : ℕ) where
  abbrev pub stored : Vmm
  stored = record s { mem = λ x. if x == pt + 8 * i then word else s.mem x }

  other_word : (x : ℕ) → x ≢ pt + 8 * i → stored.mem x ≡ s.mem x
  other_word x ne = rw (ne→== x (pt + 8 * i) ne) refl

  same_entry : (t j : ℕ) → 0 < rank t → j < 512 → t + 8 * j ≡ pt + 8 * i → (t ≡ pt) × (j ≡ i)
  same_entry t j h l e =
      let al = tree.aligned t h in
      let al' = tree.aligned pt (omega (arith, is_leaf_table)) in (omega arith, omega arith)

  -- The tables that lead to tables are as before.
  upper_word :
      (k t j : ℕ) → rank t ≡ suc (suc k) → j < 512 → stored.mem (t + 8 * j) ≡ s.mem (t + 8 * j)
  upper_word k t j r l = other_word (t + 8 * j) (λ e.
      let (et, ej) = same_entry t j (omega (arith, r)) l e in
      absurd (omega (arith, sym r ∙ ap rank et ∙ is_leaf_table)))

  pub stored-IsTree : IsTree rank path stored
  stored-IsTree = record {
    valid = tree.valid;
    hhdm_aligned = tree.hhdm_aligned;
    mapped = tree.mapped;
    in_width = tree.in_width;
    root_rank = tree.root_rank;
    root_path = tree.root_path;
    aligned = tree.aligned;
    children = λ k t j r l h.
        rw (upper_word k t j r l)
          (tree.children k t j r l (sym (ap is_present (upper_word k t j r l)) ∙ h));
    free_unranked = tree.free_unranked;
  }

  pub translate-stored :
      (v : ℕ)
      → Reaches rank s v 0 pt
      → index 0 v ≡ i
      → is_present word ≡ true
      → translate stored v ≡ some word
  translate-stored v w e h =
      let kept =
        Reaches-kept {rank' = rank} {s' = stored} refl refl
          (λ k t r p. (upper_word k t (index (suc k) v) r (index-lt (suc k) v), refl)) w in
      let here : stored.mem (pt + 8 * index 0 v) ≡ word =
        rw (e, eq→== (pt + 8 * i) (pt + 8 * i) refl) refl in
      translate-Reaches kept ∙ rw (here, h) refl

  -- The walk for an address in another page.
  walks_elsewhere :
      (d t v : ℕ)
      → d < 4
      → rank t ≡ suc d
      → path t ≡ prefix d v
      → (prefix 0 v ≡ path pt → index 0 v ≢ i)
      → lookup stored.mem s.pmm.hhdm d t v ≡ lookup s.mem s.pmm.hhdm d t v
  walks_elsewhere zero t v b r q other =
      let ne : t + 8 * index 0 v ≢ pt + 8 * i = λ e.
        let (et, ei) = same_entry t (index 0 v) (omega (arith, r)) (index-lt 0 v) e in
        other (sym q ∙ ap path et) ei in
      rw (other_word (t + 8 * index 0 v) ne) refl
  walks_elsewhere (suc d) t v b r q other =
      let l = index-lt (suc d) v in
      let same = upper_word d t (index (suc d) v) r l in
      elim (Bool-cases (is_present (s.mem (t + 8 * index (suc d) v)))) [
        | inl h ↦
            let (le, ra, pa) = tree.children d t (index (suc d) v) r l h in
            let c = child s.pmm.hhdm (s.mem (t + 8 * index (suc d) v)) in
            let at_child =
              pa ∙ ap (λ x. x * 512 + index (suc d) v) q ∙ sym (prefix-step d v (omega arith)) in
            lookup-leads stored.mem s.pmm.hhdm d t v (ap leads same ∙ le)
            ∙ ap (λ x. lookup stored.mem s.pmm.hhdm d (child s.pmm.hhdm x) v) same
            ∙ walks_elsewhere d c v (omega arith) ra at_child other
            ∙ sym (lookup-leads s.mem s.pmm.hhdm d t v le)
        | inr h ↦
            lookup-absent stored.mem s.pmm.hhdm (suc d) t v (ap is_present same ∙ h)
            ∙ sym (lookup-absent s.mem s.pmm.hhdm (suc d) t v h)
      ]

  pub translate-stored_elsewhere :
      (v : ℕ) → (prefix 0 v ≡ path pt → index 0 v ≢ i) → translate stored v ≡ translate s v
  translate-stored_elsewhere v other =
      walks_elsewhere 3 s.pml4 v (omega arith) tree.root_rank tree.root_path other
