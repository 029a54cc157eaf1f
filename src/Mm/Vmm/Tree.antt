-- ===== src/Mm/Vmm/Tree.antt =====
-- The page tables as a tree. Each page that is a table has a rank, 4 for the top level and 1 for the
-- tables that hold the pages, and a path, the indices that lead to it. What a step that adds tables
-- keeps is in `Grows`.
use mathlib.Core.Path.{subst}
use umbral_os.Base.{ℕ, suc, ◌+◌, ◌*◌, ◌%◌, ◌^◌, ◌≤◌, ◌<◌, ◌≡◌, refl, ◌∙◌, arith, true}
use umbral_os.Mm.Pmm.Frames.{IsValid, is_free}
use umbral_os.Mm.Vmm.{Vmm, is_present}
use umbral_os.Mm.Vmm.Walk.{child, leads, lookup, translate}

-- Every page that a present entry of a table leads to is the table for that entry, no free page is a
-- table, and the pages of the bitmap fit the addresses that an entry holds.
pub record IsTree (rank path : ℕ → ℕ) (s : Vmm) : Type 0 where
  pub valid : IsValid s.pmm
  pub hhdm_aligned : s.pmm.hhdm % 2 ^ 12 ≡ 0
  pub mapped : s.pmm.hhdm + s.pmm.num_pages * 2 ^ 12 ≤ 2 ^ 64
  pub in_width : s.pmm.num_pages ≤ 2 ^ 40
  pub root_rank : rank s.pml4 ≡ 4
  pub root_path : path s.pml4 ≡ 0
  pub aligned : (t : ℕ) → 0 < rank t → t % 2 ^ 12 ≡ 0
  pub children :
      (k t i : ℕ)
      → rank t ≡ suc (suc k)
      → i < 512
      → is_present (s.mem (t + 8 * i)) ≡ true
      → (leads (s.mem (t + 8 * i)) ≡ true)
        × (rank (child s.pmm.hhdm (s.mem (t + 8 * i))) ≡ suc k)
        × (path (child s.pmm.hhdm (s.mem (t + 8 * i))) ≡ path t * 512 + i)
  pub free_unranked :
      (q : ℕ) → q < s.pmm.num_pages → is_free s.pmm q ≡ true → rank (s.pmm.hhdm + q * 2 ^ 12) ≡ 0

pub record Grows (rank path : ℕ → ℕ) (s : Vmm) (rank' path' : ℕ → ℕ) (s' : Vmm) : Type 0 where
  pub tree : IsTree rank' path' s'
  pub same_hhdm : s'.pmm.hhdm ≡ s.pmm.hhdm
  pub same_root : s'.pml4 ≡ s.pml4
  pub ranks : (t : ℕ) → 0 < rank t → (rank' t ≡ rank t) × (path' t ≡ path t)
  pub keeps :
      (k t i : ℕ)
      → rank t ≡ suc (suc k)
      → i < 512
      → is_present (s.mem (t + 8 * i)) ≡ true
      → s'.mem (t + 8 * i) ≡ s.mem (t + 8 * i)
  pub walks :
      (d t v : ℕ) → rank t ≡ suc d → lookup s'.mem s.pmm.hhdm d t v ≡ lookup s.mem s.pmm.hhdm d t v

module _ {rank path : ℕ → ℕ} {s : Vmm} where
  pub Grows-refl : IsTree rank path s → Grows rank path s rank path s
  Grows-refl tree = record {
    tree = tree;
    same_hhdm = refl;
    same_root = refl;
    ranks = λ t h. (refl, refl);
    keeps = λ k t i r l p. refl;
    walks = λ d t v r. refl;
  }

  pub Grows-trans :
      {rank' path' rank'' path'' : ℕ → ℕ} {s' s'' : Vmm}
      → Grows rank path s rank' path' s'
      → Grows rank' path' s' rank'' path'' s''
      → Grows rank path s rank'' path'' s''
  Grows-trans {rank'} {s'} {s''} g h = record {
    tree = h.tree;
    same_hhdm = h.same_hhdm ∙ g.same_hhdm;
    same_root = h.same_root ∙ g.same_root;
    ranks = λ t p.
        let (r, q) = g.ranks t p in let (r', q') = h.ranks t (omega (arith, r)) in (r' ∙ r, q' ∙ q);
    keeps = λ k t i r l p.
        let (r', q) = g.ranks t (omega (arith, r)) in
        let e = g.keeps k t i r l p in h.keeps k t i (r' ∙ r) l (rw e p) ∙ e;
    walks = λ d t v r.
        let (r', q) = g.ranks t (omega (arith, r)) in
        subst (λ x. lookup s''.mem x d t v ≡ lookup s'.mem x d t v) g.same_hhdm
          (h.walks d t v (r' ∙ r))
        ∙ g.walks d t v r;
  }

  pub translate-Grows :
      {rank' path' : ℕ → ℕ} {s' : Vmm}
      → IsTree rank path s
      → Grows rank path s rank' path' s'
      → (v : ℕ) → translate s' v ≡ translate s v
  translate-Grows tree g v = rw (g.same_hhdm, g.same_root) (g.walks 3 s.pml4 v tree.root_rank)
