-- ===== src/Mm/Vmm/Reach.antt =====
-- The tables that the walk for one address goes through.
use umbral_os.Base.{ℕ, suc, ◌+◌, ◌*◌, ◌≡◌, refl, ap, ◌∙◌, arith, true, not}
use umbral_os.Base.{and-left, ◌&&◌}
use umbral_os.Mm.Vmm.{Vmm, is_present, is_large}
use umbral_os.Mm.Vmm.Walk.{is_open, child, leads, lookup, translate, index, index-lt, lookup-leads}
use umbral_os.Mm.Vmm.Tree.{Grows}

-- The walk for `v` comes to the table `t` of depth `d`.
pub data Reaches (rank : ℕ → ℕ) (s : Vmm) (v : ℕ) : ℕ → ℕ → Type 0 where
  at_root : Reaches rank s v 3 s.pml4
  below :
      {d t t' : ℕ}
      → Reaches rank s v (suc d) t
      → rank t ≡ suc (suc d)
      → leads (s.mem (t + 8 * index (suc d) v)) ≡ true
      → child s.pmm.hhdm (s.mem (t + 8 * index (suc d) v)) ≡ t'
      → Reaches rank s v d t'

pub translate-Reaches :
    {rank : ℕ → ℕ} {s : Vmm} {v d t : ℕ}
    → Reaches rank s v d t
    → translate s v ≡ lookup s.mem s.pmm.hhdm d t v
translate-Reaches at_root = refl
translate-Reaches {s} {v} {d} (below {t} w r le c) =
    translate-Reaches w
    ∙ lookup-leads s.mem s.pmm.hhdm d t v le
    ∙ ap (λ x. lookup s.mem s.pmm.hhdm d x v) c

-- A change that keeps the root and the entries on the way keeps the walk.
pub Reaches-kept :
    {rank rank' : ℕ → ℕ} {s s' : Vmm} {v d t : ℕ}
    → s'.pml4 ≡ s.pml4
    → s'.pmm.hhdm ≡ s.pmm.hhdm
    → ((k t : ℕ)
        → rank t ≡ suc (suc k)
        → is_present (s.mem (t + 8 * index (suc k) v)) ≡ true
        → (s'.mem (t + 8 * index (suc k) v) ≡ s.mem (t + 8 * index (suc k) v)) × (rank' t ≡ rank t))
    → Reaches rank s v d t
    → Reaches rank' s' v d t
Reaches-kept root hhdm keep at_root = rw (← root) at_root
Reaches-kept {s} {s'} {v} {d} root hhdm keep (below {t} w r le c) =
    let x = s.mem (t + 8 * index (suc d) v) in
    let (same, ra) = keep d t r (and-left (is_present x) (not (is_large x) && is_open x) le) in
    below (Reaches-kept root hhdm keep w) (ra ∙ r) (ap leads same ∙ le)
      (ap (child s'.pmm.hhdm) same ∙ ap (λ h. child h x) hhdm ∙ c)

pub Reaches-Grows :
    {rank path rank' path' : ℕ → ℕ} {s s' : Vmm} {v d t : ℕ}
    → Grows rank path s rank' path' s'
    → Reaches rank s v d t
    → Reaches rank' s' v d t
Reaches-Grows {v} g w =
    Reaches-kept g.same_root g.same_hhdm
      (λ k t r h.
        (g.keeps k t (index (suc k) v) r (index-lt (suc k) v) h, (g.ranks t (omega (arith, r))).0))
      w
