-- ===== src/Mm/Vmm/Map.antt =====
-- `vmm_map_page`: three tables are found or made, and one entry is written.
use umbral_os.Base.{
  ℕ, suc, ◌+◌, ◌*◌, ◌/◌, ◌%◌, ◌^◌, ◌<◌, ◌≡◌, ◌≢◌, refl, sym, ap, ◌∙◌, arith, false, ◌==◌, some,
  if◌then◌else◌,
}
use umbral_os.Base.Action.{Action, Outcome, ok, panicked, bind_outcome}
use umbral_os.Base.Panics.{no_contiguous_pages}
use umbral_os.Base.Fields.{write_fields}
use umbral_os.Mm.Pmm.Frames.{is_free}
use umbral_os.Mm.Vmm.{Vmm, leaf_writes, has_flag, m_w, m_x, m_u, map_leaf}
use umbral_os.Mm.Vmm.Entry.{leaf-is_present, Leaf, leaf, read_leaf, read_leaf-leaf_writes}
use umbral_os.Mm.Vmm.Walk.{child, translate, index, index-lt, prefix, prefix-step, table_index_lem}
use umbral_os.Mm.Vmm.Tree.{IsTree, Grows, Grows-refl, Grows-trans, translate-Grows}
use umbral_os.Mm.Vmm.Ensure.{Ensured, ready, out_of_memory, ensure_present-Ensured}
use umbral_os.Mm.Vmm.Reach.{Reaches, at_root, below, Reaches-Grows}
use umbral_os.Mm.Vmm.Leaf.{stored-IsTree, translate-stored, translate-stored_elsewhere}

-- Some assignment of ranks and paths makes the state's tables a tree.
pub record HasTree (s : Vmm) : Type 0 where
  pub rank : ℕ → ℕ
  pub path : ℕ → ℕ
  pub tree : IsTree rank path s

-- The number of an address's page, as the walk reads it.
abbrev pub page_of : ℕ → ℕ
page_of v = v / 2 ^ 12 % 2 ^ 36

-- How mapping the page at `v` to an entry that reads as `entry` may end.
pub data Mapped (s : Vmm) (v : ℕ) (entry : Leaf) : Outcome Vmm (Unit {0}) → Type 0 where
  mapped_page :
      {s' : Vmm}
      → HasTree s'
      → (s'.pml4 ≡ s.pml4) × (s'.pmm.hhdm ≡ s.pmm.hhdm)
      → (w : ℕ) × (translate s' v ≡ some w) × (read_leaf w ≡ entry)
      → ((u : ℕ) → page_of u ≢ page_of v → translate s' u ≡ translate s u)
      → Mapped s v entry (ok tt s')
  no_page_left :
      {s' : Vmm}
      → HasTree s'
      → ((q : ℕ) → q < s'.pmm.num_pages → is_free s'.pmm q ≡ false)
      → ((u : ℕ) → translate s' u ≡ translate s u)
      → Mapped s v entry (panicked (no_contiguous_pages 1) s')

same_page : (v u : ℕ) → page_of u ≢ page_of v → prefix 0 u ≡ prefix 0 v → index 0 u ≢ index 0 v
same_page v u other p i = other (omega arith)

module _ {rank path : ℕ → ℕ} {s : Vmm} (tree : IsTree rank path s) {v : ℕ} {entry : Leaf} where
  -- One level down, for any continuation that ends well from the table found.
  descend :
      {d t : ℕ} {rank1 path1 : ℕ → ℕ} {s1 : Vmm} {r : Outcome Vmm ℕ}
      {next : ℕ → Action Vmm (Unit {0})}
      → d < 3
      → Grows rank path s rank1 path1 s1
      → Reaches rank1 s1 v (suc d) t
      → rank1 t ≡ suc (suc d)
      → path1 t ≡ prefix (suc d) v
      → ((t' : ℕ) (rank' path' : ℕ → ℕ) (s' : Vmm)
          → Grows rank path s rank' path' s'
          → Reaches rank' s' v d t'
          → rank' t' ≡ suc d
          → path' t' ≡ prefix d v
          → Mapped s v entry (next t' s'))
      → Ensured rank1 path1 s1 t (index (suc d) v) d r
      → Mapped s v entry (bind_outcome r next)
  descend {d} {t} b g w ra pa go (ready {s'} g' ra' pa' le c) =
      go _ _ _ _ (Grows-trans g g')
        (below (Reaches-Grows g' w) ((g'.ranks t (omega (arith, ra))).0 ∙ ra) le
          (ap (λ h. child h (s'.mem (t + 8 * index (suc d) v))) g'.same_hhdm ∙ c))
        ra' (pa' ∙ ap (λ x. x * 512 + index (suc d) v) pa ∙ sym (prefix-step d v b))
  descend {rank1} {path1} b g w ra pa go (out_of_memory none_free) =
      no_page_left (record { rank = rank1; path = path1; tree = g.tree }) none_free
        (translate-Grows tree g)

  -- The write of the entry, once the page table is reached.
  write_leaf :
      (what flags pat : ℕ)
      → what < 2 ^ 52
      → pat < 8
      → entry
        ≡ leaf (what / 2 ^ 12) (has_flag flags m_w) (has_flag flags m_u) (has_flag flags m_x) pat
      → (pt : ℕ) (rank' path' : ℕ → ℕ) (s' : Vmm) → Grows rank path s rank' path' s'
      → Reaches rank' s' v 0 pt
      → rank' pt ≡ 1
      → path' pt ≡ prefix 0 v
      → Mapped s v entry (
          ok tt (record s' {
            mem = λ x.
                if x == pt + 8 * index 0 v
                then write_fields (leaf_writes what flags pat) (s'.mem (pt + 8 * index 0 v))
                else s'.mem x;
          }))
  write_leaf what flags pat fits small e pt rank' path' s' g w ra pa =
      let word = write_fields (leaf_writes what flags pat) (s'.mem (pt + 8 * index 0 v)) in
      mapped_page
        (record { rank = rank'; path = path'; tree = stored-IsTree g.tree ra (index-lt 0 v) word })
        (g.same_root, g.same_hhdm)
        (
          word,
          translate-stored g.tree ra (index-lt 0 v) word v w refl
              (leaf-is_present what flags pat (s'.mem (pt + 8 * index 0 v))),
          rw e (read_leaf-leaf_writes what flags pat (s'.mem (pt + 8 * index 0 v)) fits small),
        )
        (λ u other.
          translate-stored_elsewhere g.tree ra (index-lt 0 v) word u
            (λ p. same_page v u other (p ∙ pa))
          ∙ translate-Grows tree g u)

  pub map_leaf-Mapped :
      (what flags pat : ℕ)
      → what < 2 ^ 52
      → pat < 8
      → entry
        ≡ leaf (what / 2 ^ 12) (has_flag flags m_w) (has_flag flags m_u) (has_flag flags m_x) pat
      → Mapped s v entry (map_leaf what v flags pat s)
  unfolding map_leaf
  map_leaf-Mapped what flags pat fits small e =
      rw (table_index_lem 39 v, table_index_lem 30 v, table_index_lem 21 v, table_index_lem 12 v)
        (descend (omega arith) (Grows-refl tree) at_root tree.root_rank tree.root_path
          (λ pdpt rank2 path2 s2 g2 w2 ra2 pa2.
            descend (omega arith) g2 w2 ra2 pa2
              (λ pd rank3 path3 s3 g3 w3 ra3 pa3.
                descend (omega arith) g3 w3 ra3 pa3 (write_leaf what flags pat fits small e)
                  (ensure_present-Ensured g3.tree ra3 (index-lt 1 v)))
              (ensure_present-Ensured g2.tree ra2 (index-lt 2 v)))
          (ensure_present-Ensured tree tree.root_rank (index-lt 3 v)))
