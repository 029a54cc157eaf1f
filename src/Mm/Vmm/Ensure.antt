-- ===== src/Mm/Vmm/Ensure.antt =====
-- `vmm_ensure_present`: the table below an entry, made where there is none.
use mathlib.Core.Path.{subst}
use umbral_os.Base.{
  ℕ, suc, ◌+◌, ◌*◌, ◌^◌, ◌<◌, ◌≡◌, refl, sym, ap, ◌∙◌, arith, true, false, ◌&&◌, ltb, leb,
  if◌then◌else◌, Bool-cases, inl, inr,
}
use umbral_os.Base.Action.{Outcome, ok, panicked}
use umbral_os.Base.Panics.{no_contiguous_pages}
use umbral_os.Base.Fields.{write_fields}
use umbral_os.Base.Word.{u64, ◌<<◌}
use umbral_os.Mm.Round.{page_size}
use umbral_os.Mm.Pmm.{Pmm, alloc_page, phy_to_virt}
use umbral_os.Mm.Pmm.Frames.{IsValid, is_free}
use umbral_os.Mm.Pmm.Alloc.{Searched, found, exhausted, stop_before_end, alloc_pages-Searched}
use umbral_os.Mm.Pmm.Laws.{Fit, Searched-Fit}
use umbral_os.Mm.Vmm.{Vmm, is_present, entry_addr, table_writes, install_table, ensure_present}
use umbral_os.Mm.Vmm.Entry.{table-is_present, table-is_large, table-is_open, table-entry_addr}
use umbral_os.Mm.Vmm.Walk.{child, leads}
use umbral_os.Mm.Vmm.Tree.{IsTree, Grows, Grows-refl}
use umbral_os.Mm.Vmm.Install.{installed, installed_lem}

-- A page was found, or the allocator panicked because none is free.
pub data OnePage (s : Pmm) : Outcome Pmm ℕ → Type 0 where
  one_page : {a : ℕ} {p : Pmm} → Fit s 1 a p → OnePage s (ok a p)
  no_page :
      ((q : ℕ) → q < s.num_pages → is_free s q ≡ false)
      → OnePage s (panicked (no_contiguous_pages 1) s)

Searched-OnePage : {s : Pmm} {r : Outcome Pmm ℕ} → Searched s 1 0 r → OnePage s r
Searched-OnePage {s} (found {k} {t} a b c d e m) = one_page (Searched-Fit (found a b c d e m) refl)
Searched-OnePage {s} (exhausted none_fits) =
    rw (stop_before_end s 1 (λ h. omega arith))
      (no_page (λ q l. ground (arith, none_fits q (omega arith) l (omega arith))))

pub alloc_page-OnePage : (s : Pmm) → IsValid s → OnePage s (alloc_page s)
unfolding alloc_page
alloc_page-OnePage s v = Searched-OnePage (alloc_pages-Searched 1 s v)

pub data Ensured (rank path : ℕ → ℕ) (s : Vmm) (t i k : ℕ) : Outcome Vmm ℕ → Type 0 where
  ready :
      {pointer : ℕ} {s' : Vmm} {rank' path' : ℕ → ℕ}
      → Grows rank path s rank' path' s'
      → rank' pointer ≡ suc k
      → path' pointer ≡ path t * 512 + i
      → leads (s'.mem (t + 8 * i)) ≡ true
      → child s.pmm.hhdm (s'.mem (t + 8 * i)) ≡ pointer
      → Ensured rank path s t i k (ok pointer s')
  out_of_memory :
      ((q : ℕ) → q < s.pmm.num_pages → is_free s.pmm q ≡ false)
      → Ensured rank path s t i k (panicked (no_contiguous_pages 1) s)

-- The pointer that `vmm_ensure_present` returns.
pointer_lem : (hhdm w : ℕ) → u64 (hhdm + u64 (entry_addr w << 12)) ≡ child hhdm w
pointer_lem hhdm w = omega arith

module _ {rank path : ℕ → ℕ} {s : Vmm} (tree : IsTree rank path s) {k t i : ℕ}
    (is_table : rank t ≡ suc (suc k)) (in_table : i < 512) where
  ensure_there :
      is_present (s.mem (t + 8 * i)) ≡ true
      → Ensured rank path s t i k (ensure_present (t + 8 * i) s)
  unfolding ensure_present phy_to_virt
  ensure_there here =
      let (le, ra, pa) = tree.children k t i is_table in_table here in
      let pointer = pointer_lem s.pmm.hhdm (s.mem (t + 8 * i)) in
      rw (here, pointer) (ready (Grows-refl tree) ra pa le refl)

  -- The word that names the new table, over what the entry held when the table was zeroed.
  abbrev new_word : {a : ℕ} {p : Pmm} → Fit s.pmm 1 a p → ℕ
  new_word {a} fit =
      let virt = s.pmm.hhdm + fit.page * 2 ^ 12 in
      write_fields (table_writes a) (
        if leb virt (t + 8 * i) && ltb (t + 8 * i) (virt + page_size) then 0 else s.mem (t + 8 * i))

  new_word-entry_addr :
      {a : ℕ} {p : Pmm} (fit : Fit s.pmm 1 a p) → entry_addr (new_word fit) ≡ fit.page
  new_word-entry_addr {a} fit =
      let small : a < 2 ^ 52 = omega (arith, fit.address, fit.in_range, tree.in_width) in
      let virt = s.pmm.hhdm + fit.page * 2 ^ 12 in
      table-entry_addr a
        (if leb virt (t + 8 * i) && ltb (t + 8 * i) (virt + page_size)
          then 0
          else s.mem (t + 8 * i))
        small
      ∙ omega (arith, fit.address)

  new_word-leads : {a : ℕ} {p : Pmm} (fit : Fit s.pmm 1 a p) → leads (new_word fit) ≡ true
  new_word-leads {a} fit =
      let virt = s.pmm.hhdm + fit.page * 2 ^ 12 in
      let old =
        if leb virt (t + 8 * i) && ltb (t + 8 * i) (virt + page_size)
        then 0
        else s.mem (t + 8 * i) in
      rw (table-is_present a old, table-is_large a old, table-is_open a old) refl

  ensure_absent :
      {r : Outcome Pmm ℕ}
      → OnePage s.pmm r
      → alloc_page s.pmm ≡ r
      → is_present (s.mem (t + 8 * i)) ≡ false
      → Ensured rank path s t i k (ensure_present (t + 8 * i) s)
  unfolding ensure_present install_table phy_to_virt
  ensure_absent (one_page {a} {p} fit) e absent =
      let word = new_word fit in
      let names = new_word-leads fit in
      let after =
        installed tree is_table in_table absent fit word names (new_word-entry_addr fit) in
      let (grown, here, there, ra, pa) =
        installed_lem tree is_table in_table absent fit word names (new_word-entry_addr fit) in
      let at_page : u64 (p.hhdm + a) ≡ s.pmm.hhdm + fit.page * 2 ^ 12 =
        rw fit.marks.same_hhdm (omega (arith, fit.address, fit.in_range, tree.mapped)) in
      let pointer : u64 (p.hhdm + u64 (entry_addr (after.mem (t + 8 * i)) << 12))
          ≡ s.pmm.hhdm + fit.page * 2 ^ 12 =
        ap (λ h. u64 (h + u64 (entry_addr (after.mem (t + 8 * i)) << 12))) fit.marks.same_hhdm
        ∙ pointer_lem s.pmm.hhdm (after.mem (t + 8 * i))
        ∙ there in
      rw (absent, e, at_page)
        (subst (λ x. Ensured rank path s t i k (ok x after)) (sym pointer)
          (ready grown ra pa (ap leads here ∙ names) there))
  ensure_absent (no_page none_free) e absent = rw (absent, e) (out_of_memory none_free)

  -- `vmm_ensure_present` on an entry that may lead to a table: it returns that table, which was there
  -- or is new, or it panics because no page is free.
  pub ensure_present-Ensured : Ensured rank path s t i k (ensure_present (t + 8 * i) s)
  ensure_present-Ensured = elim (Bool-cases (is_present (s.mem (t + 8 * i)))) [
    | inl here ↦ ensure_there here
    | inr absent ↦ ensure_absent (alloc_page-OnePage s.pmm tree.valid) refl absent
  ]
