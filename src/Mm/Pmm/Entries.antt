-- ===== src/Mm/Pmm/Entries.antt =====
-- The loops of `pmm_init` and `pmm_reclaim` over the boot loader's memory map.
use umbral_os.Base.{
  ℕ, ◌+◌, ◌*◌, ◌/◌, ◌%◌, ◌^◌, ◌≤◌, ◌<◌, ◌≡◌, ◌≢◌, refl, arith, Bool, true, false, ◌&&◌, ◌||◌, List,
  [], ◌∷◌, ltb, if◌then◌else◌, Bool-cases, All, ◌∙◌, inl, inr,
}
use umbral_os.Base.Word.{u64}
use umbral_os.Base.Action.{ok}
use umbral_os.Limine.{MemmapEntry, MemmapType, is_usable}
use umbral_os.Mm.Round.{page_size, round_up, round_up_lem}
use umbral_os.Mm.Pmm.{Pmm, highest_end, find_region, mark_entries}
use umbral_os.Mm.Pmm.Frames.{IsValid, is_free}
use umbral_os.Mm.Pmm.Runs.{in_run, mark_range_whole}

-- Page `q` lies in an entry that passes the test.
abbrev pub covers : (MemmapType → Bool) → List MemmapEntry → ℕ → Bool
covers test [] q = false
covers test (e ∷ es) q =
    test e.kind && in_run (e.base / page_size) (e.len / page_size) q || covers test es q

-- An entry that passes the test consists of whole pages, below the address `end`.
pub record WholePages (test : MemmapType → Bool) (end : ℕ) (e : MemmapEntry) : Type 0 where
  pub base_aligned : test e.kind ≡ true → e.base % page_size ≡ 0
  pub len_aligned : test e.kind ≡ true → e.len % page_size ≡ 0
  pub below : test e.kind ≡ true → e.base + e.len ≤ end

-- From `s` to `t` the pages of the entries that pass the test have become free.
pub record Freed (s t : Pmm) (test : MemmapType → Bool) (es : List MemmapEntry) : Type 0 where
  pub valid : IsValid t
  pub same_count : t.num_pages ≡ s.num_pages
  pub same_hhdm : t.hhdm ≡ s.hhdm
  pub same_base : t.bitmap_base ≡ s.bitmap_base
  pub frames : (q : ℕ) → is_free t q ≡ (covers test es q || is_free s q)

module _ (test : MemmapType → Bool) where
  pub mark_entries-Freed :
      (es : List MemmapEntry) (s : Pmm)
      → IsValid s
      → All (WholePages test (s.num_pages * page_size)) es
      → (t : Pmm) × (mark_entries test es s ≡ ok tt t) × Freed s t test es
  unfolding mark_entries
  mark_entries-Freed [] s v h = (
    s,
    refl,
    record { valid = v; same_count = refl; same_hhdm = refl; same_base = refl; frames = λ q. refl },
  )
  mark_entries-Freed (e ∷ es) s v (w, ws) = elim (Bool-cases (test e.kind)) [
    | inl passes ↦
        let (t, returns, m) =
          mark_range_whole e.base e.len true s v (w.base_aligned passes) (w.len_aligned passes)
            (w.below passes) in
        let (u, returns', f) = mark_entries-Freed es t m.valid (rw m.same_count ws) in
        (
          u,
          rw (passes, returns) returns',
          record {
            valid = f.valid;
            same_count = f.same_count ∙ m.same_count;
            same_hhdm = f.same_hhdm ∙ m.same_hhdm;
            same_base = f.same_base ∙ m.same_base;
            frames = λ q. ground (arith, passes, f.frames q, m.frames q);
          },
        )
    | inr fails ↦
        let (u, returns', f) = mark_entries-Freed es s v ws in
        (
          u,
          rw fails returns',
          record {
            valid = f.valid;
            same_count = f.same_count;
            same_hhdm = f.same_hhdm;
            same_base = f.same_base;
            frames = λ q. ground (arith, fails, f.frames q);
          },
        )
  ]

-- No entry ends above the address that the first loop of `pmm_init` finds.
abbrev pub EndsBy : ℕ → MemmapEntry → Type 0
EndsBy end e = e.base + e.len ≤ end

highest_end-le : (es : List MemmapEntry) (a : ℕ) → a ≤ highest_end es a
unfolding highest_end
highest_end-le [] a = omega arith
highest_end-le (e ∷ es) a =
    let a' = if ltb a (u64 (e.base + e.len)) then u64 (e.base + e.len) else a in
    ground (arith, highest_end-le es a')

pub highest_end-EndsBy :
    (limit : ℕ) (es : List MemmapEntry) (a : ℕ)
    → limit < 2 ^ 64
    → a ≤ limit
    → All (EndsBy limit) es
    → All (EndsBy (highest_end es a)) es × (highest_end es a ≤ limit)
unfolding highest_end
highest_end-EndsBy limit [] a l b h = (tt, b)
highest_end-EndsBy limit (e ∷ es) a l b (p, ps) =
    let a' = if ltb a (u64 (e.base + e.len)) then u64 (e.base + e.len) else a in
    let larger : (a' ≤ limit) × (e.base + e.len ≤ a') = ground (arith, p) in
    let (ends, bound) = highest_end-EndsBy limit es a' l larger.0 ps in
    ((omega (arith, larger, highest_end-le es a'), ends), bound)

-- The region of the bitmap is one of the usable entries that are longer than the bitmap.
pub find_region_lem :
    (end size : ℕ) (es : List MemmapEntry)
    → size + page_size ≤ 2 ^ 64
    → All (WholePages is_usable end) es
    → find_region es size ≢ 0
    → (find_region es size % page_size ≡ 0) × (find_region es size + round_up size page_size ≤ end)
unfolding find_region
find_region_lem end size [] l h ne = absurd (ne refl)
find_region_lem end size (e ∷ es) l (w, ws) ne =
    elim (Bool-cases (is_usable e.kind && ltb size e.len)) [
      | inl chosen ↦
          let usable : is_usable e.kind ≡ true = ground (arith, chosen) in
          let longer : size < e.len = ground (arith, chosen) in
          let whole : e.len / page_size * page_size ≡ e.len = omega (arith, w.len_aligned usable) in
          let rounded = (round_up_lem size page_size (e.len / page_size) (omega arith) l).2 in
          rw chosen (w.base_aligned usable, omega (arith, w.below usable, rounded (omega arith)))
      | inr passed ↦ rw passed (find_region_lem end size es l ws (λ none. ne (rw passed none)))
    ]
