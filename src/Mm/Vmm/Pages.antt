-- ===== src/Mm/Vmm/Pages.antt =====
-- `vmm_map_page` with its guards.
use native.Mathlib.Decide.{dec_lt}
use umbral_os.Base.{
  ℕ, ◌*◌, ◌/◌, ◌%◌, ◌^◌, ◌<◌, ◌≡◌, refl, arith, false, ◌&&◌, ◌!=◌, ◌==◌, bit_and, if◌then◌else◌,
  Bool-cases, inl, inr,
}
use umbral_os.Base.Bits.{bit_and-mask, bit_and_step}
use umbral_os.Base.Action.{ok, panicked}
use umbral_os.Base.Panics.{
  Panic, what_not_aligned, where_not_aligned, map_at_null, write_and_execute, unknown_caching,
}
use umbral_os.Mm.Round.{page_size}
use umbral_os.Mm.Vmm.{Vmm, has_flag, m_w, m_x, m_u, m_cache_mask, caching_pat, map_page}
use umbral_os.Mm.Vmm.Entry.{Leaf, leaf}
use umbral_os.Mm.Vmm.Map.{HasTree, Mapped, map_leaf-Mapped}

-- The caching index for the two digits of the mode.
abbrev pub mode_pat : ℕ → ℕ
mode_pat flags = if flags / 8 % 4 == 0 then 0b000 else if flags / 8 % 4 == 1 then 0b010 else 0b101

-- The entry that maps a page to frame `frame` with the rights and the caching that `flags` ask for.
abbrev pub entry_for : (frame flags : ℕ) → Leaf
entry_for frame flags =
    leaf frame (has_flag flags m_w) (has_flag flags m_u) (has_flag flags m_x) (mode_pat flags)

-- Flags that ask for a known mode, and not for memory that is both written and executed.
pub record IsProper (flags : ℕ) : Type 0 where
  pub exclusive : (has_flag flags m_w && has_flag flags m_x) ≡ false
  pub known_mode : flags / 8 % 4 < 3

-- What `vmm_map_page` accepts.
pub record IsMappable (what where_ flags : ℕ) : Type 0 where
  pub what_aligned : what % page_size ≡ 0
  pub where_aligned : where_ % page_size ≡ 0
  pub not_null : 0 < where_
  pub proper : IsProper flags

mode_lem : (flags : ℕ) → bit_and flags m_cache_mask ≡ flags / 8 % 4 * 8
mode_lem flags = omega (
  arith,
  bit_and_step flags 24,
  bit_and_step (flags / 2) 12,
  bit_and_step (flags / 2 / 2) 6,
  bit_and-mask 2 (flags / 2 / 2 / 2),
)

caching_pat_lem :
    (flags : ℕ) (s : Vmm) → flags / 8 % 4 < 3 → caching_pat flags s ≡ ok (mode_pat flags) s
unfolding caching_pat
caching_pat_lem flags s h = rw (mode_lem flags) (ground arith)

caching_pat-panics :
    (flags : ℕ) (s : Vmm)
    → flags / 8 % 4 ≡ 3
    → caching_pat flags s ≡ panicked (unknown_caching 24) s
unfolding caching_pat
caching_pat-panics flags s h = rw (mode_lem flags) (ground arith)

-- From a tree of page tables and with arguments that it accepts, `vmm_map_page` maps the page: the
-- walk for it then ends in an entry that holds the frame, rights and caching asked for, and no level
-- above takes writing or executing from the kernel's accesses (the user right is the last entry's
-- alone), the walks for all other pages are as before, and the tables are a tree again. Or no page is free for a table: it panics with every
-- walk as before.
pub map_page-Mapped :
    (what where_ flags : ℕ) (s : Vmm)
    → HasTree s
    → what < 2 ^ 52
    → IsMappable what where_ flags
    → Mapped s where_ (entry_for (what / 2 ^ 12) flags) (map_page what where_ flags s)
unfolding map_page
map_page-Mapped what where_ flags s t fits m =
    let a : (what % page_size != 0) ≡ false = ground (arith, m.what_aligned) in
    let b : (where_ % page_size != 0) ≡ false = ground (arith, m.where_aligned) in
    let c : (where_ == 0) ≡ false = ground (arith, m.not_null) in
    rw (a, b, c, m.proper.exclusive, caching_pat_lem flags s m.proper.known_mode)
      (map_leaf-Mapped t.tree what flags (mode_pat flags) fits (ground arith) refl)

-- With any other arguments `vmm_map_page` panics and changes nothing.
pub map_page_refuses :
    (what where_ flags : ℕ) (s : Vmm)
    → (IsMappable what where_ flags → ⊥)
    → (e : Panic) × (map_page what where_ flags s ≡ panicked e s)
unfolding map_page
map_page_refuses what where_ flags s refused = elim (Bool-cases (what % page_size != 0)) [
  | inl a ↦ (what_not_aligned, rw a refl)
  | inr a ↦ elim (Bool-cases (where_ % page_size != 0)) [
    | inl b ↦ (where_not_aligned, rw (a, b) refl)
    | inr b ↦ elim (Bool-cases (where_ == 0)) [
      | inl c ↦ (map_at_null, rw (a, b, c) refl)
      | inr c ↦ elim (Bool-cases (has_flag flags m_w && has_flag flags m_x)) [
        | inl d ↦ (write_and_execute, rw (a, b, c, d) refl)
        | inr d ↦ elim (dec_lt (flags / 8 % 4) 3) [
          | yes known ↦ absurd (
              refused (record {
                what_aligned = ground arith;
                where_aligned = ground arith;
                not_null = ground arith;
                proper = record { exclusive = d; known_mode = known };
              }))
          | no unknown ↦
              (unknown_caching 24, rw (a, b, c, d, caching_pat-panics flags s (omega arith)) refl)
        ]
      ]
    ]
  ]
]
