-- ===== src/Mm/Vmm/Walk.antt =====
-- The processor's walk through the page tables: four levels, each reached by the frame number in the
-- entry above. A table of depth `suc d` leads to tables of depth `d`; depth 0 holds the pages. An upper
-- entry that takes a right from the kernel's accesses counts as none, so that the rights in the last
-- entry are those that the kernel has. The user bit is not combined over the levels.
use umbral_os.Base.{
  ℕ, zero, suc, ◌+◌, ◌*◌, ◌/◌, ◌%◌, ◌^◌, ◌<◌, ◌≡◌, refl, ap, ◌∙◌, arith, Bool, true, false, not,
  ◌&&◌, ◌==◌, Option, none, some, if◌then◌else◌,
}
use umbral_os.Base.Fields.{get_field}
use umbral_os.Base.Word.{u16, u64}
use umbral_os.Base.Bits.{bit_and-mask}
use umbral_os.Mm.Vmm.{Vmm, is_present, is_large, entry_addr, table_index}

abbrev pub index : ℕ → ℕ → ℕ
index zero v = v / 2 ^ 12 % 512
index (suc zero) v = v / 2 ^ 21 % 512
index (suc (suc zero)) v = v / 2 ^ 30 % 512
index (suc (suc (suc d))) v = v / 2 ^ 39 % 512

pub index-lt : (d v : ℕ) → index d v < 512
index-lt zero v = omega arith
index-lt (suc zero) v = omega arith
index-lt (suc (suc zero)) v = omega arith
index-lt (suc (suc (suc d))) v = omega arith

pub table_index_lem : (shift v : ℕ) → table_index shift v ≡ v / 2 ^ shift % 512
table_index_lem shift v = ap u16 (bit_and-mask 9 (v / 2 ^ shift)) ∙ omega arith

-- The pointer by which the kernel reaches the table that an entry names.
abbrev pub child : (hhdm w : ℕ) → ℕ
child hhdm w = u64 (hhdm + entry_addr w * 2 ^ 12)

-- An entry of an upper level that takes nothing from the rights of the kernel's own accesses: they may
-- write and execute.
abbrev pub is_open : ℕ → Bool
is_open w = (get_field 1 1 w == 1) && (get_field 63 1 w == 0)

abbrev pub leads : ℕ → Bool
leads w = is_present w && (not (is_large w) && is_open w)

-- The word that maps `v`, below a table at `t`.
abbrev pub lookup : (mem : ℕ → ℕ) → (hhdm d t v : ℕ) → Option ℕ
lookup mem hhdm zero t v = let w = mem (t + 8 * index 0 v) in if is_present w then some w else none
lookup mem hhdm (suc d) t v =
    let w = mem (t + 8 * index (suc d) v) in
    let below = lookup mem hhdm d (child hhdm w) v in if leads w then below else none

abbrev pub translate : Vmm → ℕ → Option ℕ
translate s v = lookup s.mem s.pmm.hhdm 3 s.pml4 v

-- The indices above depth `d`, as one number.
abbrev pub prefix : ℕ → ℕ → ℕ
prefix zero v = v / 2 ^ 21 % 2 ^ 27
prefix (suc zero) v = v / 2 ^ 30 % 2 ^ 18
prefix (suc (suc zero)) v = v / 2 ^ 39 % 2 ^ 9
prefix (suc (suc (suc d))) v = 0

pub prefix-step : (d v : ℕ) → d < 3 → prefix d v ≡ prefix (suc d) v * 512 + index (suc d) v
prefix-step zero v h = omega arith
prefix-step (suc zero) v h = omega arith
prefix-step (suc (suc zero)) v h = omega arith
prefix-step (suc (suc (suc d))) v h = absurd (omega arith)

pub lookup-absent :
    (mem : ℕ → ℕ) (hhdm d t v : ℕ)
    → is_present (mem (t + 8 * index d v)) ≡ false
    → lookup mem hhdm d t v ≡ none
lookup-absent mem hhdm zero t v h = rw h refl
lookup-absent mem hhdm (suc d) t v h = rw h refl

pub lookup-leads :
    (mem : ℕ → ℕ) (hhdm d t v : ℕ)
    → leads (mem (t + 8 * index (suc d) v)) ≡ true
    → lookup mem hhdm (suc d) t v ≡ lookup mem hhdm d (child hhdm (mem (t + 8 * index (suc d) v))) v
lookup-leads mem hhdm d t v h = rw h refl
