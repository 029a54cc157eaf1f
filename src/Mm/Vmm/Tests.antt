-- ===== src/Mm/Vmm/Tests.antt =====
-- Page tables on a machine of sixteen pages, of which 1, 4, 5 and 8 to 11 are free: page 1 becomes
-- the top level table.
use mathlib.Core.Bool.{true≢false}
use umbral_os.Base.{
  ◌==◌, ℕ, ◌+◌, ◌*◌, ◌^◌, ◌≡◌, ◌≢◌, refl, sym, ap, ◌∙◌, arith, true, false, [], ◌∷◌, if◌then◌else◌,
}
use umbral_os.Base.Action.{panicked}
use umbral_os.Base.Panics.{Panic}
use umbral_os.Mm.Round.{page_size}
use umbral_os.Mm.Pmm.Frames.{is_free}
use umbral_os.Mm.Vmm.{Vmm, map_page, vmm_map, ensure_present, m_w, m_x}
use umbral_os.Mm.Vmm.Entry.{leaf, zero-is_present}
use umbral_os.Mm.Vmm.Tree.{IsTree}
use umbral_os.Mm.Vmm.Map.{HasTree, Mapped}
use umbral_os.Mm.Vmm.Pages.{IsMappable, map_page-Mapped, map_page_refuses}
use umbral_os.Mm.Vmm.Range.{MappedRange, vmm_map-MappedRange}
use umbral_os.Mm.Vmm.Boot.{make_root}
use umbral_os.Mm.Vmm.Root.{IsReachable, Rooted, make_root-Rooted}
use umbral_os.Mm.Vmm.Ensure.{Ensured, ensure_present-Ensured}

abbrev machine : Vmm
machine = record {
  pmm = record {
    hhdm = 2 ^ 47;
    num_pages = 16;
    bitmap_base = 2 ^ 47;
    bitmap = 0b00110000 ∷ 0b00001111 ∷ [];
  };
  mem = λ x. 0;
  pml4 = 2 ^ 47 + 0x1000;
  cpu = record { replies = []; trace = [] };
}

machine-IsReachable : IsReachable machine.pmm
machine-IsReachable = record {
  valid = omega arith;
  hhdm_aligned = refl;
  mapped = omega arith;
  in_width = omega arith;
}

make_root-Rooted_example : Rooted machine (make_root machine)
make_root-Rooted_example = make_root-Rooted machine machine-IsReachable

abbrev machine_rank : ℕ → ℕ
machine_rank x = if x == 2 ^ 47 + 0x1000 then 4 else 0

machine-free : (q : ℕ) → is_free machine.pmm q ≡ true → q ≢ 1
machine-free q f e = true≢false (sym f ∙ ap (is_free machine.pmm) e)

machine-IsTree : IsTree machine_rank (λ x. 0) machine
machine-IsTree = record {
  valid = omega arith;
  hhdm_aligned = refl;
  mapped = omega arith;
  in_width = omega arith;
  root_rank = refl;
  root_path = refl;
  aligned = λ t h. ground arith;
  children = λ k t i r l h. absurd (true≢false (sym h ∙ zero-is_present));
  free_unranked = λ q l f. unranked q (machine-free q f);
}
  where
    unranked : (q : ℕ) → q ≢ 1 → machine_rank (2 ^ 47 + q * 2 ^ 12) ≡ 0
    unranked q ne = ground arith

machine-HasTree : HasTree machine
machine-HasTree = record { rank = machine_rank; path = λ x. 0; tree = machine-IsTree }

-- Memory for a device at 0xfee00000, written and not cached.
abbrev device_flags : ℕ
device_flags = 0x9

device-IsMappable : IsMappable 0xfee0_0000 (2 ^ 47 + 0xfee0_0000) device_flags
device-IsMappable = record {
  what_aligned = refl;
  where_aligned = refl;
  not_null = omega arith;
  proper = record { exclusive = refl; known_mode = omega arith };
}

map_page-Mapped_example :
    Mapped machine
      (2 ^ 47 + 0xfee0_0000)
      (leaf 0xfee00 true false false 2)
      (map_page 0xfee0_0000 (2 ^ 47 + 0xfee0_0000) device_flags machine)
map_page-Mapped_example =
    map_page-Mapped 0xfee0_0000 (2 ^ 47 + 0xfee0_0000) device_flags machine machine-HasTree
      (omega arith) device-IsMappable

vmm_map-MappedRange_example :
    MappedRange machine
      (2 ^ 47 + 0xfee0_0000)
      3
      0xfee00
      device_flags
      (vmm_map 0xfee0_0000 (2 ^ 47 + 0xfee0_0000) (3 * page_size) device_flags machine)
vmm_map-MappedRange_example =
    vmm_map-MappedRange 0xfee0_0000 (2 ^ 47 + 0xfee0_0000) 3 device_flags machine machine-HasTree
      device-IsMappable (omega arith) (omega arith) (omega arith)

map_page_refuses_example :
    (e : Panic) × (map_page 0x1000 (2 ^ 47 + 0x1000) (m_w + m_x) machine ≡ panicked e machine)
map_page_refuses_example =
    map_page_refuses 0x1000 (2 ^ 47 + 0x1000) (m_w + m_x) machine
      (λ m. true≢false m.proper.exclusive)

ensure_present-Ensured_example :
    Ensured machine_rank
      (λ x. 0)
      machine
      (2 ^ 47 + 0x1000)
      511
      2
      (ensure_present (2 ^ 47 + 0x1000 + 8 * 511) machine)
ensure_present-Ensured_example =
    ensure_present-Ensured machine-IsTree {k = 2} {t = 2 ^ 47 + 0x1000} {i = 511} refl (omega arith)
