-- ===== src/Mm/Vmm/Boot.antt =====
-- `vmm_init`: the page attribute table, the top level table, and what is mapped at boot. The
-- numbers that the boot loader gives to the kinds of memory are an argument: they are printed.
use umbral_os.Base.{ℕ, ◌+◌, bit_and, bit_or, Bool, true, false, List, [], ◌∷◌, ◌==◌, if◌then◌else◌}
use umbral_os.Base.Word.{u64, sub64, ◌<<◌}
use umbral_os.Base.Panics.{no_pat_support}
use umbral_os.Base.Action.{Action, pure, panic_if, gets, modify, ◌>>=◌, ◌>>◌}
use umbral_os.Base.Text.{text}
use umbral_os.Common.Print.Format.{Arg, Printer}
use umbral_os.Intel.{Event, record_event, cpuid, wrmsr}
use umbral_os.Limine.{MemmapEntry, MemmapType}
use umbral_os.Mm.Pmm.{alloc_page, phy_to_virt}
use umbral_os.Mm.Vmm.{
  Vmm, with_pmm, with_cpu, zero_words, vmm_map, map_unaligned, m_w, m_x, m_cache_wc, has_flag,
}
use umbral_os.Mm.Round.{page_size}

-- What the code reads of a program header; elf.h is not part of the repository.
pub data SegmentType : Type 0 where
  load gnu_relro : SegmentType
  other : ℕ → SegmentType

pub record Segment : Type 0 where
  pub p_type : SegmentType
  pub p_vaddr : ℕ
  pub p_memsz : ℕ
  pub p_flags : ℕ

-- The kernel's own image, with the program headers that lie at its start.
pub record Executable : Type 0 where
  pub virtual_base : ℕ
  pub physical_base : ℕ
  pub segments : List Segment

-- PF_X and PF_W of the ELF format.
abbrev pub pf_x : ℕ
pf_x = 1

abbrev pub pf_w : ℕ
pf_w = 2

pub elf_to_memory_flags : ℕ → ℕ
elf_to_memory_flags elf_flags =
    let flags : ℕ = 0 in
    let flags = if has_flag elf_flags pf_w then bit_or flags m_w else flags in
    if has_flag elf_flags pf_x then bit_or flags m_x else flags

abbrev pub pat_uc : ℕ
pat_uc = 0x00

abbrev pub pat_wc : ℕ
pat_wc = 0x01

abbrev pub pat_wt : ℕ
pat_wt = 0x04

abbrev pub pat_wp : ℕ
pat_wp = 0x05

abbrev pub pat_wb : ℕ
pat_wb = 0x06

abbrev pub pat_ucm : ℕ
pat_ucm = 0x07

pub pat_value : ℕ
pat_value =
    let pat : ℕ = 0 in
    let pat = bit_or pat (pat_wb << 0) in
    let pat = bit_or pat (pat_wt << 8) in
    let pat = bit_or pat (pat_ucm << 16) in
    let pat = bit_or pat (pat_uc << 24) in
    let pat = bit_or pat (pat_wp << 32) in bit_or pat (pat_wc << 40)

-- The call that each case makes.
pub map_as : MemmapEntry → ℕ → Action Vmm (Unit {0})
map_as e flags = do virt ← with_pmm (phy_to_virt e.base); vmm_map e.base virt e.len flags

-- The switch over the kind of an entry.
pub map_entry : MemmapEntry → Action Vmm (Unit {0})
map_entry e = elim e.kind [
  | MemmapType.usable ↦ map_as e m_w
  | MemmapType.acpi_reclaimable ↦ map_as e m_w
  | MemmapType.bootloader_reclaimable ↦ map_as e m_w
  | MemmapType.framebuffer ↦ map_as e (bit_or m_cache_wc m_w)
  | MemmapType.reserved_mapped ↦ map_as e 0
  | _ ↦ pure tt
]

-- The loop over the entries, each printed first.
pub map_entries : Printer → (MemmapType → ℕ) → List MemmapEntry → Action Vmm (Unit {0})
map_entries kprint type_code [] = pure tt
map_entries kprint type_code (e ∷ entries) = do
  with_cpu (
      kprint (text "0x%lx-0x%lx 0x%lu\n") (
        Arg.uint64 e.base ∷ Arg.uint64 (u64 (e.base + e.len)) ∷ Arg.uint64 (type_code e.kind) ∷ []))
  map_entry e
  map_entries kprint type_code entries

abbrev pub is_load : SegmentType → Bool
is_load SegmentType.load = true
is_load _ = false

abbrev pub is_gnu_relro : SegmentType → Bool
is_gnu_relro SegmentType.gnu_relro = true
is_gnu_relro _ = false

-- The two loops over the program headers, for the headers that the test picks.
pub map_segments : (SegmentType → Bool) → Executable → List Segment → Action Vmm (Unit {0})
map_segments test exe [] = pure tt
map_segments test exe (phdr ∷ phdrs) =
    (if test phdr.p_type
      then map_unaligned (u64 (exe.physical_base + phdr.p_vaddr))
          (u64 (exe.virtual_base + phdr.p_vaddr)) phdr.p_memsz (elf_to_memory_flags phdr.p_flags)
      else pure tt)
    >> map_segments test exe phdrs

abbrev pub msr_ia32_pat : ℕ
msr_ia32_pat = 0x277

-- `PML4 = phy_to_virt(pmm_alloc_page()); memzero(PML4, PAGE_SIZE);`
unfoldable pub make_root : Action Vmm (Unit {0})
make_root = do
  page ← with_pmm alloc_page
  virt ← with_pmm (phy_to_virt page)
  modify (λ s. record s { pml4 = virt })
  zero_words virt page_size

abbrev pub cr3 : ℕ
cr3 = 3

pub vmm_init : Printer → (MemmapType → ℕ) → List MemmapEntry → Executable → Action Vmm (Unit {0})
vmm_init kprint type_code entries exe = do
  cpuid_result ← with_cpu (cpuid 1 0)
  panic_if (bit_and cpuid_result.edx (1 << 16) == 0) no_pat_support
  with_cpu (wrmsr msr_ia32_pat pat_value)
  make_root
  map_entries kprint type_code entries
  map_segments is_load exe exe.segments
  map_segments is_gnu_relro exe exe.segments
  root ← gets (λ s. sub64 s.pml4 s.pmm.hhdm)
  with_cpu (record_event (Event.load_register cr3 root))
