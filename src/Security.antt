-- ===== src/Security.antt =====
-- security.c: the processor's protections against the kernel's own use of user memory. Control
-- registers are read as answers and written as accesses.
pub mod Laws
mod Tests
use umbral_os.Base.{ℕ, bit_and, bit_or, Bool, true, false, ◌!=◌, if◌then◌else◌}
use umbral_os.Base.Word.{u64, ◌<<◌}
use umbral_os.Base.Action.{Action, pure, gets, modify, within, ◌>>=◌, ◌>>◌}
use umbral_os.Intel.{Cpu, Event, record_event, reply, cpuid}

-- HAS_SMAP, beside the processor.
pub record Security : Type 0 where
  pub cpu : Cpu
  pub has_smap : Bool

abbrev pub on_cpu : {A : Type 0} → Action Cpu A → Action Security A
on_cpu = within (λ s. s.cpu) (λ c s. record s { cpu = c })

-- The opcodes of `clac` and `stac`.
abbrev pub clac : ℕ
clac = 0x0f01ca

abbrev pub stac : ℕ
stac = 0x0f01cb

abbrev pub cr4 : ℕ
cr4 = 4

abbrev pub cpuid_7_0_ebx_smap : ℕ
cpuid_7_0_ebx_smap = 1 << 20

abbrev pub cpuid_7_0_ebx_smep : ℕ
cpuid_7_0_ebx_smep = 1 << 7

abbrev pub cpuid_7_0_ecx_umip : ℕ
cpuid_7_0_ecx_umip = 1 << 2

abbrev pub cr4_smap : ℕ
cr4_smap = 1 << 21

abbrev pub cr4_smep : ℕ
cr4_smep = 1 << 20

abbrev pub cr4_umip : ℕ
cr4_umip = 1 << 11

unfoldable pub enforce_smap : Action Security (Unit {0})
enforce_smap = do
  has_smap ← gets (λ s. s.has_smap)
  if has_smap then on_cpu (record_event (Event.instruction clac)) else pure tt

pub unenforce_smap : Action Security (Unit {0})
unenforce_smap = do
  has_smap ← gets (λ s. s.has_smap)
  if has_smap then on_cpu (record_event (Event.instruction stac)) else pure tt

pub security_init : Action Security (Unit {0})
security_init = do
  cpuid70 ← on_cpu (cpuid 7 0)
  let has_smap = bit_and cpuid70.ebx cpuid_7_0_ebx_smap != 0
  modify (λ s. record s { has_smap = has_smap })
  let has_smep = bit_and cpuid70.ebx cpuid_7_0_ebx_smep != 0
  let has_umip = bit_and cpuid70.ecx cpuid_7_0_ecx_umip != 0
  initial ← on_cpu reply
  let with_smap = if has_smap then bit_or initial cr4_smap else initial
  let with_smep = if has_smep then bit_or with_smap cr4_smep else with_smap
  let value = if has_umip then bit_or with_smep cr4_umip else with_smep
  on_cpu (record_event (Event.load_register cr4 value))
  enforce_smap
