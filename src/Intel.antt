-- ===== src/Intel.antt =====
-- intel.c and intel.h: what the kernel asks of the processor and of the devices behind ports, model
-- specific registers and device memory. What a read answers is chosen by the environment: the
-- answers stand in a list and are taken in order. Every access is recorded.
pub mod Laws
pub mod Unseen
pub mod Device
mod Tests
use umbral_os.Base.{
  ℕ, zero, suc, ◌+◌, ◌*◌, ◌/◌, ◌%◌, ◌^◌, bit_and, bit_or, Bool, true, false, List, [], ◌∷◌, ◌++◌,
  if◌then◌else◌,
}
use umbral_os.Base.Word.{u8, u16, u32, u64, ◌<<◌, ◌>>>◌}
use umbral_os.Base.Action.{Action, Outcome, ok, faulted, no_reply, pure, fault, ◌>>=◌, ◌>>◌}

-- One access, with its address or register and the value that went over.
pub data Event : Type 0 where
  in_port out_port : (port value : ℕ) → Event
  read_msr : (msr value : ℕ) → Event
  write_msr : (msr valhigh vallow : ℕ) → Event
  loaded32 stored32 : (address value : ℕ) → Event
  run_cpuid : (eax ecx : ℕ) → Event
  load_register : (register value : ℕ) → Event
  instruction : (opcode : ℕ) → Event
  load_gdtr load_idtr : (limit base : ℕ) → Event
  load_ldtr load_tr : (selector : ℕ) → Event
  flush_gdt : (cs ds : ℕ) → Event
  terminal : (bytes : List ℕ) → Event

pub record CpuidResult : Type 0 where
  pub eax : ℕ
  pub ebx : ℕ
  pub ecx : ℕ
  pub edx : ℕ

-- `replies` are the answers still to come, `trace` the accesses so far.
pub record Cpu : Type 0 where
  pub replies : List ℕ
  pub trace : List Event

abbrev pub record_event : Event → Action Cpu (Unit {0})
record_event e s = ok tt (record s { trace = s.trace ++ (e ∷ []) })

-- The next answer, where there is one.
abbrev pub reply : Action Cpu ℕ
reply s = elim s.replies [ [] ↦ faulted no_reply s | v ∷ vs ↦ ok v (record s { replies = vs }) ]

unfoldable pub inb : ℕ → Action Cpu ℕ
inb port = do value ← reply; record_event (Event.in_port port (u8 value)); pure (u8 value)

unfoldable pub outb : ℕ → ℕ → Action Cpu (Unit {0})
outb port value = record_event (Event.out_port port (u8 value))

-- `rdmsr` leaves the register in two halves.
unfoldable pub rdmsr : ℕ → Action Cpu ℕ
rdmsr msr = do
  value ← reply
  let valhigh = u32 (value >>> 32)
  let vallow = u32 value
  record_event (Event.read_msr msr value)
  pure (bit_or (u64 (valhigh << 32)) vallow)

unfoldable pub wrmsr : ℕ → ℕ → Action Cpu (Unit {0})
wrmsr msr value = do
  let valhigh = u32 (value >>> 32)
  let vallow = bit_and value 0xffff_ffff
  record_event (Event.write_msr msr valhigh vallow)

unfoldable pub cpuid : ℕ → ℕ → Action Cpu CpuidResult
cpuid eax ecx = do
  record_event (Event.run_cpuid eax ecx)
  a ← reply
  b ← reply
  c ← reply
  d ← reply
  pure (record { eax = u32 a; ebx = u32 b; ecx = u32 c; edx = u32 d })

-- A volatile 32-bit access to device memory.
unfoldable pub load32 : ℕ → Action Cpu ℕ
load32 address = do
  value ← reply
  record_event (Event.loaded32 address (u32 value))
  pure (u32 value)

unfoldable pub store32 : ℕ → ℕ → Action Cpu (Unit {0})
store32 address value = record_event (Event.stored32 address (u32 value))
