-- ===== src/Interrupt/Handler/Eoi.antt =====
-- Ends of interrupt: how many there are at the end of a run.
use umbral_os.Base.{
  ℕ, ◌+◌, ◌%◌, ◌^◌, ◌≤◌, ◌≡◌, refl, ap, ◌∙◌, arith, Bool, true, false, ◌||◌, [], ◌∷◌, ◌++◌, ◌==◌,
  eq→==, if◌then◌else◌, Bool-cases, inl, inr,
}
use umbral_os.Base.Leaves.{final, Leaves}
use umbral_os.Base.Action.{pure}
use umbral_os.Base.Action.{Action, Outcome, ok, panicked, faulted, bind_outcome}
use umbral_os.Intel.{record_event}
use umbral_os.Intel.{Cpu, Event, wrmsr, store32}
use umbral_os.Intel.Device.{after_trace-snoc}
use umbral_os.Intel.Unseen.{seen, event-Unseen}
use umbral_os.Pic.Lapic.{lapic_write, lapic_eoi}
use umbral_os.Kernel.{on_security, Kernel, on_cpu, on_pic, at_cpu}
use umbral_os.Security
use umbral_os.Security.{enforce_smap, clac}
use umbral_os.Interrupt.Handler.Silent.{Silent, count, eois}

-- The vectors of the three interrupts that come through the I/O APIC.
abbrev pub is_isa : ℕ → Bool
is_isa vector = (vector == 0x31) || ((vector == 0x34) || (vector == 0x3C))

-- How many ends of interrupt there are at the end of a run, where there were `n` before: one more
-- where it returned from one of the three, and as many otherwise.
abbrev pub Acknowledged : ℕ → ℕ → Outcome Kernel (Unit {0}) → Type 0
Acknowledged vector n (ok _ k') = eois k' ≡ (if is_isa vector then n + 1 else n)
Acknowledged vector n (panicked p k') = eois k' ≡ n
Acknowledged vector n (faulted e k') = eois k' ≡ n

-- The local APIC's mode, its place and the ends of interrupt.
abbrev pub apic : Kernel → Bool × (ℕ × ℕ)
apic k = (k.pic.has_x2apic, (k.pic.lapic_base, eois k))

-- The registers lie in the address space.
abbrev pub IsPlaced : Kernel → Type 0
IsPlaced k = k.pic.lapic_base + 0x410 ≤ 2 ^ 64

pub on_cpu-Leaves :
    {A : Type 0} (act : Action Cpu A)
    → ((x2 : Bool) (base : ℕ) → Silent x2 base act)
    → Leaves apic (on_cpu act)
on_cpu-Leaves act h k =
    on_cpu_outcome k (act k.pic.vmm.cpu) (h k.pic.has_x2apic k.pic.lapic_base k.pic.vmm.cpu)
  where
    on_cpu_outcome :
        {A : Type 0} (k : Kernel) (r : Outcome Cpu A)
        → seen (count k.pic.has_x2apic k.pic.lapic_base) 0 (final r) ≡ eois k
        → apic (final (on_cpu (λ c. r) k)) ≡ apic k
    on_cpu_outcome k (ok a c) h = ap (λ n. (k.pic.has_x2apic, (k.pic.lapic_base, n))) h
    on_cpu_outcome k (panicked p c) h = ap (λ n. (k.pic.has_x2apic, (k.pic.lapic_base, n))) h
    on_cpu_outcome k (faulted e c) h = ap (λ n. (k.pic.has_x2apic, (k.pic.lapic_base, n))) h

after_event : Kernel → Event → Kernel
after_event k e = at_cpu k (record k.pic.vmm.cpu { trace = k.pic.vmm.cpu.trace ++ (e ∷ []) })

eoi_lem :
    (k : Kernel)
    → IsPlaced k
    → (k' : Kernel) × (on_pic lapic_eoi k ≡ ok tt k') × (eois k' ≡ eois k + 1)
unfolding lapic_eoi lapic_write wrmsr store32 after_event
eoi_lem k placed =
    let counted = λ (e : Event).
      after_trace-snoc (count k.pic.has_x2apic k.pic.lapic_base) k.pic.vmm.cpu.trace e 0 in
    elim (Bool-cases k.pic.has_x2apic) [
      | inl x2 ↦
          let e = Event.write_msr 0x80B 0 0 in (after_event k e, rw x2 refl, counted e ∙ rw x2 refl)
      | inr xapic ↦
          let e = Event.stored32 (k.pic.lapic_base + 0xB0) 0 in
          let address : (k.pic.lapic_base + 0xB0) % 2 ^ 64 ≡ k.pic.lapic_base + 0xB0 =
            omega arith in
          let same = eq→== (k.pic.lapic_base + 0xB0) (k.pic.lapic_base + 0xB0) refl in
          (after_event k e, rw (xapic, address) refl, counted e ∙ rw (xapic, same) refl)
    ]

pub not_isa-Acknowledged :
    (vector : ℕ) (k : Kernel) (r : Outcome Kernel (Unit {0}))
    → is_isa vector ≡ false
    → apic (final r) ≡ apic k
    → Acknowledged vector (eois k) r
not_isa-Acknowledged vector k (ok _ k') other h = rw other (ap (λ a. a.1.1) h)
not_isa-Acknowledged vector k (panicked p k') other h = ap (λ a. a.1.1) h
not_isa-Acknowledged vector k (faulted e k') other h = ap (λ a. a.1.1) h

pub isa-Acknowledged :
    (vector : ℕ) (k : Kernel) (r : Outcome Kernel (Unit {0}))
    → is_isa vector ≡ true
    → IsPlaced k
    → apic (final r) ≡ apic k
    → Acknowledged vector (eois k) (bind_outcome r (λ _. on_pic lapic_eoi))
isa-Acknowledged vector k (ok _ k') isa placed h =
    let place : k'.pic.lapic_base ≡ k.pic.lapic_base = ap (λ a. a.1.0) h in
    let (k'', returns, more) = eoi_lem k' (omega (arith, place, placed)) in
    let before : eois k' ≡ eois k = ap (λ a. a.1.1) h in
    rw (returns, isa) (more ∙ ap (λ n. n + 1) before)
isa-Acknowledged vector k (panicked p k') isa placed h = ap (λ a. a.1.1) h
isa-Acknowledged vector k (faulted e k') isa placed h = ap (λ a. a.1.1) h

-- The processor and the state after `enforce_smap`.
abbrev pub entered_cpu : Kernel → Cpu
entered_cpu k =
    if k.has_smap
    then record k.pic.vmm.cpu { trace = k.pic.vmm.cpu.trace ++ (Event.instruction clac ∷ []) }
    else k.pic.vmm.cpu

abbrev pub entered : Kernel → Kernel
entered k = at_cpu k (entered_cpu k)

clac_if :
    (k : Kernel) (b : Bool)
    → on_security (if b then Security.on_cpu (record_event (Event.instruction clac)) else pure tt) k
      ≡ ok tt (
          at_cpu k (
            if b
            then record k.pic.vmm.cpu {
              trace = k.pic.vmm.cpu.trace ++ (Event.instruction clac ∷ []);
            }
            else k.pic.vmm.cpu))
clac_if k true = refl
clac_if k false = refl

pub enforce_smap_lem : (k : Kernel) → on_security enforce_smap k ≡ ok tt (entered k)
unfolding enforce_smap
enforce_smap_lem k = clac_if k k.has_smap

pub eois-entered : (k : Kernel) → eois (entered k) ≡ eois k
eois-entered k = elim (Bool-cases k.has_smap) [
  | inl smap ↦ rw smap (
      event-Unseen (count k.pic.has_x2apic k.pic.lapic_base) 0 (Event.instruction clac) (λ n. refl)
        k.pic.vmm.cpu)
  | inr no_smap ↦ rw no_smap refl
]
