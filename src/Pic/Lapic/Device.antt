-- ===== src/Pic/Lapic/Device.antt =====
-- The local APIC in x2APIC mode as its manual has it: a base register that switches the mode on, and
-- registers that are written while it is on.
use umbral_os.Base.{
  ℕ, ◌+◌, ◌-◌, ◌*◌, ◌^◌, ◌<◌, ◌≡◌, refl, sym, ap, ◌∙◌, arith, bit_and, bit_or, Bool, ◌&&◌, List, [],
  ◌∷◌, ◌++◌, ◌==◌, leb, if◌then◌else◌, Bool-cases, inl, inr,
}
use mathlib.Core.List.{append_assoc, append-nil}
use umbral_os.Base.Bits.{bit, bit-lt, bit-pow, bit-bit_or, bit_and-pow, bit_or-lt}
use native.Mathlib.Nat.{one-le-pow}
use umbral_os.Base.Action.{ok, pure}
use umbral_os.Intel.Device.{after_trace, after_trace-snoc}
use umbral_os.Intel.Laws.{wrmsr_lem}
use umbral_os.Intel.{Event, wrmsr}
use umbral_os.Pic.{Pic, on_cpu}
use umbral_os.Pic.Lapic.{msr_apic_base, msr_x2apic_base}

-- The state after one more access.
abbrev pub with_event : Pic → Event → Pic
with_event s e = record s {
  vmm = record s.vmm { cpu = record s.vmm.cpu { trace = s.vmm.cpu.trace ++ (e ∷ []) } };
}

-- The accesses of `s` come first in `s'`.
abbrev pub Extends : Pic → Pic → Type 0
Extends s s' = (es : List Event) × (s'.vmm.cpu.trace ≡ s.vmm.cpu.trace ++ es)

pub Extends-trans : (s t u : Pic) → Extends s t → Extends t u → Extends s u
Extends-trans s t u (es, e) (fs, e') =
    (es ++ fs, e' ∙ ap (λ x. x ++ fs) e ∙ append_assoc s.vmm.cpu.trace es fs)

pub record Apic : Type 0 where
  pub base : ℕ
  pub registers : ℕ → ℕ

-- Both digits of the mode are on.
abbrev pub in_x2apic : Apic → Bool
in_x2apic d = (bit d.base 11 == 1) && (bit d.base 10 == 1)

abbrev pub step : Event → Apic → Apic
step (Event.write_msr msr high low) d =
    if msr == msr_apic_base
    then record d { base = high * 2 ^ 32 + low }
    else if leb msr_x2apic_base msr && in_x2apic d
    then record d { registers = λ r. if r == msr - msr_x2apic_base then low else d.registers r }
    else d
step _ d = d

-- The device after what the kernel did so far.
abbrev pub apic : Pic → Apic → Apic
apic s d = after_trace step s.vmm.cpu.trace d

-- A digit set where it is not yet.
abbrev pub with_digit : ℕ → ℕ → ℕ
with_digit m v = if bit_and v (2 ^ m) == 0 then bit_or v (2 ^ m) else v

pub bit-with_digit : (m v k : ℕ) → bit (with_digit m v) k ≡ (if k == m then 1 else bit v k)
bit-with_digit m v k = ground (
  arith,
  bit_and-pow v m,
  bit-bit_or v (2 ^ m) k,
  bit-pow m k,
  bit-lt v k,
  bit-lt v m,
  one-le-pow m 2 (omega arith),
)

pub with_digit-lt : (m v : ℕ) → 2 ^ m < 2 ^ 64 → v < 2 ^ 64 → with_digit m v < 2 ^ 64
with_digit-lt m v small fits = ground (arith, bit_or-lt 64 v (2 ^ m) fits small)

-- The base register written back with one more digit, where that digit is not set.
pub set_digit :
    (m v : ℕ) (s : Pic) (d : Apic)
    → 2 ^ m < 2 ^ 64
    → v < 2 ^ 64
    → (apic s d).base ≡ v
    → (s' : Pic) × ((if bit_and v (2 ^ m) == 0
            then on_cpu (wrmsr msr_apic_base (bit_or v (2 ^ m)))
            else pure tt)
          s
        ≡ ok tt s')
      × (s'.has_x2apic ≡ s.has_x2apic)
      × ((apic s' d).base ≡ with_digit m v)
      × ((r : ℕ) → (apic s' d).registers r ≡ (apic s d).registers r)
      × Extends s s'
set_digit m v s d small fits holds = elim (Bool-cases (bit_and v (2 ^ m) == 0)) [
  | inl unset ↦
      let (high, low, returns, _, _, whole) =
        wrmsr_lem msr_apic_base (bit_or v (2 ^ m)) s.vmm.cpu (bit_or-lt 64 v (2 ^ m) fits small) in
      let after =
        after_trace-snoc step s.vmm.cpu.trace (Event.write_msr msr_apic_base high low) d in
      (
        with_event s (Event.write_msr msr_apic_base high low),
        rw (unset, returns) refl,
        refl,
        ap (λ (x : Apic). x.base) after ∙ whole ∙ rw unset refl,
        λ r. ap (λ (x : Apic). x.registers r) after,
        (Event.write_msr msr_apic_base high low ∷ [], refl),
      )
  | inr set ↦
      (s, rw set refl, refl, holds ∙ rw set refl, λ r. refl, ([], sym (append-nil s.vmm.cpu.trace)))
]
