-- ===== src/Kernel.antt =====
-- All variables of the kernel in one state, and the calls between its parts.
use umbral_os.Base.{ℕ, Bool, Option, List, []}
use umbral_os.Base.Text.{text}
use umbral_os.Base.Action.{Action, Outcome, ok, panicked, faulted, modify, within, ◌>>◌}
use umbral_os.Intel.{Cpu}
use umbral_os.Common.Print.Format.{Arg}
use umbral_os.Mm.Pmm.{Pmm}
use umbral_os.Mm.Pmm
use umbral_os.Mm.Vmm.{Vmm, with_pmm, with_cpu}
use umbral_os.Pic.{Pic, with_vmm}
use umbral_os.Serial.{Serial}
use umbral_os.Acpi.{Acpi}
use umbral_os.Security.{Security}
use umbral_os.Gdt.{Gdt}
use umbral_os.Interrupt.Table.{Idt}
use umbral_os.Ps2.{Driver}
use umbral_os.Console.{Writer, print, die}

pub record Kernel : Type 0 where
  pub pic : Pic
  pub writer : Writer
  pub early_init_complete : Bool
  pub has_i8042 : Bool
  pub has_smap : Bool
  pub port1_driver : Option Driver
  pub port2_driver : Option Driver
  pub gdt : List ℕ
  pub idt : List ℕ

-- A call of each part, with that part's variables.
abbrev pub on_pic : {A : Type 0} → Action Pic A → Action Kernel A
on_pic = within (λ k. k.pic) (λ p k. record k { pic = p })

abbrev pub on_vmm : {A : Type 0} → Action Vmm A → Action Kernel A
on_vmm act = on_pic (with_vmm act)

abbrev pub on_pmm : {A : Type 0} → Action Pmm A → Action Kernel A
on_pmm act = on_vmm (with_pmm act)

abbrev pub on_cpu : {A : Type 0} → Action Cpu A → Action Kernel A
on_cpu act = on_vmm (with_cpu act)

abbrev pub at_cpu : Kernel → Cpu → Kernel
at_cpu k c = record k { pic = record k.pic { vmm = record k.pic.vmm { cpu = c } } }

abbrev pub on_serial : {A : Type 0} → Action Serial A → Action Kernel A
on_serial =
    within (λ k. record { pic = k.pic; early_init_complete = k.early_init_complete })
      (λ s k. record k { pic = s.pic; early_init_complete = s.early_init_complete })

abbrev pub on_acpi : {A : Type 0} → Action Acpi A → Action Kernel A
on_acpi =
    within (λ k. record { pic = k.pic; has_i8042 = k.has_i8042 })
      (λ s k. record k { pic = s.pic; has_i8042 = s.has_i8042 })

abbrev pub on_security : {A : Type 0} → Action Security A → Action Kernel A
on_security =
    within (λ k. record { cpu = k.pic.vmm.cpu; has_smap = k.has_smap })
      (λ s k. record (at_cpu k s.cpu) { has_smap = s.has_smap })

abbrev pub on_gdt : {A : Type 0} → Action Gdt A → Action Kernel A
on_gdt =
    within (λ k. record { entries = k.gdt; cpu = k.pic.vmm.cpu })
      (λ s k. record (at_cpu k s.cpu) { gdt = s.entries })

abbrev pub on_idt : {A : Type 0} → Action Idt A → Action Kernel A
on_idt =
    within (λ k. record { entries = k.idt; cpu = k.pic.vmm.cpu })
      (λ s k. record (at_cpu k s.cpu) { idt = s.entries })

abbrev pub kprint_configure : Writer → Action Kernel (Unit {0})
kprint_configure writer = modify (λ k. record k { writer = writer })

-- `stack` is what the number buffers hold before they are written.
module _ (stack : List ℕ) where
  unfoldable pub kprint : List ℕ → List Arg → Action Kernel (Unit {0})
  kprint fmt va k = on_cpu (print stack k.writer fmt va) k

  unfoldable pub kalloc : ℕ → Action Kernel ℕ
  kalloc size = do
    kprint (text "WARNING: kalloc not fully implemented\n") []
    on_pmm (Pmm.kalloc size)

  unfoldable pub kfree : ℕ → ℕ → Action Kernel (Unit {0})
  kfree ptr size = do
    kprint (text "WARNING: kfree not fully implemented\n") []
    on_pmm (Pmm.kfree ptr size)

  -- A call of `panic` does not return: what it does follows where the panic is raised.
  abbrev pub settled : Outcome Kernel (Unit {0}) → Outcome Kernel (Unit {0})
  settled (ok _ k) = ok tt k
  settled (panicked p k) = on_cpu (die stack k.writer p) k
  settled (faulted e k) = faulted e k

  unfoldable pub settle : Action Kernel (Unit {0}) → Action Kernel (Unit {0})
  settle act k = settled (act k)
