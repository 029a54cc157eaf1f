-- ===== src/Interrupt/Handler/Silent.antt =====
-- What of the handler the local APIC does not see: an end of interrupt is a write of 0 to its
-- register 0x0B.
use umbral_os.Base.{
  ℕ, ◌+◌, refl, Bool, false, ◌&&◌, not, Option, none, some, List, [], ◌∷◌, ◌==◌, if◌then◌else◌,
}
use umbral_os.Base.Leaves.{Leaves-bind, Leaves-then, Leaves-if}
use umbral_os.Base.Action.{Action}
use umbral_os.Base.Text.{text}
use umbral_os.Intel.{Cpu, Event, inb}
use umbral_os.Intel.Unseen.{IgnoresPorts, seen, Unseen, inb-Unseen}
use umbral_os.Common.Print.Format.{Arg, Printer}
use umbral_os.Serial.{serial_handle_interrupt, serial_read, promote, com1}
use umbral_os.Ps2.{Driver, drive, handle_port1_interrupt, handle_port2_interrupt, data_port}
use umbral_os.Console.{Writer, print}
use umbral_os.Console.Unseen.{print-Unseen}
use umbral_os.Kernel.{Kernel}
use umbral_os.Interrupt.Handler.{StackFrame, frame_lines, print_values, dump_interrupt_frame}

-- The access is an end of interrupt, for a local APIC in this mode with its registers there.
abbrev pub is_eoi : (has_x2apic : Bool) (lapic_base : ℕ) → Event → Bool
is_eoi has_x2apic base (Event.write_msr msr high low) = has_x2apic && ((msr == 0x80B) && (low == 0))
is_eoi has_x2apic base (Event.stored32 address value) =
    not has_x2apic && ((address == base + 0xB0) && (value == 0))
is_eoi has_x2apic base _ = false

-- How many there were.
abbrev pub count : Bool → ℕ → Event → ℕ → ℕ
count x2 base e n = if is_eoi x2 base e then n + 1 else n

abbrev pub eois : Kernel → ℕ
eois k = seen (count k.pic.has_x2apic k.pic.lapic_base) 0 k.pic.vmm.cpu

module _ (x2 : Bool) (base : ℕ) where
  pub ignores : IgnoresPorts (count x2 base)
  ignores = record {
    ignores_in = λ port v d. refl;
    ignores_out = λ port v d. refl;
    ignores_terminal = λ bytes d. refl;
  }

  abbrev pub Silent : {A : Type 0} → Action Cpu A → Type 0
  Silent m = Unseen (count x2 base) 0 m

  abbrev pub SilentPrinter : Printer → Type 0
  SilentPrinter kprint = (fmt : List ℕ) (va : List Arg) → Silent (kprint fmt va)

  values-Silent :
      (kprint : Printer)
      → SilentPrinter kprint
      → (values : List (List ℕ × ℕ)) → Silent (print_values kprint values)
  values-Silent kprint h [] = λ s. refl
  values-Silent kprint h ((fmt, value) ∷ rest) =
      Leaves-then (seen (count x2 base) 0) (kprint fmt (Arg.uint64 value ∷ []))
        (print_values kprint rest) (h fmt (Arg.uint64 value ∷ [])) (values-Silent kprint h rest)

  pub dump-Silent :
      (kprint : Printer)
      → SilentPrinter kprint
      → (f : StackFrame) → Silent (dump_interrupt_frame kprint f)
  unfolding dump_interrupt_frame
  dump-Silent kprint h f = values-Silent kprint h (frame_lines f)

  pub serial-Silent :
      (kprint : Printer) → SilentPrinter kprint → Silent (serial_handle_interrupt kprint)
  unfolding serial_handle_interrupt serial_read
  serial-Silent kprint h =
      Leaves-bind (seen (count x2 base) 0) (inb com1)
        (λ c.
          if c == 13 then kprint (text "\n") [] else kprint (text "%c") (Arg.int (promote c) ∷ []))
        (inb-Unseen (count x2 base) 0 ignores com1)
        (λ c.
          Leaves-if (seen (count x2 base) 0) (c == 13) (kprint (text "\n") [])
            (kprint (text "%c") (Arg.int (promote c) ∷ [])) (h (text "\n") [])
            (h (text "%c") (Arg.int (promote c) ∷ [])))

  abbrev pub DriverSilent : Option Driver → Type 0
  DriverSilent none = Unit
  DriverSilent (some f) = (byte : ℕ) → Silent (f byte)

  drive-Silent : (o : Option Driver) → DriverSilent o → (byte : ℕ) → Silent (drive o byte)
  drive-Silent none h byte = λ s. refl
  drive-Silent (some f) h byte = h byte

  pub port1-Silent : (o : Option Driver) → DriverSilent o → Silent (handle_port1_interrupt o)
  unfolding handle_port1_interrupt
  port1-Silent o h =
      Leaves-bind (seen (count x2 base) 0) (inb data_port) (drive o)
        (inb-Unseen (count x2 base) 0 ignores data_port) (drive-Silent o h)

  pub port2-Silent : (o : Option Driver) → DriverSilent o → Silent (handle_port2_interrupt o)
  unfolding handle_port2_interrupt
  port2-Silent o h =
      Leaves-bind (seen (count x2 base) 0) (inb data_port) (drive o)
        (inb-Unseen (count x2 base) 0 ignores data_port) (drive-Silent o h)

-- A driver, where there is one, that leaves the local APIC alone.
abbrev pub SilentDriver : Option Driver → Type 0
SilentDriver o = (x2 : Bool) (base : ℕ) → DriverSilent x2 base o

pub printer-Silent :
    (stack : List ℕ) (w : Writer) (x2 : Bool) (base : ℕ) → SilentPrinter x2 base (print stack w)
printer-Silent stack w x2 base = print-Unseen (count x2 base) 0 (ignores x2 base) stack w
