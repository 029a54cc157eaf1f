-- ===== src/Serial.antt =====
-- drivers/serial.c: the first serial port.
pub mod Device
pub mod Write
pub mod Unseen
mod Tests
use umbral_os.Base.{
  ℕ, zero, suc, ◌+◌, ◌-◌, ◌*◌, ◌^◌, ltb, bit_and, Bool, true, false, List, [], ◌∷◌, ◌==◌, ◌!=◌,
  length, if◌then◌else◌,
}
use umbral_os.Base.Action.{Action, pure, fault, no_reply, gets, modify, within, ◌>>=◌, ◌>>◌}
use umbral_os.Base.Text.{text}
use umbral_os.Common.Print.Format.{Arg, Printer}
use umbral_os.Intel.{Cpu, inb, outb}
use umbral_os.Pic.{Pic, on_cpu}
use umbral_os.Pic.Ioapic.{enable_isa_interrupt}

abbrev pub com1 : ℕ
com1 = 0x3f8

abbrev pub irq_com1 : ℕ
irq_com1 = 4

-- The polling loop of `serial_putc`. Each round takes an answer, so that one round more than there
-- are answers is enough.
pub wait_from : ℕ → Action Cpu (Unit {0})
wait_from zero = fault no_reply
wait_from (suc rounds) = do
  let again = wait_from rounds
  status ← inb (com1 + 5)
  if bit_and status 0x20 == 0 then again else pure tt

pub serial_putc : ℕ → Action Cpu (Unit {0})
serial_putc c = do replies ← gets (λ s. s.replies); wait_from (suc (length replies)); outb com1 c

-- The loop over the bytes of the buffer.
pub serial_write : List ℕ → Action Cpu (Unit {0})
serial_write [] = pure tt
serial_write (c ∷ buf) = do
  let rest = serial_write buf
  (if c == 10 then serial_putc 13 else pure tt)
  serial_putc c
  rest

unfoldable pub serial_read : Action Cpu ℕ
serial_read = inb com1

-- A `char` as it is passed to a variadic function: with its sign, on 32 bits.
abbrev pub promote : ℕ → ℕ
promote c = if ltb c 128 then c else c + (2 ^ 32 - 2 ^ 8)

unfoldable pub serial_handle_interrupt : Printer → Action Cpu (Unit {0})
serial_handle_interrupt kprint = do
  c ← serial_read
  if c == 13 then kprint (text "\n") [] else kprint (text "%c") (Arg.int (promote c) ∷ [])

-- EARLY_INIT_COMPLETE, beside the interrupt controllers.
pub record Serial : Type 0 where
  pub pic : Pic
  pub early_init_complete : Bool

abbrev pub with_pic : {A : Type 0} → Action Pic A → Action Serial A
with_pic = within (λ s. s.pic) (λ p s. record s { pic = p })

-- The writes of `serial_early_init` to the ports.
pub configure : Action Cpu (Unit {0})
configure = do
  outb (com1 + 1) 0x00
  outb (com1 + 3) 0x80
  outb (com1 + 0) 0x01
  outb (com1 + 1) 0x00
  outb (com1 + 3) 0x03
  outb (com1 + 2) 0xC7
  outb (com1 + 4) 0x0B
  outb (com1 + 1) 0x01

pub serial_early_init : Action Serial (Unit {0})
serial_early_init = do
  with_pic (on_cpu configure)
  modify (λ s. record s { early_init_complete = true })

pub serial_init : Action Serial (Unit {0})
serial_init = do
  done ← gets (λ s. s.early_init_complete)
  (if done then pure tt else serial_early_init)
  with_pic (enable_isa_interrupt irq_com1)
