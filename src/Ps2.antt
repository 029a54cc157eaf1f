-- ===== src/Ps2.antt =====
-- drivers/ps2.c: the controller behind its data port and its command port.
pub mod Device
pub mod Laws
pub mod Polls
mod Tests
use umbral_os.Base.{
  ℕ, zero, suc, ◌+◌, ◌-◌, bit_and, bit_or, Bool, true, false, Option, none, some, List, [], ◌∷◌,
  ◌==◌, ◌!=◌, length, if◌then◌else◌,
}
use umbral_os.Base.Word.{u8, not8, ◌<<◌}
use umbral_os.Base.Text.{text}
use umbral_os.Base.Panics.{port1_faulty, port2_faulty}
use umbral_os.Base.Action.{
  Action, Outcome, pure, fault, no_reply, panic_if, gets, within, ◌>>=◌, ◌>>◌,
}
use umbral_os.Intel.{Cpu, inb, outb}
use umbral_os.Common.Print.Format.{Arg, Printer}
use umbral_os.Pic.{Pic, on_cpu}
use umbral_os.Pic.Ioapic.{enable_isa_interrupt}

abbrev pub data_port : ℕ
data_port = 0x60

abbrev pub command_status_port : ℕ
command_status_port = 0x64

abbrev pub irq_kb : ℕ
irq_kb = 1

abbrev pub irq_mouse : ℕ
irq_mouse = 12

-- The polling loop of `poll_reply`. Each round takes an answer, so that one round more than there
-- are answers is enough.
unfoldable pub await_output : ℕ → Action Cpu (Unit {0})
await_output zero = fault no_reply
await_output (suc rounds) = do
  let again = await_output rounds
  status ← inb command_status_port
  if bit_and status (1 << 0) == 0 then again else pure tt

unfoldable pub poll_reply : Printer → Action Cpu ℕ
poll_reply kprint = do
  replies ← gets (λ s. s.replies)
  await_output (suc (length replies))
  ret ← inb data_port
  kprint (text "0x%x\n") (Arg.uint32 ret ∷ [])
  pure ret

unfoldable pub send_command_noreply : ℕ → Action Cpu (Unit {0})
send_command_noreply command = outb command_status_port command

unfoldable pub send_command : ℕ → Action Cpu ℕ
send_command command = do outb command_status_port command; inb data_port

-- The polling loop of `send_to_device`.
unfoldable pub await_input : ℕ → Action Cpu (Unit {0})
await_input zero = fault no_reply
await_input (suc rounds) = do
  let again = await_input rounds
  status ← inb command_status_port
  if bit_and status (1 << 1) != 0 then again else pure tt

unfoldable pub send_to_device : ℕ → Action Cpu (Unit {0})
send_to_device value = do
  replies ← gets (λ s. s.replies)
  await_input (suc (length replies))
  outb data_port value

unfoldable pub write_config_byte : ℕ → Action Cpu (Unit {0})
write_config_byte config = do send_command_noreply 0x60; outb data_port config

-- `ps2_init` up to the result of the self test, with the configuration.
unfoldable pub self_test : Action Cpu (ℕ × ℕ)
self_test = do
  send_command_noreply 0xAD
  send_command_noreply 0xA7
  _ ← inb data_port
  initial ← send_command 0x20
  let config = bit_and initial (not8 (bit_or (1 << 6) (1 << 0)))
  write_config_byte config
  self_test_result ← send_command 0xAA
  pure (self_test_result, config)

-- From there to the interrupts: the answer is `has_mouse`. A faulty port makes it panic, so that
-- `has_kb` stays true.
unfoldable pub test_ports : ℕ → Action Cpu Bool
test_ports config = do
  write_config_byte config
  send_command_noreply 0xA8
  config' ← send_command 0x20
  let has_mouse = bit_and config' (1 << 5) == 0
  port1_selftest_result ← send_command 0xAB
  panic_if (port1_selftest_result != 0) (port1_faulty port1_selftest_result)
  send_command_noreply 0xAE
  let second = do
    port2_selftest_result ← send_command 0xA9
    panic_if (port2_selftest_result != 0) (port2_faulty port2_selftest_result)
    send_command_noreply 0xA8
  (if has_mouse then second else pure tt)
  pure has_mouse

unfoldable pub enable_port_interrupts : Bool → Action Cpu (Unit {0})
enable_port_interrupts has_mouse = do
  config ← send_command 0x20
  let with_kb = bit_or config 0b01
  write_config_byte (if has_mouse then bit_or with_kb 0b10 else with_kb)

unfoldable pub reset_kb : Printer → Action Cpu (Unit {0})
reset_kb kprint = do
  kprint (text "KB RESET\n") []
  send_to_device 0xFF
  _ ← poll_reply kprint
  _ ← poll_reply kprint
  kprint (text "KB Enable Scanning\n") []
  send_to_device 0xF4
  _ ← poll_reply kprint
  pure tt

unfoldable pub reset_mouse : Printer → Action Cpu (Unit {0})
reset_mouse kprint = do
  kprint (text "MOUSE RESET\n") []
  send_command_noreply 0xD4
  send_to_device 0xFF
  _ ← poll_reply kprint
  _ ← poll_reply kprint
  _ ← poll_reply kprint
  kprint (text "MOUSE Enable Scanning\n") []
  send_command_noreply 0xD4
  send_to_device 0xF4
  _ ← poll_reply kprint
  pure tt

-- The last part of `ps2_init`, with the ports that work.
unfoldable pub reset_devices : Printer → Bool → Action Pic (Unit {0})
reset_devices kprint has_mouse = do
  on_cpu (reset_kb kprint)
  (if has_mouse then on_cpu (reset_mouse kprint) else pure tt)
  enable_isa_interrupt irq_kb
  (if has_mouse then enable_isa_interrupt irq_mouse else pure tt)

abbrev pub skip_message : List ℕ
skip_message = text "PS/2 self test failed with 0x%x.\nSkipping activation of PS/2 input devices.\n"

unfoldable pub ps2_init : Printer → Action Pic (Unit {0})
ps2_init kprint = do
  (self_test_result, config) ← on_cpu self_test
  let activate = do
    has_mouse ← on_cpu (test_ports config)
    on_cpu (enable_port_interrupts has_mouse)
    reset_devices kprint has_mouse
  if self_test_result != 0x55
      then on_cpu (kprint skip_message (Arg.uint32 self_test_result ∷ []))
      else activate

abbrev pub Driver : Type 0
Driver = ℕ → Action Cpu (Unit {0})

-- `if (DRIVER) DRIVER(data);`
abbrev pub drive : Option Driver → ℕ → Action Cpu (Unit {0})
drive none byte = pure tt
drive (some driver) byte = driver byte

-- The two variables are the caller's.
unfoldable pub handle_port1_interrupt : Option Driver → Action Cpu (Unit {0})
handle_port1_interrupt port1_driver = do byte ← inb data_port; drive port1_driver byte

unfoldable pub handle_port2_interrupt : Option Driver → Action Cpu (Unit {0})
handle_port2_interrupt port2_driver = do byte ← inb data_port; drive port2_driver byte
