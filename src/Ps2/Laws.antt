-- ===== src/Ps2/Laws.antt =====
-- The branches of `ps2_init` up to the reset of the devices, for the answers that the controller
-- gives.
use umbral_os.Base.{
  ℕ, ◌≡◌, ◌≢◌, refl, arith, bit_and, bit_or, Bool, true, false, List, [], ◌∷◌, ◌++◌, ◌==◌, ◌!=◌,
  if◌then◌else◌,
}
use umbral_os.Base.Word.{u8}
use umbral_os.Base.Panics.{port1_faulty, port2_faulty}
use umbral_os.Base.Action.{panicked}
use umbral_os.Intel.{Cpu, Event, inb, outb}
use umbral_os.Intel.Device.{after_trace-snoc}
use umbral_os.Common.Print.Format.{Arg, Printer}
use umbral_os.Pic.{Pic, on_cpu}
use umbral_os.Ps2.{
  send_command, send_command_noreply, write_config_byte, self_test, test_ports,
  enable_port_interrupts, reset_devices, ps2_init, skip_message,
}
use umbral_os.Ps2.Device.{Controller, controller}

-- The configuration without the interrupt of port 1 and without translation.
abbrev pub quiet : ℕ → ℕ
quiet config = bit_and config 0xBE

-- The same with other answers or another processor.
abbrev pub at_cpu : Pic → Cpu → Pic
at_cpu s c = record s { vmm = record s.vmm { cpu = c } }

abbrev pub given : Pic → List ℕ → Pic
given s replies = at_cpu s (record { replies = replies; trace = s.vmm.cpu.trace })

-- A second port is there by this configuration.
abbrev pub has_second : ℕ → Bool
has_second config = bit_and (u8 config) 0x20 == 0

-- The interrupts of the ports on.
abbrev pub with_interrupts : Bool → ℕ → ℕ
with_interrupts has_mouse config =
    if has_mouse then bit_or (bit_or config 0b01) 0b10 else bit_or config 0b01

-- Both ports are off, and the first does not interrupt.
abbrev pub off : ℕ → Controller
off config = record {
  config = u8 (quiet (u8 config));
  port1_enabled = false;
  port2_enabled = false;
  takes_config = false;
}

ne→!= : (a b : ℕ) → a ≢ b → (a != b) ≡ true
ne→!= a b h = ground arith

-- Accesses after a trace, one by one.
abbrev pub snocs : List Event → List Event → List Event
snocs trace [] = trace
snocs trace (e ∷ es) = snocs (trace ++ (e ∷ [])) es

abbrev pub sent : ℕ → List Event → List Event
sent value es = Event.out_port 0x64 value ∷ es

abbrev pub configured : ℕ → List Event → List Event
configured value es = Event.out_port 0x64 0x60 ∷ Event.out_port 0x60 (u8 value) ∷ es

abbrev pub answered : (command value : ℕ) → List Event → List Event
answered command value es = Event.out_port 0x64 command ∷ Event.in_port 0x60 (u8 value) ∷ es

-- The accesses up to the self test's result, by the controller's commands: 0xAD and 0xA7 switch the
-- ports off, 0x20 reads the configuration and 0x60 writes it, 0xAA asks for the self test.
abbrev pub tested : (drained config result : ℕ) → List Event → List Event
tested drained config result es = sent 0xAD (
    sent 0xA7 (
      Event.in_port 0x60 (u8 drained)
      ∷ answered 0x20 config (configured (quiet (u8 config)) (answered 0xAA result es))))

-- Up to the first port's result: 0xA8 switches the second port on, 0xAB tests the first.
abbrev pub first_tested : (drained config c2 p1 : ℕ) → List Event → List Event
first_tested drained config c2 p1 es =
    tested drained config 0x55
      (configured (quiet (u8 config)) (sent 0xA8 (answered 0x20 c2 (answered 0xAB p1 es))))

-- From there to the second port's result: 0xAE switches the first port on, 0xA9 tests the second.
abbrev pub second_tested : (drained config c2 p2 : ℕ) → List Event → List Event
second_tested drained config c2 p2 es =
    first_tested drained config c2 0 (sent 0xAE (answered 0xA9 p2 es))

-- The configuration read once more and written with the interrupts of the ports.
abbrev pub enabled : (has_mouse : Bool) → (c3 : ℕ) → List Event
enabled has_mouse c3 = answered 0x20 c3 (configured (with_interrupts has_mouse (u8 c3)) [])

-- The processor once these accesses are made, with the answers that are left.
abbrev pub after : Pic → List ℕ → List Event → Cpu
after s rest es = record { replies = rest; trace = snocs s.vmm.cpu.trace es }

module _ (kprint : Printer) (s : Pic) (d : Controller) (drained config c2 : ℕ) (rest : List ℕ) where
  init-failed :
      (result : ℕ)
      → u8 result ≢ 0x55
      → (t : Cpu) × (ps2_init kprint (given s (drained ∷ config ∷ result ∷ rest))
          ≡ on_cpu (kprint skip_message (Arg.uint32 (u8 result) ∷ [])) (at_cpu s t))
        × (t.replies ≡ rest)
        × (controller t d ≡ off config)
        × (t ≡ after s rest (tested drained config result []))
  unfolding ps2_init self_test send_command send_command_noreply write_config_byte inb outb
  init-failed result bad = (
    after s rest (tested drained config result []),
    rw (ne→!= (u8 result) 0x55 bad) refl,
    refl,
    simp after_trace-snoc refl,
    refl,
  )

  init-faulty_port1 :
      (p1 : ℕ)
      → u8 p1 ≢ 0
      → (t : Cpu) × (ps2_init kprint (given s (drained ∷ config ∷ 0x55 ∷ c2 ∷ p1 ∷ rest))
          ≡ panicked (port1_faulty (u8 p1)) (at_cpu s t))
        × ((controller t d).port1_enabled ≡ false)
        × (t ≡ after s rest (first_tested drained config c2 p1 []))
  unfolding ps2_init self_test test_ports send_command send_command_noreply write_config_byte inb
      outb
  init-faulty_port1 p1 bad = (
    after s rest (first_tested drained config c2 p1 []),
    rw (ne→!= (u8 p1) 0 bad) refl,
    simp after_trace-snoc refl,
    refl,
  )

  init-faulty_port2 :
      (p2 : ℕ)
      → has_second c2 ≡ true
      → u8 p2 ≢ 0
      → (t : Cpu) × (ps2_init kprint (given s (drained ∷ config ∷ 0x55 ∷ c2 ∷ 0 ∷ p2 ∷ rest))
          ≡ panicked (port2_faulty (u8 p2)) (at_cpu s t))
        × ((controller t d).port1_enabled ≡ true)
        × (t ≡ after s rest (second_tested drained config c2 p2 []))
  unfolding ps2_init self_test test_ports send_command send_command_noreply write_config_byte inb
      outb
  init-faulty_port2 p2 second bad = (
    after s rest (second_tested drained config c2 p2 []),
    rw (second, ne→!= (u8 p2) 0 bad) refl,
    simp after_trace-snoc refl,
    refl,
  )

  init-one_port :
      (c3 : ℕ)
      → has_second c2 ≡ false
      → (t : Cpu) × (ps2_init kprint (given s (drained ∷ config ∷ 0x55 ∷ c2 ∷ 0 ∷ c3 ∷ rest))
          ≡ reset_devices kprint false (at_cpu s t))
        × (t.replies ≡ rest)
        × ((controller t d).config ≡ u8 (with_interrupts false (u8 c3)))
        × ((controller t d).port1_enabled ≡ true)
        × (t ≡ after s rest (first_tested drained config c2 0 (sent 0xAE (enabled false c3))))
  unfolding ps2_init self_test test_ports enable_port_interrupts send_command send_command_noreply
      write_config_byte inb outb
  init-one_port c3 second = (
    after s rest (first_tested drained config c2 0 (sent 0xAE (enabled false c3))),
    rw second refl,
    refl,
    simp after_trace-snoc refl,
    simp after_trace-snoc refl,
    refl,
  )

  init-two_ports :
      (c3 : ℕ)
      → has_second c2 ≡ true
      → (t : Cpu) × (ps2_init kprint (given s (drained ∷ config ∷ 0x55 ∷ c2 ∷ 0 ∷ 0 ∷ c3 ∷ rest))
          ≡ reset_devices kprint true (at_cpu s t))
        × (t.replies ≡ rest)
        × (controller t d ≡ record {
          config = u8 (with_interrupts true (u8 c3));
          port1_enabled = true;
          port2_enabled = true;
          takes_config = false;
        })
        × (t ≡ after s rest (second_tested drained config c2 0 (sent 0xA8 (enabled true c3))))
  unfolding ps2_init self_test test_ports enable_port_interrupts send_command send_command_noreply
      write_config_byte inb outb
  init-two_ports c3 second = (
    after s rest (second_tested drained config c2 0 (sent 0xA8 (enabled true c3))),
    rw second refl,
    refl,
    simp after_trace-snoc refl,
    refl,
  )

  -- `ps2_init` for the answers of a controller. In each case the accesses are the ones given, so that
  -- every answer belongs to its command. A self test with another result than 0x55 leaves both ports
  -- off, the first one's interrupt and the translation off, and ends with a message. A faulty first
  -- port, and a faulty second port where there is one, makes it panic with the port's answer, the first
  -- port still off in the one case and on in the other. Otherwise it goes on to reset the devices, with
  -- the ports that are there on and their interrupts on in the configuration.
  pub ps2_init_lem :
      ((result : ℕ)
        → u8 result ≢ 0x55
        → (t : Cpu) × (ps2_init kprint (given s (drained ∷ config ∷ result ∷ rest))
            ≡ on_cpu (kprint skip_message (Arg.uint32 (u8 result) ∷ [])) (at_cpu s t))
          × (t.replies ≡ rest)
          × (controller t d ≡ off config)
          × (t ≡ after s rest (tested drained config result [])))
      × ((p1 : ℕ)
          → u8 p1 ≢ 0
          → (t : Cpu) × (ps2_init kprint (given s (drained ∷ config ∷ 0x55 ∷ c2 ∷ p1 ∷ rest))
              ≡ panicked (port1_faulty (u8 p1)) (at_cpu s t))
            × ((controller t d).port1_enabled ≡ false)
            × (t ≡ after s rest (first_tested drained config c2 p1 [])))
      × ((p2 : ℕ)
          → has_second c2 ≡ true
          → u8 p2 ≢ 0
          → (t : Cpu) × (ps2_init kprint (given s (drained ∷ config ∷ 0x55 ∷ c2 ∷ 0 ∷ p2 ∷ rest))
              ≡ panicked (port2_faulty (u8 p2)) (at_cpu s t))
            × ((controller t d).port1_enabled ≡ true)
            × (t ≡ after s rest (second_tested drained config c2 p2 [])))
      × ((c3 : ℕ)
          → has_second c2 ≡ false
          → (t : Cpu) × (ps2_init kprint (given s (drained ∷ config ∷ 0x55 ∷ c2 ∷ 0 ∷ c3 ∷ rest))
              ≡ reset_devices kprint false (at_cpu s t))
            × (t.replies ≡ rest)
            × ((controller t d).config ≡ u8 (with_interrupts false (u8 c3)))
            × ((controller t d).port1_enabled ≡ true)
            × (t ≡ after s rest (first_tested drained config c2 0 (sent 0xAE (enabled false c3)))))
      × ((c3 : ℕ)
          → has_second c2 ≡ true
          → (t : Cpu) × (ps2_init kprint
                (given s (drained ∷ config ∷ 0x55 ∷ c2 ∷ 0 ∷ 0 ∷ c3 ∷ rest))
              ≡ reset_devices kprint true (at_cpu s t))
            × (t.replies ≡ rest)
            × (controller t d ≡ record {
              config = u8 (with_interrupts true (u8 c3));
              port1_enabled = true;
              port2_enabled = true;
              takes_config = false;
            })
            × (t ≡ after s rest (second_tested drained config c2 0 (sent 0xA8 (enabled true c3)))))
  ps2_init_lem = (init-failed, init-faulty_port1, init-faulty_port2, init-one_port, init-two_ports)
