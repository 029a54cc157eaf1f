-- ===== src/Ps2/Tests.antt =====
-- A controller without a second port, and the answers around it.
use umbral_os.Base.{◌^◌, ℕ, ◌+◌, ◌≡◌, ◌≢◌, refl, true, false, some, [], ◌∷◌}
use umbral_os.Base.Word.{u8}
use umbral_os.Base.Action.{ok, panicked}
use umbral_os.Base.Panics.{port1_faulty, port2_faulty}
use umbral_os.Intel.{Cpu, Event, record_event, inb}
use umbral_os.Common.Print.Format.{Arg, Printer}
use umbral_os.Pic.{Pic, on_cpu}
use umbral_os.Ps2.{send_to_device, ps2_init, reset_devices, skip_message, await_output, poll_reply}
use umbral_os.Ps2.Device.{Controller, controller}
use umbral_os.Ps2.Polls.{sent_to_device, reply_polled, polls_lem}
use umbral_os.Ps2.Laws.{
  tested, first_tested, second_tested, sent, enabled, after, given, at_cpu, off, has_second,
  with_interrupts, ps2_init_lem,
}

abbrev to_terminal : Printer
to_terminal fmt va = record_event (Event.terminal fmt)

abbrev kernel : Pic
kernel = record {
  vmm = record {
    pmm = record { hhdm = 2 ^ 47; num_pages = 16; bitmap_base = 2 ^ 47; bitmap = 0 ∷ 0 ∷ [] };
    mem = λ x. 0;
    pml4 = 2 ^ 47 + 0x1000;
    cpu = record { replies = []; trace = [] };
  };
  ioapic_base = 0;
  isa_redirection_entry = [];
  has_x2apic = false;
  lapic_base = 0;
}

abbrev device : Controller
device = record { config = 0x45; port1_enabled = true; port2_enabled = true; takes_config = false }

-- Not ready, ready, then the byte.
polled :
    poll_reply to_terminal (record { replies = 0x00 ∷ 0x01 ∷ 0xFA ∷ []; trace = [] })
    ≡ ok 0xFA (record {
      replies = [];
      trace =
          Event.in_port 0x64 0x00
          ∷ Event.in_port 0x64 0x01
          ∷ Event.in_port 0x60 0xFA
          ∷ Event.terminal (b'0' ∷ b'x' ∷ b'%' ∷ b'x' ∷ 10 ∷ 0 ∷ [])
          ∷ [];
    })
unfolding poll_reply await_output inb
polled = refl

-- Busy, then free to take a byte; no byte for the kernel, then one.
polls_lem_example :
    (send_to_device 0xF4 (record { replies = 0x02 ∷ 0x01 ∷ 0xFA ∷ []; trace = [] })
      ≡ sent_to_device 0xF4
          (some (0xFA ∷ []))
          (Event.in_port 0x64 0x02 ∷ Event.in_port 0x64 0x01 ∷ []))
    × (poll_reply to_terminal (record { replies = 0x02 ∷ 0x01 ∷ 0xFA ∷ []; trace = [] })
        ≡ reply_polled to_terminal
            (some (0xFA ∷ []))
            (Event.in_port 0x64 0x02 ∷ Event.in_port 0x64 0x01 ∷ []))
polls_lem_example = polls_lem to_terminal 0xF4 (0x02 ∷ 0x01 ∷ 0xFA ∷ []) []

ps2_init_lem_example :
    ((result : ℕ)
      → u8 result ≢ 0x55
      → (t : Cpu) × (ps2_init to_terminal (given kernel (0xFA ∷ 0x45 ∷ result ∷ 7 ∷ []))
          ≡ on_cpu (to_terminal skip_message (Arg.uint32 (u8 result) ∷ [])) (at_cpu kernel t))
        × (t.replies ≡ 7 ∷ [])
        × (controller t device ≡ off 0x45)
        × (t ≡ after kernel (7 ∷ []) (tested 0xFA 0x45 result [])))
    × ((p1 : ℕ)
        → u8 p1 ≢ 0
        → (t : Cpu) × (ps2_init to_terminal (given kernel (0xFA ∷ 0x45 ∷ 0x55 ∷ 0x20 ∷ p1 ∷ 7 ∷ []))
            ≡ panicked (port1_faulty (u8 p1)) (at_cpu kernel t))
          × ((controller t device).port1_enabled ≡ false)
          × (t ≡ after kernel (7 ∷ []) (first_tested 0xFA 0x45 0x20 p1 [])))
    × ((p2 : ℕ)
        → has_second 0x20 ≡ true
        → u8 p2 ≢ 0
        → (t : Cpu) × (ps2_init to_terminal
              (given kernel (0xFA ∷ 0x45 ∷ 0x55 ∷ 0x20 ∷ 0 ∷ p2 ∷ 7 ∷ []))
            ≡ panicked (port2_faulty (u8 p2)) (at_cpu kernel t))
          × ((controller t device).port1_enabled ≡ true)
          × (t ≡ after kernel (7 ∷ []) (second_tested 0xFA 0x45 0x20 p2 [])))
    × ((c3 : ℕ)
        → has_second 0x20 ≡ false
        → (t : Cpu) × (ps2_init to_terminal
              (given kernel (0xFA ∷ 0x45 ∷ 0x55 ∷ 0x20 ∷ 0 ∷ c3 ∷ 7 ∷ []))
            ≡ reset_devices to_terminal false (at_cpu kernel t))
          × (t.replies ≡ 7 ∷ [])
          × ((controller t device).config ≡ u8 (with_interrupts false (u8 c3)))
          × ((controller t device).port1_enabled ≡ true)
          × (t
              ≡ after kernel
                  (7 ∷ [])
                  (first_tested 0xFA 0x45 0x20 0 (sent 0xAE (enabled false c3)))))
    × ((c3 : ℕ)
        → has_second 0x20 ≡ true
        → (t : Cpu) × (ps2_init to_terminal
              (given kernel (0xFA ∷ 0x45 ∷ 0x55 ∷ 0x20 ∷ 0 ∷ 0 ∷ c3 ∷ 7 ∷ []))
            ≡ reset_devices to_terminal true (at_cpu kernel t))
          × (t.replies ≡ 7 ∷ [])
          × (controller t device ≡ record {
            config = u8 (with_interrupts true (u8 c3));
            port1_enabled = true;
            port2_enabled = true;
            takes_config = false;
          })
          × (t
              ≡ after kernel
                  (7 ∷ [])
                  (second_tested 0xFA 0x45 0x20 0 (sent 0xA8 (enabled true c3)))))
ps2_init_lem_example = ps2_init_lem to_terminal kernel device 0xFA 0x45 0x20 (7 ∷ [])
