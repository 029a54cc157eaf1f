-- ===== src/Serial/Unseen.antt =====
-- The serial port is behind ports: no other device sees what `serial_write` does.
use umbral_os.Base.{ℕ, zero, suc, ◌+◌, refl, bit_and, List, [], ◌∷◌, ◌==◌, if◌then◌else◌, length}
use umbral_os.Base.Leaves.{Leaves-bind, Leaves-then, Leaves-if}
use umbral_os.Base.Action.{pure, ◌>>◌}
use umbral_os.Intel.{Event, inb, outb}
use umbral_os.Intel.Unseen.{IgnoresPorts, seen, Unseen, inb-Unseen, outb-Unseen}
use umbral_os.Serial.{com1, wait_from, serial_putc, serial_write}

module _ {D : Type 0} (step : Event → D → D) (d : D) (ignores : IgnoresPorts step) where
  wait-Unseen : (rounds : ℕ) → Unseen step d (wait_from rounds)
  unfolding wait_from
  wait-Unseen zero = λ s. refl
  wait-Unseen (suc rounds) =
      Leaves-bind (seen step d) (inb (com1 + 5))
        (λ status. if bit_and status 0x20 == 0 then wait_from rounds else pure tt)
        (inb-Unseen step d ignores (com1 + 5))
        (λ status.
          Leaves-if (seen step d) (bit_and status 0x20 == 0) (wait_from rounds) (pure tt)
            (wait-Unseen rounds) (λ s. refl))

  putc-Unseen : (c : ℕ) → Unseen step d (serial_putc c)
  unfolding serial_putc
  putc-Unseen c s =
      Leaves-then (seen step d) (wait_from (suc (length s.replies))) (outb com1 c)
        (wait-Unseen (suc (length s.replies))) (outb-Unseen step d ignores com1 c) s

  pub write-Unseen : (buf : List ℕ) → Unseen step d (serial_write buf)
  unfolding serial_write
  write-Unseen [] = λ s. refl
  write-Unseen (c ∷ buf) =
      Leaves-then (seen step d) (if c == 10 then serial_putc 13 else pure tt)
        (serial_putc c >> serial_write buf)
        (Leaves-if (seen step d) (c == 10) (serial_putc 13) (pure tt) (putc-Unseen 13) (λ s. refl))
        (Leaves-then (seen step d) (serial_putc c) (serial_write buf) (putc-Unseen c)
          (write-Unseen buf))
