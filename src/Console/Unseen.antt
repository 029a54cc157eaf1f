-- ===== src/Console/Unseen.antt =====
-- No device but those behind ports sees what `kprint` does.
use umbral_os.Base.{ℕ, refl, List, []}
use umbral_os.Base.Leaves.{Leaves-then}
use umbral_os.Base.Action.{Outcome, ok, panicked, faulted, panic, fault}
use umbral_os.Intel.{Event, record_event}
use umbral_os.Intel.Unseen.{IgnoresPorts, seen, Unseen, event-Unseen}
use umbral_os.Common.Print.Number.{Out}
use umbral_os.Common.Print.Format.{Arg, kprintv}
use umbral_os.Serial.{serial_write}
use umbral_os.Serial.Unseen.{write-Unseen}
use umbral_os.Console.{Writer, write_to, do_flanterm_write, flush, print}

module _ {D : Type 0} (step : Event → D → D) (d : D) (ignores : IgnoresPorts step) where
  write_to-Unseen : (w : Writer) (bytes : List ℕ) → Unseen step d (write_to w bytes)
  unfolding write_to do_flanterm_write
  write_to-Unseen Writer.unset bytes = λ s. refl
  write_to-Unseen Writer.serial bytes = write-Unseen step d ignores bytes
  write_to-Unseen Writer.serial_and_terminal bytes =
      Leaves-then (seen step d) (serial_write bytes) (record_event (Event.terminal bytes))
        (write-Unseen step d ignores bytes)
        (event-Unseen step d (Event.terminal bytes) (ignores.ignores_terminal bytes))

  flush-Unseen : (w : Writer) (r : Outcome Out (Unit {0})) → Unseen step d (flush w r)
  unfolding flush
  flush-Unseen w (ok _ out) = write_to-Unseen w out
  flush-Unseen w (panicked p out) =
      Leaves-then (seen step d) (write_to w out) (panic p) (write_to-Unseen w out) (λ s. refl)
  flush-Unseen w (faulted e out) =
      Leaves-then (seen step d) (write_to w out) (fault e) (write_to-Unseen w out) (λ s. refl)

  pub print-Unseen :
      (stack : List ℕ) (w : Writer) (fmt : List ℕ) (va : List Arg)
      → Unseen step d (print stack w fmt va)
  unfolding print
  print-Unseen stack w fmt va = flush-Unseen w (kprintv stack fmt va [])
