-- ===== src/Console.antt =====
-- The writer behind `kprint` (`g_writer` of common.c), the two writers that main.c configures, and
-- `panic` and `halt`. The source hands the writer a few bytes at a time; here it gets all bytes of
-- one `kprintv` at once, in the same order.
pub mod Bytes
pub mod Lines
pub mod Messages
pub mod Panics
pub mod Unseen
mod Tests
use umbral_os.Base.{ℕ, List, [], ◌∷◌}
use umbral_os.Base.Text.{text}
use umbral_os.Base.Panics.{Panic}
use umbral_os.Base.Action.{
  Action, Outcome, ok, panicked, faulted, pure, panic, fault, out_of_bounds, halted, ◌>>=◌, ◌>>◌,
}
use umbral_os.Intel.{Cpu, Event, record_event}
use umbral_os.Common.Print.Number.{Out}
use umbral_os.Common.Print.Format.{Arg, Printer, kprintv}
use umbral_os.Serial.{serial_write}
use Messages.{format, arguments}

-- What `g_writer` may point to: nothing before `kprint_configure`.
pub data Writer : Type 0 where
  unset serial serial_and_terminal : Writer

-- `do_flanterm_write` hands the bytes on to the terminal, which is another project's library.
unfoldable pub do_flanterm_write : List ℕ → Action Cpu (Unit {0})
do_flanterm_write bytes = serial_write bytes >> record_event (Event.terminal bytes)

-- A call through `g_writer`.
unfoldable pub write_to : Writer → List ℕ → Action Cpu (Unit {0})
write_to Writer.unset bytes = fault out_of_bounds
write_to Writer.serial bytes = serial_write bytes
write_to Writer.serial_and_terminal bytes = do_flanterm_write bytes

-- What `kprintv` wrote goes out, also where it did not return.
unfoldable pub flush : Writer → Outcome Out (Unit {0}) → Action Cpu (Unit {0})
flush w (ok _ out) = write_to w out
flush w (panicked p out) = write_to w out >> panic p
flush w (faulted e out) = write_to w out >> fault e

abbrev pub cli : ℕ
cli = 0xfa

abbrev pub hlt : ℕ
hlt = 0xf4

-- The loop's rounds are alike: the run ends with the first.
unfoldable pub halt : Action Cpu (Unit {0})
halt = record_event (Event.instruction hlt) >> fault halted

unfoldable pub disable_interrupts : Action Cpu (Unit {0})
disable_interrupts = record_event (Event.instruction cli)

unfoldable pub halt_and_catch_fire : Action Cpu (Unit {0})
halt_and_catch_fire = disable_interrupts >> halt

-- `stack` is what the number buffers hold before they are written.
module _ (stack : List ℕ) (w : Writer) where
  unfoldable pub print : Printer
  print fmt va = flush w (kprintv stack fmt va [])

  -- The body of `panic`.
  unfoldable pub die : Panic → Action Cpu (Unit {0})
  die p = do
    print (text "PANIC: ") []
    print (format p) (arguments p)
    print (text "\n") []
    halt_and_catch_fire
