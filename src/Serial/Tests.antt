-- ===== src/Serial/Tests.antt =====
-- The serial port with answers that say, after one that is busy, that it is free.
use umbral_os.Base.{◌≡◌, refl, arith, false, [], ◌∷◌}
use umbral_os.Base.Action.{ok}
use umbral_os.Intel.{Cpu}
use umbral_os.Serial.{serial_write}
use umbral_os.Serial.Device.{Uart, uart, takes_divisor}
use umbral_os.Serial.Write.{done, busy, idle, serial_write_lem}

abbrev port : Uart
port = record {
  divisor_low = 12;
  divisor_high = 0;
  interrupts = 0;
  fifo_control = 0;
  line_control = 0x03;
  modem_control = 0;
  sent = [];
}

abbrev answering : Cpu
answering = record { replies = 0x00 ∷ 0x60 ∷ 0x60 ∷ 0x60 ∷ []; trace = [] }

-- `A` and a newline.
serial_write_lem_example :
    (s' : Cpu) × (serial_write (65 ∷ 10 ∷ []) answering ≡ ok tt s')
    × (s'.replies ≡ [])
    × (takes_divisor (uart s' port) ≡ false)
    × ((uart s' port).sent ≡ 65 ∷ 13 ∷ 10 ∷ [])
serial_write_lem_example =
    serial_write_lem (65 ∷ 10 ∷ []) [] answering port (omega arith, (omega arith, tt)) refl
      (busy refl (idle refl (idle refl (idle refl done))))
