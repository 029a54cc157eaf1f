-- ===== src/Ps2/Device.antt =====
-- The 8042 as its documents have it: a command is written to one port; command 0x60 takes the next
-- byte at the data port as the configuration.
use umbral_os.Base.{ℕ, Bool, true, false, ◌==◌, ◌&&◌, if◌then◌else◌}
use umbral_os.Intel.{Cpu, Event}
use umbral_os.Intel.Device.{after_trace}

pub record Controller : Type 0 where
  pub config : ℕ
  pub port1_enabled : Bool
  pub port2_enabled : Bool
  pub takes_config : Bool

abbrev command : ℕ → Controller → Controller
command v d =
    if v == 0xAD
    then record d { port1_enabled = false; takes_config = false }
    else if v == 0xAE
    then record d { port1_enabled = true; takes_config = false }
    else if v == 0xA7
    then record d { port2_enabled = false; takes_config = false }
    else if v == 0xA8
    then record d { port2_enabled = true; takes_config = false }
    else record d { takes_config = v == 0x60 }

abbrev pub step : Event → Controller → Controller
step (Event.out_port port value) d =
    if port == 0x64
    then command value d
    else if (port == 0x60) && d.takes_config
    then record d { config = value; takes_config = false }
    else d
step _ d = d

-- The controller after what the kernel did so far.
abbrev pub controller : Cpu → Controller → Controller
controller s d = after_trace step s.trace d
