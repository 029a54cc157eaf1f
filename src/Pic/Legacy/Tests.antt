-- ===== src/Pic/Legacy/Tests.antt =====
-- Both legacy controllers at the bases that the kernel uses.
use umbral_os.Base.{◌≡◌, arith, true, []}
use umbral_os.Base.Action.{ok}
use umbral_os.Intel.{Cpu}
use umbral_os.Pic.Legacy.{pic1, pic2, legacy_pic_init_and_disable}
use umbral_os.Pic.Legacy.Device.{Device, Awaits, run, masked, legacy_pic_lem}

abbrev idle : Cpu
idle = record { replies = []; trace = [] }

abbrev started : Device
started = record {
  awaits = Awaits.mode_word;
  single = true;
  wants_mode = true;
  base = 8;
  cascade = 0;
  mode = 0;
  mask = 0;
}

legacy_pic_lem_example :
    (s' : Cpu) × (legacy_pic_init_and_disable 0x20 0x28 idle ≡ ok tt s')
    × (run pic1 s'.trace started ≡ masked 0x20 4)
    × (run pic2 s'.trace started ≡ masked 0x28 2)
legacy_pic_lem_example = legacy_pic_lem 0x20 0x28 idle started (omega arith) (omega arith)
