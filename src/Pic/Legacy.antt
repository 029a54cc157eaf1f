-- ===== src/Pic/Legacy.antt =====
-- drivers/pic/8259.c: both legacy controllers are initialised and masked.
pub mod Device
mod Tests
use umbral_os.Base.{ℕ, ◌+◌, bit_or}
use umbral_os.Base.Action.{Action, ◌>>=◌, ◌>>◌}
use umbral_os.Intel.{Cpu, outb}

abbrev pub pic1 : ℕ
pic1 = 0x20

abbrev pub pic2 : ℕ
pic2 = 0xA0

abbrev pub pic_icw1_icw4 : ℕ
pic_icw1_icw4 = 0x01

abbrev pub pic_icw1_init : ℕ
pic_icw1_init = 0x10

abbrev pub pic_icw4_8086 : ℕ
pic_icw4_8086 = 0x01

unfoldable pub legacy_pic_init_and_disable : ℕ → ℕ → Action Cpu (Unit {0})
legacy_pic_init_and_disable master_offset slave_offset = do
  outb pic1 (bit_or pic_icw1_init pic_icw1_icw4)
  outb pic2 (bit_or pic_icw1_init pic_icw1_icw4)
  outb (pic1 + 1) master_offset
  outb (pic2 + 1) slave_offset
  outb (pic1 + 1) 4
  outb (pic2 + 1) 2
  outb (pic1 + 1) pic_icw4_8086
  outb (pic2 + 1) pic_icw4_8086
  outb (pic1 + 1) 0xFF
  outb (pic2 + 1) 0xFF
