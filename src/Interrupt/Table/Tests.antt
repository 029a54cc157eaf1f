-- ===== src/Interrupt/Table/Tests.antt =====
-- Stubs that lie sixteen bytes apart.
use umbral_os.Base.{ℕ, ◌+◌, ◌*◌, ◌%◌, []}
use umbral_os.Intel.{Cpu}

abbrev fresh : Cpu
fresh = record { replies = []; trace = [] }

abbrev stub : ℕ → ℕ
stub v = 0xffff_ffff_8000_0000 + v % 256 * 16
