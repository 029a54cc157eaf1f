-- ===== src/Gdt/Tests.antt =====
-- The table for one address.
use umbral_os.Base.{◌≡◌, refl, [], get_or}
use umbral_os.Intel.{Cpu}
use umbral_os.Gdt.{Gdt, initial}
use umbral_os.Base.Fields.{write_fields, set_field}

abbrev fresh : Cpu
fresh = record { replies = []; trace = [] }

-- The words as a debugger shows them: 0x00AF9B000000FFFF less the limit, which 64-bit mode ignores.
first_entries : get_or initial 1 0 ≡ 0x00A0_9B00_0000_0000
unfolding initial write_fields set_field
first_entries = refl
