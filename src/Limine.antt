-- ===== src/Limine.antt =====
-- What the kernel reads of the boot loader's answers (limine.h, which is not part of the
-- repository): the fields that mm.c names, and the kinds of memory that its switches name. The
-- numbers behind the kinds are left open.
use umbral_os.Base.{ℕ, Bool, true, false}

pub data MemmapType : Type 0 where
  usable reserved acpi_reclaimable acpi_nvs bad_memory : MemmapType
  bootloader_reclaimable executable_and_modules framebuffer reserved_mapped : MemmapType
  other : ℕ → MemmapType

pub record MemmapEntry : Type 0 where
  pub base : ℕ
  pub len : ℕ
  pub kind : MemmapType

-- `type == LIMINE_MEMMAP_USABLE`
abbrev pub is_usable : MemmapType → Bool
is_usable MemmapType.usable = true
is_usable _ = false
