-- ===== src/Security/Tests.antt =====
-- A processor with SMAP and UMIP, and without SMEP.
use umbral_os.Base.{ℕ, ◌≡◌, true, false, [], ◌∷◌}
use umbral_os.Base.Bits.{bit}
use umbral_os.Base.Action.{ok}
use umbral_os.Intel.{Event}
use umbral_os.Security.{security_init, clac, cr4}
use umbral_os.Security.Laws.{protected_bit, security_init_lem}

security_init_lem_example :
    (value : ℕ) × (security_init (record {
      cpu = record { replies = 7 ∷ 0x10_0000 ∷ 4 ∷ 0 ∷ 0x620 ∷ []; trace = [] };
      has_smap = false;
    })
      ≡ ok tt (record {
        cpu = record {
          replies = [];
          trace = Event.run_cpuid 7 0 ∷ Event.load_register cr4 value ∷ Event.instruction clac ∷ [];
        };
        has_smap = true;
      }))
    × ((k : ℕ) → bit value k ≡ protected_bit 0x10_0000 4 0x620 k)
security_init_lem_example = security_init_lem 7 0x10_0000 4 0 0x620 [] [] false
