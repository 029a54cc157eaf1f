-- ===== src/Main/Tests.antt =====
-- The control registers as the boot loader leaves them.
use umbral_os.Base.{ℕ, ◌<◌, ◌≡◌, ◌||◌, ◌==◌, if◌then◌else◌, [], ◌∷◌, ◌++◌}
use umbral_os.Base.Bits.{bit}
use umbral_os.Base.Action.{ok}
use umbral_os.Intel.{Event}
use umbral_os.Main.{fp_init}
use umbral_os.Main.Fp.{fp_init_lem}

fp_init_lem_example :
    (v0 v4 : ℕ) × (fp_init (record { replies = 0x8001_0015 ∷ 0x20 ∷ []; trace = [] })
      ≡ ok tt (record {
        replies = [];
        trace = [] ++ (Event.load_register 0 v0 ∷ Event.load_register 4 v4 ∷ []);
      }))
    × ((k : ℕ)
        → k < 64
        → bit v0 k ≡ (
            if k == 2
            then 0
            else if (k == 1) || ((k == 3) || (k == 5))
            then 1
            else bit 0x8001_0015 k))
    × ((k : ℕ) → bit v4 k ≡ (if (k == 9) || (k == 10) then 1 else bit 0x20 k))
fp_init_lem_example = fp_init_lem 0x8001_0015 0x20 [] []
