-- ===== src/Intel/Tests.antt =====
-- Accesses of intel.c at concrete answers.
use umbral_os.Base.{◌≡◌, refl, [], ◌∷◌}
use umbral_os.Base.Action.{ok}
use umbral_os.Intel.{Event, rdmsr, wrmsr}

read_pat :
    rdmsr 0x277 (record { replies = 0x0007_0406_0007_0406 ∷ []; trace = [] })
    ≡ ok 0x0007_0406_0007_0406
        (record { replies = []; trace = Event.read_msr 0x277 0x0007_0406_0007_0406 ∷ [] })
unfolding rdmsr
read_pat = refl

write_pat :
    wrmsr 0x277 0x0105_0007_0406 (record { replies = []; trace = [] })
    ≡ ok tt (record { replies = []; trace = Event.write_msr 0x277 0x0105 0x0007_0406 ∷ [] })
unfolding wrmsr
write_pat = refl
