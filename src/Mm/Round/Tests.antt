-- ===== src/Mm/Round/Tests.antt =====
-- Rounding at concrete values.
use umbral_os.Base.{◌-◌, ◌^◌, ◌≡◌, refl}
use umbral_os.Mm.Round.{page_size, round_down, round_up}

round_down_runs : round_down 0x12345 page_size ≡ 0x12000
unfolding round_down
round_down_runs = refl

round_up_runs : round_up 0x12345 page_size ≡ 0x13000
unfolding round_up
round_up_runs = refl

-- Above the last multiple that fits, `round_up` wraps to 0.
round_up_wraps : round_up (2 ^ 64 - 1) page_size ≡ 0
unfolding round_up
round_up_wraps = refl
