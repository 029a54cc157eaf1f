-- ===== src/Intel/Laws.antt =====
-- The two halves of a model specific register are put together again.
use umbral_os.Base.{
  ℕ, ◌+◌, ◌*◌, ◌/◌, ◌%◌, ◌^◌, ◌<◌, ◌≡◌, refl, ◌∙◌, arith, bit_or, List, [], ◌∷◌, ◌++◌,
}
use umbral_os.Base.Bits.{bit_or-fields, bit_and-mask}
use umbral_os.Base.Word.{u32, u64, ◌<<◌, ◌>>>◌}
use umbral_os.Base.Action.{ok}
use umbral_os.Intel.{Cpu, Event, rdmsr, wrmsr}

-- `rdmsr` returns the register's 64 bits, and `wrmsr` loads EDX:EAX with the 64 bits of the value.
pub rdmsr_lem :
    (msr value : ℕ) (vs : List ℕ) (trace : List Event)
    → value < 2 ^ 64
    → rdmsr msr (record { replies = value ∷ vs; trace = trace })
      ≡ ok value (record { replies = vs; trace = trace ++ (Event.read_msr msr value ∷ []) })
unfolding rdmsr
rdmsr_lem msr value vs trace fits =
    let high : u64 (u32 (value >>> 32) << 32) ≡ value / 2 ^ 32 * 2 ^ 32 = omega arith in
    let low : u32 value < 2 ^ 32 = omega arith in
    let joined : bit_or (value / 2 ^ 32 * 2 ^ 32) (u32 value) ≡ value =
      bit_or-fields 32 (value / 2 ^ 32) (u32 value) low ∙ omega arith in
    rw (high, joined) refl

pub wrmsr_lem :
    (msr value : ℕ) (s : Cpu)
    → value < 2 ^ 64
    → (high : ℕ) × (low : ℕ) × (wrmsr msr value s
        ≡ ok tt (record s { trace = s.trace ++ (Event.write_msr msr high low ∷ []) }))
      × (high < 2 ^ 32)
      × (low < 2 ^ 32)
      × (high * 2 ^ 32 + low ≡ value)
unfolding wrmsr
wrmsr_lem msr value s fits =
    let high : u32 (value >>> 32) ≡ value / 2 ^ 32 = omega arith in
    (
      value / 2 ^ 32,
      value % 2 ^ 32,
      rw (high, bit_and-mask 32 value) refl,
      omega arith,
      omega arith,
      omega arith,
    )
