-- ===== src/Pic/Legacy/Device.antt =====
-- The 8259 as its data sheet has it: an initialisation word starts a sequence, and the data port then
-- takes the vector base, the cascade where the chip is not single, and the mode where the first word
-- announced one, and after that the mask. Without a mode word the mode is 0.
use umbral_os.Base.{
  ℕ, ◌+◌, ◌/◌, ◌%◌, ◌<◌, ◌≡◌, refl, arith, Bool, true, false, List, [], ◌∷◌, ◌++◌, ◌==◌,
  if◌then◌else◌,
}
use umbral_os.Base.Action.{ok}
use umbral_os.Base.Word.{u8}
use umbral_os.Intel.Device.{after_trace, after_trace-snoc}
use umbral_os.Intel.{Cpu, Event, outb}
use umbral_os.Pic.Legacy.{pic1, pic2, legacy_pic_init_and_disable}

-- What the data port takes next.
pub data Awaits : Type 0 where
  base_word cascade_word mode_word mask_word : Awaits

pub record Device : Type 0 where
  pub awaits : Awaits
  pub single : Bool
  pub wants_mode : Bool
  pub base : ℕ
  pub cascade : ℕ
  pub mode : ℕ
  pub mask : ℕ

-- What follows the cascade's place in the sequence.
abbrev after_cascade : Device → Awaits
after_cascade d = if d.wants_mode then Awaits.mode_word else Awaits.mask_word

abbrev take_data : ℕ → Awaits → Device → Device
take_data v Awaits.base_word d = record d {
  base = v;
  awaits = if d.single then after_cascade d else Awaits.cascade_word;
}
take_data v Awaits.cascade_word d = record d { cascade = v; awaits = after_cascade d }
take_data v Awaits.mode_word d = record d { mode = v; awaits = Awaits.mask_word }
take_data v Awaits.mask_word d = record d { mask = v }

-- The first word: digit 0 announces a mode word, digit 1 a single chip. It clears the mask.
abbrev take_first : ℕ → Device → Device
take_first v d = record d {
  awaits = Awaits.base_word;
  single = v / 2 % 2 == 1;
  wants_mode = v % 2 == 1;
  mode = 0;
  mask = 0;
}

-- The device at a command port; the data port is the next one.
abbrev pub step : ℕ → Event → Device → Device
step command (Event.out_port port value) d =
    if port == command
    then (if value / 16 % 2 == 1 then take_first value d else d)
    else if port == command + 1
    then take_data value d.awaits d
    else d
step command _ d = d

abbrev pub run : ℕ → List Event → Device → Device
run command = after_trace (step command)

pub run-snoc :
    (command : ℕ) (es : List Event) (e : Event) (d : Device)
    → run command (es ++ (e ∷ [])) d ≡ step command e (run command es d)
run-snoc command = after_trace-snoc (step command)

-- Ready, with every interrupt masked.
abbrev pub masked : (base cascade : ℕ) → Device
masked base cascade = record {
  awaits = Awaits.mask_word;
  single = false;
  wants_mode = true;
  base = base;
  cascade = cascade;
  mode = 1;
  mask = 0xFF;
}

-- `legacy_pic_init_and_disable` returns, and leaves both controllers, whatever state they were in,
-- initialised as cascaded chips with a mode word, in 8086 mode at the vector bases given, the second on
-- line 2 of the first, with every interrupt masked.
pub legacy_pic_lem :
    (master slave : ℕ) (s : Cpu) (d : Device)
    → master < 256
    → slave < 256
    → (s' : Cpu) × (legacy_pic_init_and_disable master slave s ≡ ok tt s')
      × (run pic1 s'.trace d ≡ masked master 4)
      × (run pic2 s'.trace d ≡ masked slave 2)
unfolding legacy_pic_init_and_disable outb
legacy_pic_lem master slave s d a b =
    let m : u8 master ≡ master = omega arith in
    let n : u8 slave ≡ slave = omega arith in
    (_, refl, simp (run-snoc, m) refl, simp (run-snoc, n) refl)
