-- ===== src/Pic/Lapic/Init.antt =====
-- What `lapic_init_begin` leaves in the local APIC of a processor with x2APIC.
use umbral_os.Base.{
  ℕ, ◌+◌, ◌-◌, ◌^◌, ◌<◌, ◌≡◌, refl, sym, ap, ◌∙◌, arith, bit_and, Bool, true, false, ◌&&◌, List, [],
  ◌∷◌, ◌++◌, ◌==◌, ◌!=◌, ◌||◌, leb, if◌then◌else◌,
}
use mathlib.Core.List.{append-nil}
use umbral_os.Base.Bits.{bit, bit_and-pow}
use umbral_os.Base.Word.{u32}
use umbral_os.Base.Action.{ok}
use umbral_os.Intel.Device.{after_trace-snoc}
use umbral_os.Intel.Laws.{rdmsr_lem}
use umbral_os.Intel.{Event, cpuid, wrmsr}
use umbral_os.Pic.{Pic}
use umbral_os.Pic.Lapic.{
  lapic_write, mask_and_enable, enter_x2apic, start, lapic_init_begin, msr_apic_base,
  msr_x2apic_base,
}
use umbral_os.Pic.Lapic.Device.{
  Apic, apic, step, in_x2apic, with_digit, with_digit-lt, bit-with_digit, set_digit, with_event,
  Extends, Extends-trans,
}

-- A local vector table entry that the kernel knows of.
abbrev pub is_lvt : ℕ → Bool
is_lvt r = leb 0x32 r && leb r 0x37

-- The registers with every such entry masked, and the APIC on with the spurious vector 255.
abbrev pub started : (ℕ → ℕ) → ℕ → ℕ
started f r = if r == 0x0F then 0x1FF else if is_lvt r then 0x1_0000 else f r

abbrev started_from : ℕ → ℕ → ℕ
started_from r old = started (λ x. old) r

abbrev write : ℕ → ℕ → Pic → Pic
write reg value s = with_event s (Event.write_msr (msr_x2apic_base + reg) 0 value)

abbrev put : ℕ → ℕ → Apic → Apic
put reg value d = record d { registers = λ r. if r == reg then value else d.registers r }

apic-write :
    (reg value : ℕ) (s : Pic) (d : Apic)
    → in_x2apic (apic s d) ≡ true
    → apic (write reg value s) d ≡ put reg value (apic s d)
apic-write reg value s d on =
    let other : (msr_x2apic_base + reg == msr_apic_base) ≡ false = ground arith in
    let past : leb msr_x2apic_base (msr_x2apic_base + reg) ≡ true = ground arith in
    let number : msr_x2apic_base + reg - msr_x2apic_base ≡ reg = omega arith in
    after_trace-snoc step s.vmm.cpu.trace (Event.write_msr (msr_x2apic_base + reg) 0 value) d
    ∙ rw (other, past, number, on) refl

abbrev writes : List (ℕ × ℕ) → Pic → Pic
writes [] s = s
writes ((reg, value) ∷ rest) s = writes rest (write reg value s)

abbrev puts : List (ℕ × ℕ) → Apic → Apic
puts [] d = d
puts ((reg, value) ∷ rest) d = puts rest (put reg value d)

writes-Extends : (table : List (ℕ × ℕ)) (s : Pic) → Extends s (writes table s)
writes-Extends [] s = ([], sym (append-nil s.vmm.cpu.trace))
writes-Extends ((reg, value) ∷ rest) s =
    Extends-trans s (write reg value s) (writes rest (write reg value s))
      (Event.write_msr (msr_x2apic_base + reg) 0 value ∷ [], refl)
      (writes-Extends rest (write reg value s))

apic-writes :
    (table : List (ℕ × ℕ)) (s : Pic) (d : Apic)
    → in_x2apic (apic s d) ≡ true
    → apic (writes table s) d ≡ puts table (apic s d)
apic-writes [] s d on = refl
apic-writes ((reg, value) ∷ rest) s d on =
    let one = apic-write reg value s d on in
    apic-writes rest (write reg value s) d (ap in_x2apic one ∙ on) ∙ ap (puts rest) one

abbrev table : List (ℕ × ℕ)
table =
    (0x32, 0x1_0000)
    ∷ (0x33, 0x1_0000)
    ∷ (0x34, 0x1_0000)
    ∷ (0x35, 0x1_0000)
    ∷ (0x36, 0x1_0000)
    ∷ (0x37, 0x1_0000)
    ∷ (0x0F, 0x1FF)
    ∷ []

puts-table : (d : Apic) (r : ℕ) → (puts table d).registers r ≡ started d.registers r
puts-table d r = ground arith

mask_and_enable_lem :
    (s : Pic) (d : Apic)
    → s.has_x2apic ≡ true
    → in_x2apic (apic s d) ≡ true
    → (mask_and_enable s ≡ ok tt (writes table s))
      × ((apic (writes table s) d).base ≡ (apic s d).base)
      × ((r : ℕ) → (apic (writes table s) d).registers r ≡ started (apic s d).registers r)
unfolding mask_and_enable lapic_write wrmsr
mask_and_enable_lem s d x2 on =
    let all = apic-writes table s d on in
    (
      rw x2 refl,
      ap (λ (x : Apic). x.base) all,
      λ r. ap (λ (x : Apic). x.registers r) all ∙ puts-table (apic s d) r,
    )

-- The kernel once it has asked what the processor has and where the registers are.
abbrev pub asked : Pic → ℕ → List ℕ → Pic
asked s base rest = record s {
  has_x2apic = true;
  vmm = record s.vmm {
    cpu = record {
      replies = rest;
      trace =
          (s.vmm.cpu.trace ++ (Event.run_cpuid 1 0 ∷ []))
          ++ (Event.read_msr msr_apic_base base ∷ []);
    };
  };
}

apic-asked : (s : Pic) (base : ℕ) (rest : List ℕ) (d : Apic) → apic (asked s base rest) d ≡ apic s d
apic-asked s base rest d =
    after_trace-snoc step (s.vmm.cpu.trace ++ (Event.run_cpuid 1 0 ∷ []))
      (Event.read_msr msr_apic_base base) d
    ∙ after_trace-snoc step s.vmm.cpu.trace (Event.run_cpuid 1 0) d

asks :
    (a b c e v : ℕ) (rest : List ℕ) (s : Pic)
    → s.vmm.cpu.replies ≡ a ∷ b ∷ c ∷ e ∷ v ∷ rest
    → bit (u32 c) 21 ≡ 1
    → v < 2 ^ 64
    → lapic_init_begin s ≡ start true v (asked s v rest)
unfolding lapic_init_begin cpuid
asks a b c e v rest s next reported fits =
    let there : (bit_and (u32 c) (2 ^ 21) != 0) ≡ true = ground (arith, bit_and-pow (u32 c) 21) in
    rw
      (
        next,
        there,
        rdmsr_lem msr_apic_base v rest (s.vmm.cpu.trace ++ (Event.run_cpuid 1 0 ∷ [])) fits,
      )
      refl

-- From a value that the base register holds, the mode is switched on and the registers are written.
start_lem :
    (v : ℕ) (s : Pic) (d : Apic)
    → s.has_x2apic ≡ true
    → v < 2 ^ 64
    → (apic s d).base ≡ v
    → (s' : Pic) × (start true v s ≡ ok tt s')
      × (s'.has_x2apic ≡ true)
      × ((apic s' d).base ≡ with_digit 10 (with_digit 11 v))
      × ((r : ℕ) → (apic s' d).registers r ≡ started (apic s d).registers r)
      × Extends s s'
unfolding start enter_x2apic
start_lem v s d there fits holds =
    let fits' = with_digit-lt 11 v (omega arith) fits in
    let (t, enables, x2, base, kept, more) = set_digit 11 v s d (omega arith) fits holds in
    let (t', enters, x2', base', kept', more') =
      set_digit 10 (with_digit 11 v) t d (omega arith) fits' base in
    let on : in_x2apic (apic t' d) ≡ true = ground (
      arith,
      ap (λ x. bit x 10) base' ∙ bit-with_digit 10 (with_digit 11 v) 10,
      ap (λ x. bit x 11) base' ∙ bit-with_digit 10 (with_digit 11 v) 11,
      bit-with_digit 11 v 11,
    ) in
    let (masks, base_stays, table_kept) = mask_and_enable_lem t' d (x2' ∙ x2 ∙ there) on in
    (
      writes table t',
      rw (enables, enters, masks) refl,
      x2' ∙ x2 ∙ there,
      base_stays ∙ base',
      λ r. table_kept r ∙ ap (started_from r) (kept' r ∙ kept r),
      Extends-trans s t (writes table t') more
          (Extends-trans t t' (writes table t') more' (writes-Extends table t')),
    )

-- On a processor that reports x2APIC, `lapic_init_begin` returns. It asks for CPUID leaf 1 and for the
-- base register before any other access, so that the answers are theirs. It leaves the APIC on and in x2APIC
-- mode whatever mode it was in, with the other digits of its base register as they were, its six
-- local vector table entries masked, the spurious vector 255, and every other register as it was.
pub lapic_init_begin_lem :
    (a b c e : ℕ) (rest : List ℕ) (s : Pic) (d : Apic)
    → s.vmm.cpu.replies ≡ a ∷ b ∷ c ∷ e ∷ (apic s d).base ∷ rest
    → bit (u32 c) 21 ≡ 1
    → (apic s d).base < 2 ^ 64
    → (s' : Pic) × (lapic_init_begin s ≡ ok tt s')
      × (s'.has_x2apic ≡ true)
      × ((k : ℕ)
          → bit (apic s' d).base k ≡ (if (k == 10) || (k == 11) then 1 else bit (apic s d).base k))
      × ((r : ℕ) → (apic s' d).registers r ≡ started (apic s d).registers r)
      × (es : List Event) × (s'.vmm.cpu.trace
          ≡ ((s.vmm.cpu.trace ++ (Event.run_cpuid 1 0 ∷ []))
              ++ (Event.read_msr 0x1B (apic s d).base ∷ []))
            ++ es)
lapic_init_begin_lem a b c e rest s d next reported fits =
    let same = apic-asked s (apic s d).base rest d in
    let (s', returns, x2, base, regs, (es, more)) =
      start_lem (apic s d).base (asked s (apic s d).base rest) d refl fits
        (ap (λ (x : Apic). x.base) same) in
    (
      s',
      asks a b c e (apic s d).base rest s next reported fits ∙ returns,
      x2,
      λ k.
          ap (λ x. bit x k) base
          ∙ ground (
            arith,
            bit-with_digit 10 (with_digit 11 (apic s d).base) k,
            bit-with_digit 11 (apic s d).base k,
          ),
      λ r. regs r ∙ ap (λ (x : Apic). started x.registers r) same,
      es,
      more,
    )
