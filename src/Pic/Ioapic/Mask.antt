-- ===== src/Pic/Ioapic/Mask.antt =====
-- The pins that `ioapic_init_register` masks.
use umbral_os.Base.{
  ℕ, zero, suc, ◌+◌, ◌*◌, ◌/◌, ◌%◌, ◌^◌, ◌≤◌, ◌<◌, ◌≡◌, refl, ap, ◌∙◌, arith, bit_and, true, false,
  ◌&&◌, List, [], ◌∷◌, ◌++◌, ◌==◌, ==→eq, eq→==, ltb, leb, if◌then◌else◌, Bool-cases, inl, inr,
}
use umbral_os.Base.Bits.{bit_and-mask}
use umbral_os.Base.Word.{u8, u32, u64}
use umbral_os.Base.Action.{ok, panicked}
use umbral_os.Base.Panics.{too_few_pins}
use umbral_os.Intel.{Event, load32, store32}
use umbral_os.Pic.{Pic}
use umbral_os.Pic.Ioapic.{
  disable_interrupt, disable_from, mask_pins, ioapic_read32, ioapic_write64, redir_tbl_addr,
}
use umbral_os.Pic.Ioapic.Device.{Device, registers, write64_lem, run-snoc}

-- The registers with the redirections of `count` pins from `first` on masked.
abbrev pub masked : (first count : ℕ) → (ℕ → ℕ) → ℕ → ℕ
masked first count f r =
    if leb (0x10 + 2 * first) r && ltb r (0x10 + 2 * (first + count))
    then (if r % 2 == 0 then 2 ^ 16 else 0)
    else f r

-- The same with what an unmasked register holds.
abbrev unmasked : (first count r : ℕ) → ℕ → ℕ
unmasked first count r old = masked (first + 1) count (λ x. old) r

abbrev first_masked : (count r : ℕ) → ℕ → ℕ
first_masked count r old = masked 0 count (λ x. old) r

disable_lem :
    (i : ℕ) (s : Pic) (d : Device)
    → i < 119
    → (s' : Pic) × (disable_interrupt i s ≡ ok tt s')
      × ((r : ℕ) → registers s' d r ≡ masked i 1 (registers s d) r)
unfolding disable_interrupt
disable_lem i s d small =
    let (s', returns, _, low, high, others) =
      write64_lem (0x10 + 2 * i) (2 ^ 16) s d (omega arith) (omega arith) in
    let reg : u8 (redir_tbl_addr i) ≡ 0x10 + 2 * i = omega arith in
    (
      s',
      ap (λ n. ioapic_write64 n (2 ^ 16) s) reg ∙ returns,
      λ r. elim (Bool-cases (r == 0x10 + 2 * i)) [
        | inl here ↦
            let e = ==→eq r (0x10 + 2 * i) here in ground (arith, ap (registers s' d) e, low)
        | inr not_low ↦ elim (Bool-cases (r == 0x10 + 2 * i + 1)) [
          | inl next ↦
              let e = ==→eq r (0x10 + 2 * i + 1) next in ground (arith, ap (registers s' d) e, high)
          | inr not_high ↦ let same = others r (ground arith) (ground arith) in ground (arith, same)
        ]
      ],
    )

masked-masked :
    (i n : ℕ) (f : ℕ → ℕ) (r : ℕ) → masked (i + 1) n (masked i 1 f) r ≡ masked i (suc n) f r
masked-masked i n f r = ground arith

-- The loop masks the pins that it counts and changes nothing else.
disable_from_lem :
    (count i : ℕ) (s : Pic) (d : Device)
    → i + count ≤ 119
    → (s' : Pic) × (disable_from count i s ≡ ok tt s')
      × ((r : ℕ) → registers s' d r ≡ masked i count (registers s d) r)
unfolding disable_from
disable_from_lem zero i s d fits = (s, refl, λ r. ground arith)
disable_from_lem (suc count) i s d fits =
    let (t, returns, one) = disable_lem i s d (omega arith) in
    let (s', returns', rest) = disable_from_lem count (i + 1) t d (omega arith) in
    (
      s',
      rw returns returns',
      λ r. rest r ∙ ap (unmasked i count r) (one r) ∙ masked-masked i count (registers s d) r,
    )

-- The kernel's accesses that read the version, with its answer.
abbrev pub with_version : Pic → ℕ → List ℕ → Pic
with_version s version rest = record s {
  vmm = record s.vmm {
    cpu = record {
      replies = rest;
      trace =
          (s.vmm.cpu.trace ++ (Event.stored32 s.ioapic_base 1 ∷ []))
          ++ (Event.loaded32 (u64 (s.ioapic_base + 0x10)) (u32 version) ∷ []);
    };
  };
}

registers-with_version :
    (s : Pic) (version : ℕ) (rest : List ℕ) (d : Device) (r : ℕ)
    → registers (with_version s version rest) d r ≡ registers s d r
registers-with_version s version rest d r =
    ap (λ (x : Device). x.registers r)
      (run-snoc s.ioapic_base (s.vmm.cpu.trace ++ (Event.stored32 s.ioapic_base 1 ∷ []))
          (Event.loaded32 (u64 (s.ioapic_base + 0x10)) (u32 version)) d
        ∙ run-snoc s.ioapic_base s.vmm.cpu.trace (Event.stored32 s.ioapic_base 1) d)
    ∙ rw (eq→== s.ioapic_base s.ioapic_base refl) refl

-- Once its registers are mapped, `ioapic_init_register` masks the pins below the number that the
-- version register holds in its third byte, and changes no other register; a number below 16 makes it
-- panic before any pin is masked. That register holds the number of the last pin: the last pin keeps
-- what it had.
pub mask_pins_lem :
    (version : ℕ) (rest : List ℕ) (s : Pic) (d : Device)
    → s.vmm.cpu.replies ≡ version ∷ rest
    → version / 2 ^ 16 % 256 ≤ 119
    → ((version / 2 ^ 16 % 256 < 16)
        → mask_pins s ≡ panicked too_few_pins (with_version s version rest))
      × ((16 ≤ version / 2 ^ 16 % 256)
          → (s' : Pic) × (mask_pins s ≡ ok tt s')
            × ((r : ℕ) → registers s' d r ≡ masked 0 (version / 2 ^ 16 % 256) (registers s d) r))
unfolding mask_pins ioapic_read32 load32 store32
mask_pins_lem version rest s d next fits =
    let pins : 0 + version / 2 ^ 16 % 256 ≤ 119 = omega arith in
    let count : bit_and (u32 version / 2 ^ 16) 0xFF ≡ version / 2 ^ 16 % 256 =
      bit_and-mask 8 (u32 version / 2 ^ 16) ∙ omega arith in
    (
      λ few.
          let short : ltb (version / 2 ^ 16 % 256) 16 ≡ true = ground arith in
          rw (next, count, short) refl,
      λ many.
          let enough : ltb (version / 2 ^ 16 % 256) 16 ≡ false = ground arith in
          let (s', returns, rest_lem) =
            disable_from_lem (version / 2 ^ 16 % 256) 0 (with_version s version rest) d pins in
          (
            s',
            rw (next, count, enough) returns,
            λ r.
                rest_lem r
                ∙ ap (first_masked (version / 2 ^ 16 % 256) r)
                    (registers-with_version s version rest d r),
          ),
    )
