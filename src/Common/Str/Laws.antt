-- ===== src/Common/Str/Laws.antt =====
-- What the loops over bytes compute.
use umbral_os.Base.{
  ℕ, zero, suc, ◌+◌, ◌≤◌, ◌<◌, ◌≡◌, ◌≢◌, ◌↔◌, refl, arith, ◌&&◌, some, List, [], ◌∷◌, ◌++◌, ltb,
  leb, ◌==◌, if◌then◌else◌, length, get_elem?, get_or, set, length-set, get_elem?-eq-get_or,
  get_or-set, All, take,
}
use umbral_os.Base.Word.{u8}
use umbral_os.Base.Int.{pos}
use umbral_os.Common.Str.{copy_from, memcpy, fill_from, memset, length_from, strlen, strncmp}

-- The loop of `memset` from index `i`.
fill_from_lem :
    (rounds i c : ℕ) (s : List ℕ)
    → i + rounds ≤ length s
    → (t : List ℕ) × (fill_from rounds i s c ≡ some t)
      × (length t ≡ length s)
      × ((j : ℕ) → get_or t j 0 ≡ (if leb i j && ltb j (i + rounds) then u8 c else get_or s j 0))
unfolding fill_from
fill_from_lem zero i c s h = (s, refl, refl, λ j. ground arith)
fill_from_lem (suc rounds) i c s h =
    let (t, returns, len, bytes) =
      fill_from_lem rounds (i + 1) c (set s i (u8 c)) (omega (arith, length-set s i (u8 c))) in
    (
      t,
      ground arith,
      omega (arith, length-set s i (u8 c)),
      λ j. ground (arith, bytes j, get_or-set s i j (u8 c) 0 (omega arith)),
    )

-- Inside the object `memset(s, c, n)` writes `(char)c` to the first `n` bytes and nothing else.
pub memset_lem :
    (s : List ℕ) (c n : ℕ)
    → n ≤ length s
    → (t : List ℕ) × (memset s c n ≡ some t)
      × (length t ≡ length s)
      × ((j : ℕ) → get_or t j 0 ≡ (if ltb j n then u8 c else get_or s j 0))
unfolding memset
memset_lem s c n h =
    let (t, returns, len, bytes) = fill_from_lem n 0 c s (omega arith) in
    (t, returns, len, λ j. ground (arith, bytes j))

copy_from_lem :
    (rounds i : ℕ) (dest src : List ℕ)
    → i + rounds ≤ length dest
    → i + rounds ≤ length src
    → (t : List ℕ) × (copy_from rounds i dest src ≡ some t)
      × (length t ≡ length dest)
      × ((j : ℕ)
          → get_or t j 0
            ≡ (if leb i j && ltb j (i + rounds) then get_or src j 0 else get_or dest j 0))
unfolding copy_from
copy_from_lem zero i dest src h k = (dest, refl, refl, λ j. ground arith)
copy_from_lem (suc rounds) i dest src h k =
    let byte = get_or src i 0 in
    let len = length-set dest i byte in
    let (t, returns, same, bytes) =
      copy_from_lem rounds (i + 1) (set dest i byte) src (omega (arith, len)) (omega arith) in
    (
      t,
      ground (arith, returns, get_elem?-eq-get_or src i 0 (omega arith)),
      omega (arith, len),
      λ j. ground (arith, bytes j, get_or-set dest i j byte 0 (omega arith)),
    )

-- For distinct objects that are long enough `memcpy` copies `count` bytes and nothing else.
pub memcpy_lem :
    (dest src : List ℕ) (count : ℕ)
    → count ≤ length dest
    → count ≤ length src
    → (t : List ℕ) × (memcpy dest src count ≡ some t)
      × (length t ≡ length dest)
      × ((j : ℕ) → get_or t j 0 ≡ (if ltb j count then get_or src j 0 else get_or dest j 0))
unfolding memcpy
memcpy_lem dest src count h k =
    let (t, returns, len, bytes) = copy_from_lem count 0 dest src (omega arith) (omega arith) in
    (t, returns, len, λ j. ground (arith, bytes j))

-- The string that a pointer leads to: the bytes before the first NUL.
abbrev pub c_string : List ℕ → List ℕ
c_string [] = []
c_string (c ∷ str) = if c == 0 then [] else c ∷ c_string str

length_from-eq :
    (text rest : List ℕ) (i : ℕ)
    → All (λ c. c ≢ 0) text
    → length_from (text ++ (0 ∷ rest)) i ≡ some (i + length text)
unfolding length_from
length_from-eq [] rest i h = ground arith
length_from-eq (c ∷ text) rest i (ne, h) = ground (arith, length_from-eq text rest (i + 1) h)

-- `strlen` returns the number of bytes before the first NUL.
pub strlen_lem :
    (text rest : List ℕ) → All (λ c. c ≢ 0) text → strlen (text ++ (0 ∷ rest)) ≡ some (length text)
unfolding strlen
strlen_lem text rest h = ground (arith, length_from-eq text rest 0 h)

-- The first `n` bytes, up to and with the first NUL.
abbrev pub compared : List ℕ → ℕ → List ℕ
compared s zero = []
compared [] (suc n) = []
compared (c ∷ s) (suc n) = if c == 0 then c ∷ [] else c ∷ compared s n

-- Where both objects are long enough, `strncmp` returns 0 exactly when the strings agree in their
-- first `n` bytes, or up to a NUL before that.
pub strncmp_iff :
    (s1 s2 : List ℕ) (n : ℕ)
    → n ≤ length s1
    → n ≤ length s2
    → All (λ c. c < 256) s1
    → All (λ c. c < 256) s2
    → (strncmp s1 s2 n ≡ some (pos 0)) ↔ (compared s1 n ≡ compared s2 n)
unfolding strncmp
strncmp_iff s1 s2 zero h k a b = (λ _. refl, λ _. refl)
strncmp_iff [] s2 (suc n) h k a b = absurd (omega arith)
strncmp_iff (x ∷ s1) [] (suc n) h k a b = absurd (omega arith)
strncmp_iff (x ∷ s1) (y ∷ s2) (suc n) h k (p, a) (q, b) =
    let ih = strncmp_iff s1 s2 n (omega arith) (omega arith) a b in
    (ground (arith, ih.0), ground (arith, ih.1))

-- Where there is a NUL somewhere, `strlen` finds the end of the string.
length_from-c_string :
    (str : List ℕ) (k i : ℕ)
    → get_elem? str k ≡ some 0
    → (n : ℕ) × (length_from str i ≡ some (i + n)) × (take n str ≡ c_string str)
unfolding length_from
length_from-c_string [] k i h = cc
length_from-c_string (zero ∷ str) k i h = (0, ground arith, refl)
length_from-c_string (suc c ∷ str) zero i h = cc
length_from-c_string (suc c ∷ str) (suc k) i h =
    let (n, len, text) = length_from-c_string str k (i + 1) h in
    (suc n, ground (arith, len), ground (arith, text))

pub strlen-c_string :
    (str : List ℕ) (k : ℕ)
    → get_elem? str k ≡ some 0
    → (n : ℕ) × (strlen str ≡ some n) × (take n str ≡ c_string str)
unfolding strlen
strlen-c_string str k h =
    let (n, len, text) = length_from-c_string str k 0 h in (n, ground (arith, len), text)

pub c_string-append :
    (text rest : List ℕ) → All (λ c. c ≢ 0) text → c_string (text ++ (0 ∷ rest)) ≡ text
c_string-append [] rest h = refl
c_string-append (c ∷ text) rest (ne, h) = ground (arith, ne, c_string-append text rest h)
