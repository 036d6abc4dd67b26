-- ===== src/Marshal/Vint.antt =====
-- One value of `vints_pack`, written and read back (Marshal.antt).
use Prim.Native.Nat.{min, bit_and, bit_or, bit_xor, bit_xor-bitwise, digits, differ}
use mathlib.Core.List.{reverse, reverse-append}
use native.Mathlib.Nat.{pow-suc}
use python_driver.Prelude.{
  ℕ, zero, suc, ◌+◌, ◌-◌, ◌*◌, ◌/◌, ◌%◌, ◌^◌, ◌≤◌, ◌<◌, ◌≡◌, refl, ap, ◌∙◌, Bool, true, false, ◌&&◌,
  ◌||◌, ltb, leb, ◌==◌, some, List, [], ◌∷◌, ◌++◌, length, arith, inl, inr, Bool-cases, leb→le,
  lt→ltb,
}
use python_driver.Prelude.Int.{ℤ, pos, negsuc}
use python_driver.Marshal.{
  of_bytes, bits, bit_length, top_bit, encode_zig_zag, decode_zig_zag, extra_bytes, vint_bytes,
  read_extra, read_vint,
}
use python_driver.Marshal.Table.{all_below, all_below_sound}
use python_driver.Marshal.Digits.{
  of_bytes-append, lt-bit_length, length-reverse, reverse_cons, power_pos, pow_add,
}

-- A signed 64-bit integer.
abbrev pub IsInt64 : ℤ → Type 0
IsInt64 (pos n) = n < 2 ^ 63
IsInt64 (negsuc n) = n < 2 ^ 63

differ-zero : (x : ℕ) → differ x 0 ≡ x
differ-zero zero = refl
differ-zero (suc x) = refl

xor_digits : (n a : ℕ) → a ≤ n → digits (λ b. b) differ n a 0 ≡ a
xor_digits zero a h = omega arith
xor_digits (suc n) zero h = refl
xor_digits (suc n) (suc a) h =
    omega (arith, xor_digits n (suc a / 2) (omega arith), differ-zero (suc a % 2))

bit_xor-zero : (a : ℕ) → bit_xor a 0 ≡ a
bit_xor-zero a = bit_xor-bitwise a 0 ∙ xor_digits a a (omega arith)

pub zig_zag :
    (z : ℤ) → IsInt64 z → (decode_zig_zag (encode_zig_zag z) ≡ z) × (encode_zig_zag z < 2 ^ 64)
unfolding encode_zig_zag decode_zig_zag
zig_zag (pos n) h =
    let q : n / 2 ^ 63 ≡ 0 = omega arith in rw (q, bit_xor-zero (2 * n)) (ground arith)
zig_zag (negsuc n) h =
    let q : n / 2 ^ 63 ≡ 0 = omega arith in rw (q, bit_xor-zero (2 * n + 1)) (ground arith)

-- What the loop of `vints_pack` leaves: `n` bytes more than `e`, and a rest that fits beside `n` ones.
record Split (e v : ℕ) (r : ℕ × (List ℕ × ℕ)) : Type 0 where
  pub counted : r.0 ≡ e + length r.1.0
  pub most : r.0 ≤ 8
  pub fits : r.1.1 < 2 ^ (8 - min (r.0 + 1) 8)
  pub whole : of_bytes r.1.1 (reverse r.1.0) ≡ v

power_mono : (a b : ℕ) → a ≤ b → 2 ^ a ≤ 2 ^ b
power_mono a zero h = ground arith
power_mono zero (suc b) h = power_pos (suc b)
power_mono (suc a) (suc b) h =
    rw (pow-suc 2 a, pow-suc 2 b) (omega (arith, power_mono a b (omega arith)))

halve : (k v : ℕ) → v < 2 ^ suc k → v / 2 < 2 ^ k
halve k v h = omega (arith, pow-suc 2 k)

below : (nb v : ℕ) → v < 2 ^ nb → v / 256 < 2 ^ (nb - 8)
below nb v h = elim (Bool-cases (leb 8 nb)) [
  | inl big ↦
      (let e : nb ≡ nb - 8 + 8 = ground arith in
        omega (arith, pow_add (nb - 8) 8, ap (λ (n : ℕ). 2 ^ n) e))
  | inr small ↦ omega (arith, power_mono nb 7 (ground arith), power_pos (nb - 8))
]

prepended :
    (w : ℕ) (bs : List ℕ) (v : ℕ)
    → of_bytes w (reverse bs) ≡ v / 256
    → of_bytes w (reverse (v % 256 ∷ bs)) ≡ v
unfolding of_bytes
prepended w bs v e =
    ap (of_bytes w) (reverse_cons (v % 256) bs)
    ∙ of_bytes-append w (reverse bs) (v % 256 ∷ [])
    ∙ omega (arith, e)

extra_bytes-Split :
    (f e nb v : ℕ)
    → nb ≤ f
    → e ≤ 8
    → nb + 8 * e ≤ 64
    → v < 2 ^ nb
    → Split e v (extra_bytes f e nb v)
unfolding extra_bytes of_bytes
extra_bytes-Split zero e nb v a b c d = record {
  counted = omega arith;
  most = b;
  fits = omega (arith, power_mono nb 0 a, power_pos (8 - min (e + 1) 8));
  whole = refl;
}
extra_bytes-Split (suc f) e nb v a b c d = elim (Bool-cases (ltb (8 - min (e + 1) 8) nb)) [
  | inr stop ↦
      rw (extra_bytes, stop)
        (record {
          counted = omega arith;
          most = b;
          fits = omega (arith, power_mono nb (8 - min (e + 1) 8) (ground arith));
          whole = refl;
        })
  | inl more ↦
      let ih =
        extra_bytes-Split f (e + 1) (nb - 8) (v / 256) (ground arith) (ground arith) (ground arith)
          (below nb v d) in
      rw (extra_bytes, more)
        (record {
          counted = omega (arith, ih.counted);
          most = ih.most;
          fits = ih.fits;
          whole =
              (let r = extra_bytes f (e + 1) (nb - 8) (v / 256) in
                prepended r.1.1 r.1.0 v ih.whole);
        })
]

-- The first byte of a value with `n` more bytes: `n` ones, and `w` below them.
abbrev first_byte : ℕ → ℕ → ℕ
first_byte n w = bit_or w (255 / 2 ^ (8 - n) * 2 ^ (8 - n))

abbrev first_byte_ok : ℕ → ℕ → Bool
first_byte_ok n w =
    top_bit (first_byte n w)
    && ((8 - bit_length (255 - first_byte n w) == n)
        && (bit_and (first_byte n w) (255 / 2 ^ n) == w))

first_byte_table :
    all_below 9
      (λ n. all_below 128 (λ w. (n == 0) || (leb (2 ^ (8 - min (n + 1) 8)) w || first_byte_ok n w)))
    ≡ true
unfolding top_bit bit_length bits
first_byte_table = refl

or_right : (a b : Bool) → (a || b) ≡ true → a ≡ false → b ≡ true
or_right true b e f = cc
or_right false b e f = e

not_zero : (n : ℕ) → 1 ≤ n → (n == 0) ≡ false
not_zero n h = ground arith

not_leb : (p w : ℕ) → w < p → leb p w ≡ false
not_leb p w h = ground arith

first_byte_lem : (n w : ℕ) → n ≤ 8 → 1 ≤ n → w < 2 ^ (8 - min (n + 1) 8) → first_byte_ok n w ≡ true
first_byte_lem n w most least fits =
    let small : 2 ^ (8 - min (n + 1) 8) ≤ 2 ^ 7 = power_mono (8 - min (n + 1) 8) 7 (omega arith) in
    let row =
      all_below_sound 9
        (λ n.
          all_below 128 (λ w. (n == 0) || (leb (2 ^ (8 - min (n + 1) 8)) w || first_byte_ok n w)))
        n first_byte_table (omega arith) in
    let cell =
      all_below_sound 128 (λ w. (n == 0) || (leb (2 ^ (8 - min (n + 1) 8)) w || first_byte_ok n w))
        w row (omega arith) in
    or_right (leb (2 ^ (8 - min (n + 1) 8)) w) _ (or_right (n == 0) _ cell (not_zero n least))
      (not_leb (2 ^ (8 - min (n + 1) 8)) w fits)

first_byte_facts :
    (n w : ℕ)
    → n ≤ 8
    → 1 ≤ n
    → w < 2 ^ (8 - min (n + 1) 8)
    → (top_bit (first_byte n w) ≡ true)
      × (8 - bit_length (255 - first_byte n w) ≡ n)
      × (bit_and (first_byte n w) (255 / 2 ^ n) ≡ w)
first_byte_facts n w most least fits =
    let ok = first_byte_lem n w most least fits in ground (arith, ok)

read_extra-of_bytes :
    (bs : List ℕ) (val : ℕ) (rest : List ℕ)
    → read_extra (length bs) val (bs ++ rest) ≡ some (of_bytes val bs, rest)
unfolding read_extra of_bytes
read_extra-of_bytes [] val rest = refl
read_extra-of_bytes (b ∷ bs) val rest = read_extra-of_bytes bs (val * 256 + b) rest

bits-le : (f n k : ℕ) → n < 2 ^ k → bits f n ≤ k
unfolding bits
bits-le zero n k h = omega arith
bits-le (suc f) n zero h = ground arith
bits-le (suc f) n (suc k) h = ground (arith, bits-le f (n / 2) k (halve k n h))

bit_length-le : (n k : ℕ) → n < 2 ^ k → bit_length n ≤ k
unfolding bit_length
bit_length-le n k h = bits-le n n k h

long_bits : (v : ℕ) → ltb v 128 ≡ false → 8 ≤ bit_length v
long_bits v long = elim (Bool-cases (leb 8 (bit_length v))) [
  | inl e ↦ leb→le 8 (bit_length v) e
  | inr e ↦ absurd (ground (arith, lt-bit_length v, power_mono (bit_length v) 7 (ground arith)))
]

extra_bytes-ge : (f e nb v : ℕ) → e ≤ (extra_bytes f e nb v).0
unfolding extra_bytes
extra_bytes-ge zero e nb v = omega arith
extra_bytes-ge (suc f) e nb v = ground (arith, extra_bytes-ge f (e + 1) (nb - 8) (v / 256))

extra_round : (f nb v : ℕ) → 8 ≤ nb → nb ≤ f → 1 ≤ (extra_bytes f 0 nb v).0
unfolding extra_bytes
extra_round zero nb v h le = absurd (omega arith)
extra_round (suc f) nb v h le =
    let more : ltb (8 - min (0 + 1) 8) nb ≡ true = lt→ltb 7 nb (omega arith) in
    rw (extra_bytes, more) (omega (arith, extra_bytes-ge f 1 (nb - 8) (v / 256)))

-- How one value is written, and that it is read back whatever follows.
pub record Written (v : ℕ) : Type 0 where
  pub bytes : List ℕ
  pub first : ℕ
  pub more : List ℕ
  pub made : vint_bytes v ≡ some bytes
  pub turned : reverse bytes ≡ first ∷ more
  pub back : (rest : List ℕ) → read_vint first (more ++ rest) ≡ some (v, rest)

long_read :
    (v : ℕ) (r : ℕ × (List ℕ × ℕ))
    → Split 0 v r
    → 1 ≤ r.0
    → (rest : List ℕ) → read_vint (first_byte r.0 r.1.1) (reverse r.1.0 ++ rest) ≡ some (v, rest)
unfolding read_vint
long_read v (n, (bs, w)) s least rest =
    let (t, c, m) = first_byte_facts n w s.most least s.fits in
    let l : n ≡ length (reverse bs) = omega (arith, s.counted, length-reverse bs) in
    rw (t, c, m)
      (rw l (read_extra-of_bytes (reverse bs) w rest) ∙ ap (λ (x : ℕ). some (x, rest)) s.whole)

written : (v : ℕ) → v < 2 ^ 64 → Written v
unfolding vint_bytes
written v h = elim (Bool-cases (ltb v 128)) [
  | inl short ↦ record {
    bytes = v ∷ [];
    first = v;
    more = [];
    made = rw short;
    turned = refl;
    back = λ rest. unfold read_vint top_bit in ground arith;
  }
  | inr long ↦
      let r = extra_bytes (bit_length v) 0 (bit_length v) v in
      let s =
        extra_bytes-Split (bit_length v) 0 (bit_length v) v (omega arith) (omega arith)
          (omega (arith, bit_length-le v 64 h)) (lt-bit_length v) in
      let least : 1 ≤ r.0 =
        omega
          (arith, extra_round (bit_length v) (bit_length v) v (long_bits v long) (omega arith)) in
      record {
        bytes = r.1.0 ++ first_byte r.0 r.1.1 ∷ [];
        first = first_byte r.0 r.1.1;
        more = reverse r.1.0;
        made = (let m : ltb 8 r.0 ≡ false = ground (arith, s.most) in rw (long, m));
        turned = reverse-append r.1.0 (first_byte r.0 r.1.1 ∷ []);
        back = long_read v r s least;
      }
]

pub value_written : (z : ℤ) → IsInt64 z → Written (encode_zig_zag z)
value_written z h = written (encode_zig_zag z) (zig_zag z h).1
