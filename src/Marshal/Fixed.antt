-- ===== src/Marshal/Fixed.antt =====
-- The fixed widths of Marshal.antt read back what they wrote.
use native.Mathlib.Nat.{pow-suc}
use python_driver.Prelude.{
  ℕ, suc, ◌+◌, ◌-◌, ◌*◌, ◌^◌, ◌<◌, ◌≡◌, refl, Bool, true, false, ltb, ltb→lt, ◌==◌, none, some,
  List, length, arith, if◌then◌else◌,
}
use python_driver.Prelude.Int.{ℤ, pos, negsuc}
use python_driver.Marshal.{
  be_bytes, pack_unsigned, unpack_unsigned, pack_signed, signed, unpack_signed,
}
use python_driver.Marshal.Digits.{length-be_bytes, of_bytes-be_bytes, power_pos}

guarded {ℓ} :
    {A : Type ℓ} (b : Bool) (x y : A) → (if b then some x else none) ≡ some y → (b ≡ true) × (x ≡ y)
guarded true x y e = (refl, ground arith)
guarded false x y e = absurd (ground arith)

-- What is packed has the width, and is unpacked to the same number.
pub unpack_unsigned-pack_unsigned :
    (w v : ℕ) (bs : List ℕ)
    → pack_unsigned w v ≡ some bs
    → (length bs ≡ w) × (unpack_unsigned w bs ≡ some v)
unfolding pack_unsigned unpack_unsigned
unpack_unsigned-pack_unsigned w v bs e =
    let (b, q) = guarded (ltb v (2 ^ (8 * w))) (be_bytes w v) bs e in
    let l = length-be_bytes w v in
    rw (← q) (
      l,
      (let t : (length (be_bytes w v) == w) ≡ true = ground (arith, l) in
          rw (t, of_bytes-be_bytes w v (ltb→lt v (2 ^ (8 * w)) b))),
    )

double_half : (w : ℕ) → 2 ^ (8 * suc w) ≡ 2 * 2 ^ (8 * suc w - 1)
double_half w =
    let e : 8 * suc w ≡ suc (8 * w + 7) = omega arith in
    let e' : 8 * suc w - 1 ≡ 8 * w + 7 = omega arith in
    rw e' (rw (e, pow-suc 2 (8 * w + 7)) (omega arith))

signed_back :
    (w v : ℕ) (z : ℤ)
    → v < 2 ^ (8 * w)
    → signed w v ≡ z
    → (length (be_bytes w v) ≡ w) × (unpack_signed w (be_bytes w v) ≡ some z)
unfolding unpack_signed
signed_back w v z h e =
    let l = length-be_bytes w v in
    let t : (length (be_bytes w v) == w) ≡ true = ground (arith, l) in
    (l, rw (t, of_bytes-be_bytes w v h, e))

pub unpack_signed-pack_signed :
    (w : ℕ) (z : ℤ) (bs : List ℕ)
    → pack_signed (suc w) z ≡ some bs
    → (length bs ≡ suc w) × (unpack_signed (suc w) bs ≡ some z)
unfolding pack_signed signed
unpack_signed-pack_signed w (pos n) bs e =
    let (b, q) = guarded (ltb n (2 ^ (8 * suc w - 1))) (be_bytes (suc w) n) bs e in
    rw (← q) (
      signed_back (suc w) n (pos n) (omega (arith, double_half w, ltb→lt n (2 ^ (8 * suc w - 1)) b))
        (rw b))
unpack_signed-pack_signed w (negsuc n) bs e =
    let top = 2 ^ (8 * suc w) in
    let v = top - (n + 1) in
    let (b, q) = guarded (ltb n (2 ^ (8 * suc w - 1))) (be_bytes (suc w) v) bs e in
    let lt = ltb→lt n (2 ^ (8 * suc w - 1)) b in
    let f : ltb v (2 ^ (8 * suc w - 1)) ≡ false = ground (arith, double_half w, lt) in
    let m : top - v - 1 ≡ n = omega (arith, double_half w, lt) in
    rw (← q) (signed_back (suc w) v (negsuc n) (omega (arith, power_pos (8 * suc w))) (rw (f, m)))
