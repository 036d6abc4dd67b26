-- ===== src/Marshal/Varint.antt =====
-- `varint_unpack` reads back what `varint_pack` of Marshal.antt wrote.
use mathlib.Core.List.{reverse, reverse-append}
use python_driver.Prelude.{
  ℕ, zero, suc, ◌+◌, ◌-◌, ◌*◌, ◌/◌, ◌%◌, ◌^◌, ◌≤◌, ◌<◌, ◌≡◌, refl, sym, ap, ◌∙◌, true, leb, some,
  List, [], ◌∷◌, ◌++◌, if◌then◌else◌, length, length-append, arith, inl, inr, Bool-cases, leb→le,
}
use python_driver.Prelude.Int.{ℤ, pos, negsuc, sub_ℕ}
use python_driver.Marshal.Table.{all_below, all_below_sound}
use python_driver.Marshal.{
  of_bytes, bit_length, le_bytes, last_or, top_bit, pad_positive, varint_pack, varint_unpack,
}
use python_driver.Marshal.Digits.{
  pow_byte, lt-bit_length, length-reverse, reverse_first, of_bytes-reverse-le_bytes, power_pos,
  pow_add, le_bytes_full,
}

-- `varint_unpack` of reversed bytes, one at least.
unpack_reversed :
    (bs : List ℕ) (d : ℕ)
    → 1 ≤ length bs
    → varint_unpack (reverse bs)
      ≡ some (
          if top_bit (last_or d bs)
          then sub_ℕ (of_bytes 0 (reverse bs)) (2 ^ (8 * length bs))
          else pos (of_bytes 0 (reverse bs)))
unfolding varint_unpack
unpack_reversed [] d h = absurd (omega arith)
unpack_reversed (b ∷ bs) d h =
    let (rest, e) = reverse_first d b bs in
    let l : length (last_or d (b ∷ bs) ∷ rest) ≡ length (b ∷ bs) =
      ap length (sym e) ∙ length-reverse (b ∷ bs) in
    rw (e, l)

last_or-append : (d b : ℕ) (bs : List ℕ) → last_or d (bs ++ b ∷ []) ≡ b
unfolding last_or
last_or-append d b [] = refl
last_or-append d b (c ∷ bs) = last_or-append c b bs

le_bytes_nonempty : (n : ℕ) → 1 ≤ length (le_bytes (suc n) (suc n))
unfolding le_bytes
le_bytes_nonempty n = ground arith

pos_lem :
    (bs : List ℕ) (v : ℕ)
    → 1 ≤ length bs
    → of_bytes 0 (reverse bs) ≡ v
    → varint_unpack (reverse (pad_positive bs)) ≡ some (pos v)
unfolding pad_positive top_bit of_bytes
pos_lem bs v h e = elim (Bool-cases (leb 128 (last_or 0 bs))) [
  | inl t ↦ rw t (
      unpack_reversed (bs ++ 0 ∷ []) 0 (omega (arith, length-append bs (0 ∷ [])))
      ∙ rw (last_or-append 0 0 bs, reverse-append bs (0 ∷ []), of_bytes)
          (ap (λ (n : ℕ). some (pos n)) e))
  | inr t ↦ rw t (unpack_reversed bs 0 h ∙ rw (t, e))
]

neg_lem :
    (bs : List ℕ) (n k : ℕ)
    → 128 ≤ last_or 0 bs
    → length bs ≡ suc k
    → n < 2 ^ (8 * suc k)
    → of_bytes 0 (reverse bs) ≡ 2 ^ (8 * suc k) - (n + 1)
    → varint_unpack (reverse bs) ≡ some (negsuc n)
unfolding top_bit
neg_lem bs n k t l h e = unpack_reversed bs 0 (omega arith) ∙ rw (l, e) (ground arith)

small_power : (r : ℕ) → r < 8 → 2 ^ r ≤ 128
small_power r h = (leb→le (2 ^ r) 128) (all_below_sound 8 (λ x. leb (2 ^ x) 128) r table h)
  where
    table : all_below 8 (λ x. leb (2 ^ x) 128) ≡ true
    table = refl

power_step : (q r : ℕ) → r < 8 → 2 ^ (8 * q + r) ≤ 128 * 2 ^ (8 * q)
power_step q r h = rw (pow_add (8 * q) r) (grind (arith, small_power r h))

-- `varint_unpack` reads back every integer that `varint_pack` wrote.
pub varint_unpack-varint_pack : (z : ℤ) → varint_unpack (varint_pack z) ≡ some z
unfolding varint_pack
varint_unpack-varint_pack (pos zero) = unfold varint_unpack of_bytes top_bit in refl
varint_unpack-varint_pack (pos (suc n)) =
    pos_lem (le_bytes (suc n) (suc n)) (suc n) (le_bytes_nonempty n)
      (of_bytes-reverse-le_bytes (suc n) (suc n) (omega arith))
varint_unpack-varint_pack (negsuc n) =
    let k = bit_length n / 8 in
    let split : bit_length n ≡ 8 * k + bit_length n % 8 = omega arith in
    let low : n < 128 * 2 ^ (8 * k) = omega (
      arith,
      lt-bit_length n,
      ap (λ (m : ℕ). 2 ^ m) split,
      power_step k (bit_length n % 8) (omega arith),
    ) in
    let same : k + 1 ≡ suc k = omega arith in
    let big = 2 ^ (8 * suc k) - (n + 1) in
    let full =
      le_bytes_full k big big 0 (omega arith) (omega (arith, pow_byte k, power_pos (8 * k)))
        (omega (arith, power_pos (8 * suc k))) in
    rw same (
      neg_lem (le_bytes big big) n k full.0 full.1 (omega (arith, pow_byte k))
        (of_bytes-reverse-le_bytes big big (omega arith)))
