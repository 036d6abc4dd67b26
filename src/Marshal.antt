-- ===== src/Marshal.antt =====
-- The integer encodings of cassandra/marshal.py. A byte string is a list of numbers below 256. The
-- fixed widths are those of Python's `struct` module, big-endian: none is a struct.error.
pub mod Table
pub mod Digits
pub mod Fixed
pub mod Varint
pub mod Vint
pub mod Vints
use Prim.Native.Nat.{min, bit_and, bit_or, bit_xor}
use mathlib.Core.List.{reverse}
use python_driver.Prelude.{
  ℕ, zero, suc, ◌+◌, ◌-◌, ◌*◌, ◌/◌, ◌%◌, ◌^◌, Bool, true, false, ltb, leb, ◌==◌, Option, none, some,
  List, [], ◌∷◌, ◌++◌, if◌then◌else◌, length,
}
use python_driver.Prelude.Int.{ℤ, pos, negsuc, sub_ℕ}

-- The lowest `n` bytes of a number, the highest first.
unfoldable pub be_bytes : ℕ → ℕ → List ℕ
be_bytes zero v = []
be_bytes (suc n) v = be_bytes n (v / 256) ++ v % 256 ∷ []

-- The number that bytes stand for behind those that were read already.
unfoldable pub of_bytes : ℕ → List ℕ → ℕ
of_bytes acc [] = acc
of_bytes acc (b ∷ bs) = of_bytes (acc * 256 + b) bs

-- `>H`, `>I` and `>Q` with 2, 4 and 8 bytes
unfoldable pub pack_unsigned : ℕ → ℕ → Option (List ℕ)
pack_unsigned w v = if ltb v (2 ^ (8 * w)) then some (be_bytes w v) else none

unfoldable pub unpack_unsigned : ℕ → List ℕ → Option ℕ
unpack_unsigned w bs = if length bs == w then some (of_bytes 0 bs) else none

-- `>b`, `>h`, `>i` and `>q` with 1, 2, 4 and 8 bytes, in two's complement
unfoldable pub pack_signed : ℕ → ℤ → Option (List ℕ)
pack_signed w (pos n) = if ltb n (2 ^ (8 * w - 1)) then some (be_bytes w n) else none
pack_signed w (negsuc n) =
    if ltb n (2 ^ (8 * w - 1)) then some (be_bytes w (2 ^ (8 * w) - (n + 1))) else none

unfoldable pub signed : ℕ → ℕ → ℤ
signed w v = if ltb v (2 ^ (8 * w - 1)) then pos v else negsuc (2 ^ (8 * w) - v - 1)

unfoldable pub unpack_signed : ℕ → List ℕ → Option ℤ
unpack_signed w bs = if length bs == w then some (signed w (of_bytes 0 bs)) else none

-- `int.bit_length`, with a count of halvings that is enough if it is at least `n`
unfoldable pub bits : ℕ → ℕ → ℕ
bits zero n = 0
bits (suc f) n = elim (n == 0) [ true ↦ 0 | false ↦ suc (bits f (n / 2)) ]

unfoldable pub bit_length : ℕ → ℕ
bit_length n = bits n n

-- `while big > 0: revbytes.append(big & 0xff); big >>= 8`, with a count of rounds that is enough if it
-- is at least `big`
unfoldable pub le_bytes : ℕ → ℕ → List ℕ
le_bytes zero big = []
le_bytes (suc f) big = elim (big == 0) [ true ↦ [] | false ↦ big % 256 ∷ le_bytes f (big / 256) ]

-- `revbytes[-1]`
unfoldable pub last_or : ℕ → List ℕ → ℕ
last_or d [] = d
last_or d (b ∷ bs) = last_or b bs

-- `b & 128`, of a byte
unfoldable pub top_bit : ℕ → Bool
top_bit b = leb 128 b

-- `varint_pack`
unfoldable pub pad_positive : List ℕ → List ℕ
pad_positive revbytes = if top_bit (last_or 0 revbytes) then revbytes ++ 0 ∷ [] else revbytes

unfoldable pub varint_pack : ℤ → List ℕ
varint_pack (pos zero) = 0 ∷ []
varint_pack (pos (suc n)) = reverse (pad_positive (le_bytes (suc n) (suc n)))
varint_pack (negsuc n) =
    let bytelength = bit_length n / 8 + 1 in
    let big = 2 ^ (8 * bytelength) - (n + 1) in reverse (le_bytes big big)

-- `varint_unpack`; none is the ValueError of `int('', 16)`.
unfoldable pub varint_unpack : List ℕ → Option ℤ
varint_unpack [] = none
varint_unpack (b ∷ rest) =
    let val = of_bytes 0 (b ∷ rest) in
    some (if top_bit b then sub_ℕ val (2 ^ (8 * length (b ∷ rest))) else pos val)

-- `(n << 1) ^ (n >> 63)`: for a negative number both sides are complements, ~a ^ ~b = a ^ b.
unfoldable pub encode_zig_zag : ℤ → ℕ
encode_zig_zag (pos n) = bit_xor (2 * n) (n / 2 ^ 63)
encode_zig_zag (negsuc n) = bit_xor (2 * n + 1) (n / 2 ^ 63)

-- `(n >> 1) ^ -(n & 1)`: -0 changes nothing, -1 complements.
unfoldable pub decode_zig_zag : ℕ → ℤ
decode_zig_zag n = if n % 2 == 0 then pos (n / 2) else negsuc (n / 2)

-- The loop of `vints_pack`. A count of bits that Python lets fall below 0 stops at 0 here: the test
-- fails for both. The bytes are those appended, `v` what is left. Rounds as many as bits are enough:
-- `num_bits` falls by 8.
unfoldable pub extra_bytes : ℕ → ℕ → ℕ → ℕ → ℕ × (List ℕ × ℕ)
extra_bytes zero num_extra_bytes num_bits v = (num_extra_bytes, ([], v))
extra_bytes (suc f) num_extra_bytes num_bits v =
    elim (ltb (8 - min (num_extra_bytes + 1) 8) num_bits) [
      | false ↦ (num_extra_bytes, ([], v))
      | true ↦
          let (n, (bs, w)) = extra_bytes f (num_extra_bytes + 1) (num_bits - 8) (v / 256) in
          (n, (v % 256 ∷ bs, w))
    ]

-- What one value appends to `revbytes`; none is the ValueError.
unfoldable pub vint_bytes : ℕ → Option (List ℕ)
vint_bytes v =
    if ltb v 128
    then some (v ∷ [])
    else (let (n, (bs, w)) = extra_bytes (bit_length v) 0 (bit_length v) v in
        if ltb 8 n then none else some (bs ++ bit_or w (255 / 2 ^ (8 - n) * 2 ^ (8 - n)) ∷ []))

-- The loop over `values[::-1]`
unfoldable pub vints_loop : List ℕ → List ℤ → Option (List ℕ)
vints_loop revbytes [] = some revbytes
vints_loop revbytes (value ∷ values) = elim (vint_bytes (encode_zig_zag value)) [
  | none ↦ none
  | some bs ↦ vints_loop (revbytes ++ bs) values
]

unfoldable pub vints_pack : List ℤ → Option (List ℕ)
vints_pack values = elim (vints_loop [] (reverse values)) [
  | none ↦ none
  | some revbytes ↦ some (reverse revbytes)
]

-- The inner loop of `vints_unpack`: `n` more bytes; none is the IndexError.
unfoldable pub read_extra : ℕ → ℕ → List ℕ → Option (ℕ × List ℕ)
read_extra zero val term = some (val, term)
read_extra (suc n) val [] = none
read_extra (suc n) val (b ∷ term) = read_extra n (val * 256 + b) term

-- One round of the outer loop, from a first byte.
unfoldable pub read_vint : ℕ → List ℕ → Option (ℕ × List ℕ)
read_vint first_byte term =
    let num_extra_bytes = 8 - bit_length (255 - first_byte) in
    if top_bit first_byte
    then read_extra num_extra_bytes (bit_and first_byte (255 / 2 ^ num_extra_bytes)) term
    else some (first_byte, term)

-- `vints_unpack`, with a count of rounds that is enough if it is at least the length of `term`; a round
-- takes a byte at least. Running out is kept apart from the IndexError.
pub data Unpacked : Type 0 where
  unpacked : List ℤ → Unpacked
  index_error : Unpacked
  out_of_rounds : Unpacked

unfoldable pub prepend : ℤ → Unpacked → Unpacked
prepend z (unpacked zs) = unpacked (z ∷ zs)
prepend z index_error = index_error
prepend z out_of_rounds = out_of_rounds

unfoldable pub unpack_rounds : ℕ → List ℕ → Unpacked
unpack_rounds f [] = unpacked []
unpack_rounds zero (b ∷ term) = out_of_rounds
unpack_rounds (suc f) (b ∷ term) = elim (read_vint b term) [
  | none ↦ index_error
  | some (val, rest) ↦ prepend (decode_zig_zag val) (unpack_rounds f rest)
]

unfoldable pub vints_unpack : List ℕ → Unpacked
vints_unpack term = unpack_rounds (length term) term
