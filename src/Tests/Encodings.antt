-- ===== src/Tests/Encodings.antt =====
-- Tests of Marshal and Connection/Frames.
use python_driver.Prelude.{ℕ, ◌≡◌, refl, some, List, [], ◌∷◌, arith, All}
use python_driver.Prelude.Int.{ℤ, pos, negsuc}
use python_driver.Marshal
use python_driver.Marshal.{
  vints_pack, vints_unpack, varint_pack, varint_unpack, unpacked, Unpacked, index_error,
}
use python_driver.Marshal.Vint.{IsInt64}
use python_driver.Marshal.Varint.{varint_unpack-varint_pack}
use python_driver.Marshal.Vints.{vints_unpack-vints_pack}
use python_driver.Connection.Frames.{receive, receive_all, empty}
use python_driver.Connection.Frames.Chunks.{joined, receive_all-joined}

varint_unpack-varint_pack_example : varint_unpack (varint_pack (negsuc 32768)) ≡ some (negsuc 32768)
varint_unpack-varint_pack_example = varint_unpack-varint_pack (negsuc 32768)

abbrev duration : List ℤ
duration = pos 0 ∷ negsuc 99 ∷ pos 3723004005006 ∷ []

duration-IsInt64 : All IsInt64 duration
duration-IsInt64 = (omega arith, (omega arith, (omega arith, tt)))

vints_unpack-vints_pack_example :
    (bytes : List ℕ) × (vints_pack duration ≡ some bytes) × (vints_unpack bytes ≡ unpacked duration)
vints_unpack-vints_pack_example = vints_unpack-vints_pack duration duration-IsInt64

marshal_program : Unit {0}
unfolding Marshal.be_bytes Marshal.of_bytes Marshal.signed Marshal.bits Marshal.bit_length
    Marshal.le_bytes Marshal.last_or Marshal.top_bit Marshal.pad_positive varint_pack varint_unpack
    Marshal.decode_zig_zag Marshal.encode_zig_zag Marshal.extra_bytes Marshal.vint_bytes
    Marshal.vints_loop vints_pack Marshal.read_extra Marshal.read_vint Marshal.prepend
    Marshal.unpack_rounds vints_unpack
marshal_program = tt

-- The values of tests/unit/test_marshalling.py.
varint_128 : varint_pack (pos 128) ≡ 0 ∷ 128 ∷ []
unfolding marshal_program
varint_128 = refl

varint_minus_129 : varint_pack (negsuc 128) ≡ 255 ∷ 127 ∷ []
unfolding marshal_program
varint_minus_129 = refl

vints_cut_off : vints_unpack (192 ∷ 1 ∷ []) ≡ index_error
unfolding marshal_program
vints_cut_off = refl

-- Two frames of version 4, cut inside the headers and the bodies.
abbrev chunks : List (List ℕ)
chunks =
    (132 ∷ 0 ∷ 0 ∷ [])
    ∷ (7 ∷ 8 ∷ 0 ∷ 0 ∷ 0 ∷ 2 ∷ 10 ∷ [])
    ∷ []
    ∷ (11 ∷ 132 ∷ 0 ∷ 255 ∷ 255 ∷ 12 ∷ 0 ∷ 0 ∷ 0 ∷ 1 ∷ 7 ∷ 132 ∷ [])
    ∷ []

receive_all-joined_example : receive_all empty chunks ≡ receive empty (joined chunks)
receive_all-joined_example = receive_all-joined chunks
