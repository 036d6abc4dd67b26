-- ===== src/Connection/Frames.antt =====
-- The reading of frames from a socket: `_read_frame_header`, `_reset_frame` and `process_io_buffer` of
-- cassandra/connection.py. The reactors append what they receive to the buffer and call
-- `process_io_buffer` (`handle_read` in cassandra/io/asyncorereactor.py).
pub mod Split
pub mod Rounds
pub mod Chunks
pub mod Headers
pub mod Sent
use python_driver.Prelude.{
  ℕ, zero, suc, ◌+◌, ◌-◌, ◌%◌, Bool, true, false, ltb, leb, Option, none, some, List, [], ◌∷◌, ◌++◌,
  if◌then◌else◌, length, take, drop, get_or,
}
use python_driver.Prelude.Int.{ℤ, pos, negsuc}
use python_driver.Marshal.{of_bytes, signed}

pub record Frame : Type 0 where
  pub version : ℕ
  pub flags : ℕ
  pub stream : ℤ
  pub opcode : ℕ
  pub body_offset : ℕ
  pub end_pos : ℕ

-- `read` are the frames with their bodies that were handed to `process_msg`; `defunct` says that a
-- ProtocolError has defuncted the connection.
pub record Buffer : Type 0 where
  pub iobuf : List ℕ
  pub current_frame : Option Frame
  pub read : List (Frame × List ℕ)
  pub defunct : Bool

unfoldable pub empty : Buffer
empty = record { iobuf = []; current_frame = none; read = []; defunct = false }

-- `ProtocolVersion.MAX_SUPPORTED`
abbrev pub max_supported : ℕ
max_supported = 5

-- The bytes of the stream id: `>BbBi` or `>BhBi` behind the version byte.
unfoldable pub stream_size : ℕ → ℕ
stream_size version = if leb 3 version then 2 else 1

-- `int.from_bytes(buf[at:at + n])`
unfoldable pub field : List ℕ → ℕ → ℕ → ℕ
field buf at n = of_bytes 0 (take n (drop at buf))

pub data Header : Type 0 where
  incomplete : Header
  protocol_error : Header
  complete : Frame → Header

-- The test of `body_len`, and the frame.
unfoldable pub frame_of : ℕ → ℕ → ℕ → ℤ → ℕ → ℤ → Header
frame_of version s flags stream opcode (negsuc n) = protocol_error
frame_of version s flags stream opcode (pos body_len) = complete (record {
  version = version;
  flags = flags;
  stream = stream;
  opcode = opcode;
  body_offset = 7 + s;
  end_pos = body_len + (7 + s);
})

unfoldable pub header_of_size : List ℕ → ℕ → ℕ → Header
header_of_size buf version s =
    if leb (7 + s) (length buf)
    then frame_of version s (field buf 1 1) (signed s (field buf 2 s)) (field buf (2 + s) 1)
        (signed 4 (field buf (3 + s) 4))
    else incomplete

-- `_read_frame_header`
unfoldable pub read_frame_header : List ℕ → Header
read_frame_header [] = incomplete
read_frame_header (b ∷ bs) =
    let version = b % 128 in
    if ltb max_supported version
    then protocol_error
    else header_of_size (b ∷ bs) version (stream_size version)

-- The frame is read: its body is handed on, and what follows is the new buffer.
unfoldable pub take_frame : Buffer → Frame → Buffer
take_frame c f = record c {
  iobuf = drop f.end_pos c.iobuf;
  current_frame = none;
  read = c.read ++ (f, take (f.end_pos - f.body_offset) (drop f.body_offset c.iobuf)) ∷ [];
}

-- The loop of `process_io_buffer`, with a count of rounds that is enough if it is the length of the buffer:
-- a frame takes bytes.
unfoldable pub process_rounds : ℕ → Buffer → Buffer
process_rounds zero c = c
process_rounds (suc n) c = elim c.current_frame [
  | some f ↦ elim (leb f.end_pos (length c.iobuf)) [
    | true ↦ process_rounds n (take_frame c f)
    | false ↦ c
  ]
  | none ↦ elim (read_frame_header c.iobuf) [
    | incomplete ↦ c
    | protocol_error ↦ record c { defunct = true }
    | complete f ↦ elim (leb f.end_pos (length c.iobuf)) [
      | true ↦ process_rounds n (take_frame c f)
      | false ↦ record c { current_frame = some f }
    ]
  ]
]

unfoldable pub process_io_buffer : Buffer → Buffer
process_io_buffer c = process_rounds (suc (length c.iobuf)) c

-- The reactor receives a chunk.
unfoldable pub receive : Buffer → List ℕ → Buffer
receive c chunk = process_io_buffer (record c { iobuf = c.iobuf ++ chunk })

unfoldable pub receive_all : Buffer → List (List ℕ) → Buffer
receive_all c [] = c
receive_all c (chunk ∷ chunks) = receive_all (receive c chunk) chunks
