-- ===== src/Protocol/Messages.antt =====
-- `_ProtocolHandler.encode_message` and `_write_header` of cassandra/protocol.py. none is an exception.
use Prim.Native.Nat.{bit_or}
use python_driver.Prelude.{
  ℕ, Bool, ltb, leb, Option, none, some, List, [], ◌∷◌, if◌then◌else◌, length,
}
use python_driver.Prelude.Int.{ℤ, pos}
use python_driver.Marshal.{pack_unsigned, pack_signed}
use python_driver.Protocol.{Text, Value, ◌then◌, write_int, write_bytesmap}

abbrev pub compressed_flag : ℕ
compressed_flag = 1

abbrev pub tracing_flag : ℕ
tracing_flag = 2

abbrev pub custom_payload_flag : ℕ
custom_payload_flag = 4

abbrev pub use_beta_flag : ℕ
use_beta_flag = 16

-- `body` is what `send_body` writes for the version, or none if it raises; a payload that is None is no entries.
pub record Message : Type 0 where
  pub custom_payload : List (Text × Value)
  pub body : Option (List ℕ)
  pub tracing : Bool
  pub opcode : ℕ

-- The flags and the body so far.
pub record Draft : Type 0 where
  pub flags : ℕ
  pub body : List ℕ

unfoldable pub draft : ℕ → Option (List ℕ) → Option Draft
draft flags none = none
draft flags (some body) = some (record { flags = flags; body = body })

unfoldable pub with_payload : Message → ℕ → List (Text × Value) → Option Draft
with_payload msg protocol_version [] = draft 0 msg.body
with_payload msg protocol_version (entry ∷ entries) =
    if ltb protocol_version 4
    then none
    else draft (bit_or 0 custom_payload_flag) (write_bytesmap (entry ∷ entries) then msg.body)

unfoldable pub compress : Option (List ℕ → List ℕ) → Draft → Draft
compress none d = d
compress (some compressor) d =
    if ltb 0 (length d.body)
    then record { flags = bit_or d.flags compressed_flag; body = compressor d.body }
    else d

unfoldable pub set_flag : Bool → ℕ → Draft → Draft
set_flag b flag d = if b then record d { flags = bit_or d.flags flag } else d

-- `>BBbB` or `>BBhB`, and the length
unfoldable pub write_header : ℕ → ℕ → ℤ → ℕ → ℕ → Option (List ℕ)
write_header version flags stream_id opcode n =
    pack_unsigned 1 version
    then pack_unsigned 1 flags
    then pack_signed (if leb 3 version then 2 else 1) stream_id
    then pack_unsigned 1 opcode
    then write_int (pos n)

unfoldable pub framed : ℕ → ℤ → ℕ → Option Draft → Option (List ℕ)
framed protocol_version stream_id opcode none = none
framed protocol_version stream_id opcode (some d) =
    write_header protocol_version d.flags stream_id opcode (length d.body) then some d.body

unfoldable pub finished : Message → Option (List ℕ → List ℕ) → Bool → Option Draft → Option Draft
finished msg compressor allow_beta none = none
finished msg compressor allow_beta (some d) =
    some (
      set_flag allow_beta use_beta_flag (set_flag msg.tracing tracing_flag (compress compressor d)))

-- The flags and the body of the frame.
unfoldable pub contents : Message → ℕ → Option (List ℕ → List ℕ) → Bool → Option Draft
contents msg protocol_version compressor allow_beta =
    finished msg compressor allow_beta (with_payload msg protocol_version msg.custom_payload)

unfoldable pub encode_message : Message → ℤ → ℕ → Option (List ℕ → List ℕ) → Bool → Option (List ℕ)
encode_message msg stream_id protocol_version compressor allow_beta =
    framed protocol_version stream_id msg.opcode
      (contents msg protocol_version compressor allow_beta)
