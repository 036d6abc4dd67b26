-- ===== src/Tests/Protocols.antt =====
-- Tests of Protocol, and of Connection/Frames with Protocol/Messages.
use python_driver.Prelude.{
  ℕ, ◌≡◌, refl, Bool, true, false, Option, none, some, List, [], ◌∷◌, ◌++◌, arith,
}
use python_driver.Prelude.Int.{pos}
use python_driver.Prelude.Utf8
use python_driver.Marshal
use python_driver.Protocol
use python_driver.Protocol.{
  Text, Value, null, unset, bytes, write_each, write_stringmultimap, read_stringmultimap,
  write_bytesmap, read_bytesmap, write_inet, read_inet,
}
use python_driver.Protocol.Elements.{received, read_inet-write_inet}
use python_driver.Protocol.Maps.{
  has, IsFresh, IsDict, values, read_stringmultimap-write_stringmultimap,
  read_bytesmap-write_bytesmap,
}
use python_driver.Protocol.Messages
use python_driver.Protocol.Messages.{Message}
use python_driver.Connection.Frames.{receive_all, empty}
use python_driver.Connection.Frames.Chunks.{joined}
use python_driver.Connection.Frames.Sent.{Sent, encoded, arrivals, receive_all-encode_message}

protocol_program : Unit {0}
unfolding Utf8.is_scalar Utf8.encode_point Utf8.join_encoded Utf8.encode Marshal.be_bytes
    Marshal.pack_unsigned Marshal.pack_signed Protocol.◌then◌ Protocol.write_byte Protocol.write_int
    Protocol.write_short Protocol.sized_short Protocol.sized_int Protocol.write_string write_each
    Protocol.write_stringlist Protocol.write_pair write_stringmultimap Protocol.write_value
    write_bytesmap Protocol.has_colon Protocol.sized_byte write_inet Protocol.text_eq has IsFresh
    IsDict Messages.draft Messages.with_payload Messages.compress Messages.set_flag
    Messages.write_header Messages.framed Messages.finished Messages.contents
    Messages.encode_message encoded joined
protocol_program = tt

-- The SUPPORTED body {"A": ["é", ""], "€": []}.
abbrev options : List (Text × List Text)
options = ((65 ∷ []), (233 ∷ []) ∷ [] ∷ []) ∷ ((8364 ∷ []), []) ∷ []

abbrev options_bytes : List ℕ
options_bytes =
    0 ∷ 2 ∷ 0 ∷ 1 ∷ 65 ∷ 0 ∷ 2 ∷ 0 ∷ 2 ∷ 195 ∷ 169 ∷ 0 ∷ 0 ∷ 0 ∷ 3 ∷ 226 ∷ 130 ∷ 172 ∷ 0 ∷ 0 ∷ []

options-IsDict : IsDict options
unfolding protocol_program
options-IsDict = (refl, (refl, tt))

options_written : write_stringmultimap options ≡ some options_bytes
unfolding protocol_program
options_written = refl

read_stringmultimap-write_stringmultimap_example :
    read_stringmultimap (options_bytes ++ 7 ∷ []) ≡ some (options, 7 ∷ [])
read_stringmultimap-write_stringmultimap_example =
    read_stringmultimap-write_stringmultimap options options_bytes (7 ∷ []) options-IsDict
      options_written

abbrev payload : List (Text × Value)
payload = ((65 ∷ []), bytes (1 ∷ 2 ∷ [])) ∷ ((66 ∷ []), null) ∷ ((67 ∷ []), unset) ∷ []

abbrev payload_bytes : List ℕ
payload_bytes =
    0 ∷ 3 ∷ 0 ∷ 1 ∷ 65 ∷ 0 ∷ 0 ∷ 0 ∷ 2 ∷ 1 ∷ 2 ∷ 0 ∷ 1 ∷ 66 ∷ 255 ∷ 255 ∷ 255 ∷ 255 ∷ 0 ∷ 1 ∷ 67
    ∷ 255 ∷ 255 ∷ 255 ∷ 254 ∷ []

payload-IsDict : IsDict payload
unfolding protocol_program
payload-IsDict = (refl, (refl, (refl, tt)))

payload_written : write_bytesmap payload ≡ some payload_bytes
unfolding protocol_program
payload_written = refl

read_bytesmap-write_bytesmap_example :
    read_bytesmap (payload_bytes ++ []) ≡ some (values received payload, [])
read_bytesmap-write_bytesmap_example =
    read_bytesmap-write_bytesmap payload payload_bytes [] payload-IsDict payload_written

-- A codec of the one address 1.1.1.1.
abbrev pton : Bool → Text → Option (List ℕ)
pton v6 t = some (1 ∷ 1 ∷ 1 ∷ 1 ∷ [])

abbrev ntop : Bool → List ℕ → Option Text
ntop v6 b = some (49 ∷ 46 ∷ 49 ∷ 46 ∷ 49 ∷ 46 ∷ 49 ∷ [])

abbrev address : Text
address = 49 ∷ 46 ∷ 49 ∷ 46 ∷ 49 ∷ 46 ∷ 49 ∷ []

abbrev address_bytes : List ℕ
address_bytes = 4 ∷ 1 ∷ 1 ∷ 1 ∷ 1 ∷ 0 ∷ 0 ∷ 35 ∷ 82 ∷ []

address_written : write_inet pton ntop (address, pos 9042) ≡ some address_bytes
unfolding protocol_program
address_written = refl

read_inet-write_inet_example :
    read_inet pton ntop (address_bytes ++ 5 ∷ []) ≡ some ((address, pos 9042), 5 ∷ [])
unfolding protocol_program
read_inet-write_inet_example =
    read_inet-write_inet pton ntop address (pos 9042) (1 ∷ 1 ∷ 1 ∷ 1 ∷ []) address_bytes (5 ∷ [])
      refl refl refl address_written

-- Two messages of version 4, the first with a payload and tracing, the second with an empty body.
abbrev first_message : Message
first_message = record {
  custom_payload = payload;
  body = some (9 ∷ 8 ∷ []);
  tracing = true;
  opcode = 7;
}

abbrev second_message : Message
second_message = record { custom_payload = []; body = some []; tracing = false; opcode = 5 }

abbrev sent : List Sent
sent =
    record { message = first_message; stream_id = pos 300 }
    ∷ record { message = second_message; stream_id = pos 2 }
    ∷ []

abbrev sent_bytes : List ℕ
sent_bytes =
    4 ∷ 6 ∷ 1 ∷ 44 ∷ 7 ∷ 0 ∷ 0 ∷ 0 ∷ 27 ∷ 0 ∷ 3 ∷ 0 ∷ 1 ∷ 65 ∷ 0 ∷ 0 ∷ 0 ∷ 2 ∷ 1 ∷ 2 ∷ 0 ∷ 1 ∷ 66
    ∷ 255 ∷ 255 ∷ 255 ∷ 255 ∷ 0 ∷ 1 ∷ 67 ∷ 255 ∷ 255 ∷ 255 ∷ 254 ∷ 9 ∷ 8 ∷ 4 ∷ 0 ∷ 0 ∷ 2 ∷ 5 ∷ 0 ∷ 0
    ∷ 0 ∷ 0 ∷ []

sent_written : write_each (encoded 4 none false) sent ≡ some sent_bytes
unfolding protocol_program
sent_written = refl

abbrev chunks : List (List ℕ)
chunks =
    (4 ∷ 6 ∷ 1 ∷ [])
    ∷ (44 ∷ 7 ∷ 0 ∷ 0 ∷ 0 ∷ 27 ∷ 0 ∷ 3 ∷ 0 ∷ 1 ∷ 65 ∷ 0 ∷ 0 ∷ 0 ∷ 2 ∷ 1 ∷ 2 ∷ 0 ∷ 1 ∷ 66 ∷ 255 ∷ 255
        ∷ 255 ∷ 255 ∷ 0 ∷ 1 ∷ 67 ∷ 255 ∷ 255 ∷ 255 ∷ 254 ∷ 9 ∷ [])
    ∷ (8 ∷ 4 ∷ 0 ∷ 0 ∷ 2 ∷ 5 ∷ [])
    ∷ (0 ∷ 0 ∷ 0 ∷ 0 ∷ [])
    ∷ []

joined-chunks : joined chunks ≡ sent_bytes
unfolding joined
joined-chunks = refl

receive_all-encode_message_example : receive_all empty chunks ≡ record {
  iobuf = [];
  current_frame = none;
  read = arrivals 4 none false sent;
  defunct = false;
}
receive_all-encode_message_example =
    receive_all-encode_message 4 none false (omega arith) sent sent_bytes chunks sent_written
      joined-chunks
