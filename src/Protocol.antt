-- ===== src/Protocol.antt =====
-- The elements of the wire protocol: the functions `read_byte` to `write_inet` of cassandra/protocol.py. A
-- reader takes the bytes that the file object has left; `f.read(n)` gives fewer than `n` bytes when
-- fewer are left, and all of them when `n` is negative. A writer gives the bytes that it appends. none is an
-- exception of either: a struct.error, a UnicodeError or an InternalError.
pub mod Elements
pub mod Maps
pub mod Messages
use python_driver.Prelude.{
  ℕ, zero, suc, ◌+◌, ◌==◌, Bool, true, false, ◌&&◌, Option, none, some, List, [], ◌∷◌, ◌++◌,
  if◌then◌else◌, length, take, drop,
}
use python_driver.Prelude.Int.{ℤ, pos, negsuc}
use python_driver.Prelude.Utf8.{encode, decode}
use python_driver.Marshal.{pack_unsigned, unpack_unsigned, pack_signed, unpack_signed}

-- Text is a list of code points.
abbrev pub Text : Type 0
Text = List ℕ

abbrev pub Reader {ℓ} : Type ℓ → Type ℓ
Reader A = List ℕ → Option (A × List ℕ)

infixl 5 ◌>>=◌
unfoldable pub ◌>>=◌ {ℓ κ} : {A : Type ℓ} {B : Type κ} → Reader A → (A → Reader B) → Reader B
◌>>=◌ m f bs = elim (m bs) [ none ↦ none | some (a, rest) ↦ f a rest ]

unfoldable pub done {ℓ} : {A : Type ℓ} → A → Reader A
done a bs = some (a, bs)

unfoldable pub lift {ℓ} : {A : Type ℓ} → Option A → Reader A
lift none bs = none
lift (some a) bs = some (a, bs)

-- One write after the other.
infixl 5 ◌then◌
unfoldable pub ◌then◌ : Option (List ℕ) → Option (List ℕ) → Option (List ℕ)
none then y = none
some x then none = none
some x then some y = some (x ++ y)

-- `f.read(n)`
unfoldable pub read : ℕ → Reader (List ℕ)
read n bs = some (take n bs, drop n bs)

unfoldable pub read_signed : ℤ → Reader (List ℕ)
read_signed (pos n) bs = read n bs
read_signed (negsuc n) bs = some (bs, [])

unfoldable pub read_byte : Reader ℤ
read_byte = do b ← read 1; lift (unpack_signed 1 b)

unfoldable pub write_byte : ℤ → Option (List ℕ)
write_byte b = pack_signed 1 b

unfoldable pub read_int : Reader ℤ
read_int = do b ← read 4; lift (unpack_signed 4 b)

unfoldable pub write_int : ℤ → Option (List ℕ)
write_int i = pack_signed 4 i

unfoldable pub write_uint : ℕ → Option (List ℕ)
write_uint i = pack_unsigned 4 i

unfoldable pub write_long : ℕ → Option (List ℕ)
write_long i = pack_unsigned 8 i

unfoldable pub read_short : Reader ℕ
read_short = do b ← read 2; lift (unpack_unsigned 2 b)

unfoldable pub write_short : ℕ → Option (List ℕ)
write_short s = pack_unsigned 2 s

unfoldable pub read_consistency_level : Reader ℕ
read_consistency_level = read_short

unfoldable pub write_consistency_level : ℕ → Option (List ℕ)
write_consistency_level cl = write_short cl

unfoldable pub read_binary_string : Reader (List ℕ)
read_binary_string = do size ← read_short; read size

unfoldable pub read_string : Reader Text
read_string = do size ← read_short; contents ← read size; lift (decode contents)

-- The bytes behind their length.
unfoldable pub sized_short : Option (List ℕ) → Option (List ℕ)
sized_short none = none
sized_short (some s) = write_short (length s) then some s

unfoldable pub sized_int : Option (List ℕ) → Option (List ℕ)
sized_int none = none
sized_int (some s) = write_int (pos (length s)) then some s

unfoldable pub write_string : Text → Option (List ℕ)
write_string s = sized_short (encode s)

unfoldable pub read_binary_longstring : Reader (List ℕ)
read_binary_longstring = do size ← read_int; read_signed size

unfoldable pub read_longstring : Reader Text
read_longstring = do contents ← read_binary_longstring; lift (decode contents)

unfoldable pub write_longstring : Text → Option (List ℕ)
write_longstring s = sized_int (encode s)

-- A list comprehension over `range(n)`
unfoldable pub repeat {ℓ} : {A : Type ℓ} → ℕ → Reader A → Reader (List A)
repeat zero r = done []
repeat (suc n) r = do a ← r; as' ← repeat n r; done (a ∷ as')

-- A loop that writes each item.
unfoldable pub write_each {ℓ} : {A : Type ℓ} → (A → Option (List ℕ)) → List A → Option (List ℕ)
write_each w [] = some []
write_each w (a ∷ items) = w a then write_each w items

unfoldable pub read_stringlist : Reader (List Text)
read_stringlist = do numstrs ← read_short; repeat numstrs read_string

unfoldable pub write_stringlist : List Text → Option (List ℕ)
write_stringlist stringlist =
    write_short (length stringlist) then write_each write_string stringlist

unfoldable pub text_eq : Text → Text → Bool
text_eq [] [] = true
text_eq [] (d ∷ t) = false
text_eq (c ∷ s) [] = false
text_eq (c ∷ s) (d ∷ t) = (c == d) && text_eq s t

-- `d[k] = v`, of a dict in insertion order.
unfoldable pub assign {ℓ} : {V : Type ℓ} → Text → V → List (Text × V) → List (Text × V)
assign k v [] = (k, v) ∷ []
assign k v ((j, w) ∷ d) = if text_eq j k then (j, v) ∷ d else (j, w) ∷ assign k v d

-- The loop of the map readers.
unfoldable pub fill {ℓ} : {V : Type ℓ} → Reader V → ℕ → List (Text × V) → Reader (List (Text × V))
fill r zero d = done d
fill r (suc n) d = do k ← read_string; v ← r; fill r n (assign k v d)

unfoldable pub write_pair {ℓ} : {V : Type ℓ} → (V → Option (List ℕ)) → Text × V → Option (List ℕ)
write_pair w (k, v) = write_string k then w v

unfoldable pub read_stringmap : Reader (List (Text × Text))
read_stringmap = do numpairs ← read_short; fill read_string numpairs []

unfoldable pub write_stringmap : List (Text × Text) → Option (List ℕ)
write_stringmap strmap =
    write_short (length strmap) then write_each (write_pair write_string) strmap

unfoldable pub read_stringmultimap : Reader (List (Text × List Text))
read_stringmultimap = do numkeys ← read_short; fill read_stringlist numkeys []

unfoldable pub write_stringmultimap : List (Text × List Text) → Option (List ℕ)
write_stringmultimap strmmap =
    write_short (length strmmap) then write_each (write_pair write_stringlist) strmmap

-- `None`, `_UNSET_VALUE` or bytes
pub data Value : Type 0 where
  null : Value
  unset : Value
  bytes : List ℕ → Value

unfoldable pub read_sized : ℤ → Reader (Option (List ℕ))
read_sized (negsuc n) = done none
read_sized (pos n) = do contents ← read n; done (some contents)

unfoldable pub read_value : Reader (Option (List ℕ))
read_value = do size ← read_int; read_sized size

unfoldable pub write_value : Value → Option (List ℕ)
write_value null = write_int (negsuc 0)
write_value unset = write_int (negsuc 1)
write_value (bytes v) = sized_int (some v)

unfoldable pub read_bytesmap : Reader (List (Text × Option (List ℕ)))
read_bytesmap = do numpairs ← read_short; fill read_value numpairs []

unfoldable pub write_bytesmap : List (Text × Value) → Option (List ℕ)
write_bytesmap bytesmap =
    write_short (length bytesmap) then write_each (write_pair write_value) bytesmap

-- A character is a colon.
unfoldable pub has_colon : Text → Bool
has_colon [] = false
has_colon (c ∷ t) = if c == 58 then true else has_colon t

-- `inet_pton` and `inet_ntop` of the socket module; the Boolean says that the family is AF_INET6.
module _ (inet_pton : Bool → Text → Option (List ℕ)) (inet_ntop : Bool → List ℕ → Option Text) where
  unfoldable pub address_of : ℤ → List ℕ → Option Text
  address_of (negsuc n) addrbytes = none
  address_of (pos n) addrbytes =
      if n == 4
      then inet_ntop false addrbytes
      else (if n == 16 then inet_ntop true addrbytes else none)

  unfoldable pub read_inet_addr_only : Reader Text
  read_inet_addr_only = do
    size ← read_byte
    addrbytes ← read_signed size
    lift (address_of size addrbytes)

  unfoldable pub read_inet : Reader (Text × ℤ)
  read_inet = do addr ← read_inet_addr_only; port ← read_int; done (addr, port)

  unfoldable pub sized_byte : Option (List ℕ) → Option (List ℕ)
  sized_byte none = none
  sized_byte (some addrbytes) = write_byte (pos (length addrbytes)) then some addrbytes

  unfoldable pub write_inet : Text × ℤ → Option (List ℕ)
  write_inet (addr, port) = sized_byte (inet_pton (has_colon addr) addr) then write_int port

  -- The loop of `read_error_code_map`
  unfoldable pub fill_codes : ℕ → List (Text × ℕ) → Reader (List (Text × ℕ))
  fill_codes zero d = done d
  fill_codes (suc n) d = do
    endpoint ← read_inet_addr_only
    code ← read_short
    fill_codes n (assign endpoint code d)

  -- `range` of a negative number is empty.
  unfoldable pub codes_of : ℤ → Reader (List (Text × ℕ))
  codes_of (negsuc n) = done []
  codes_of (pos n) = fill_codes n []

  unfoldable pub read_error_code_map : Reader (List (Text × ℕ))
  read_error_code_map = do numpairs ← read_int; codes_of numpairs
