-- ===== src/Prelude/Utf8.antt =====
-- Python's strict UTF-8 codec, of text that is a list of code points. none is a UnicodeError.
use python_driver.Prelude.Tests.{ltb, leb, ltb→lt, if◌then◌else◌, Bool-cases}
use Prim.Native.Nat.{ℕ, zero, suc, ◌+◌, ◌-◌, ◌*◌, ◌/◌, ◌%◌, ◌≤◌, ◌<◌}
use mathlib.Core.Path.{◌≡◌, refl}
use mathlib.Core.Logic.{inl, inr}
use mathlib.Core.Bool.{Bool, true, false}
use mathlib.Core.Option.{Option, none, some}
use mathlib.Core.List.{List, [], ◌∷◌, ◌++◌}
use native.Mathlib.Omega.{arith}

-- A code point that is no surrogate.
unfoldable pub is_scalar : ℕ → Bool
is_scalar c = if ltb c 55296 then true else (if ltb c 57344 then false else ltb c 1114112)

unfoldable pub encode_point : ℕ → List ℕ
encode_point c =
    if ltb c 128
    then c ∷ []
    else (if ltb c 2048
        then (192 + c / 64) ∷ (128 + c % 64) ∷ []
        else (if ltb c 65536
            then (224 + c / 4096) ∷ (128 + c / 64 % 64) ∷ (128 + c % 64) ∷ []
            else (240 + c / 262144)
              ∷ (128 + c / 4096 % 64)
              ∷ (128 + c / 64 % 64)
              ∷ (128 + c % 64)
              ∷ []))

unfoldable pub join_encoded : ℕ → Option (List ℕ) → Option (List ℕ)
join_encoded c none = none
join_encoded c (some bs) = if is_scalar c then some (encode_point c ++ bs) else none

unfoldable pub encode : List ℕ → Option (List ℕ)
encode [] = some []
encode (c ∷ text) = join_encoded c (encode text)

-- How many bytes follow a first byte, its bits of the code point, and the least code point of that form.
unfoldable pub lead : ℕ → Option (ℕ × ℕ × ℕ)
lead b =
    if ltb b 128
    then some (0, b, 0)
    else (if ltb b 192
        then none
        else (if ltb b 224
            then some (1, b - 192, 128)
            else (if ltb b 240
                then some (2, b - 224, 2048)
                else (if ltb b 248 then some (3, b - 240, 65536) else none))))

unfoldable pub valid : ℕ → ℕ → Bool
valid least c = if leb least c then is_scalar c else false

unfoldable pub prepend_point : ℕ → ℕ → Option (List ℕ) → Option (List ℕ)
prepend_point least c none = none
prepend_point least c (some text) = if valid least c then some (c ∷ text) else none

-- A byte that continues a code point.
unfoldable pub is_tail : ℕ → Bool
is_tail b = if ltb b 128 then false else ltb b 192

-- `n` more bytes belong to the code point whose bits so far are `c`.
unfoldable pub decode_from : ℕ → ℕ → ℕ → List ℕ → Option (List ℕ)
decode_from zero c least [] = some []
decode_from (suc n) c least [] = none
decode_from zero c least (b ∷ bs) = elim (lead b) [
  | none ↦ none
  | some (zero, v, l) ↦ prepend_point l v (decode_from 0 0 0 bs)
  | some (suc n, v, l) ↦ decode_from (suc n) v l bs
]
decode_from (suc zero) c least (b ∷ bs) = elim (is_tail b) [
  | false ↦ none
  | true ↦ prepend_point least (c * 64 + (b - 128)) (decode_from 0 0 0 bs)
]
decode_from (suc (suc n)) c least (b ∷ bs) = elim (is_tail b) [
  | false ↦ none
  | true ↦ decode_from (suc n) (c * 64 + (b - 128)) least bs
]

unfoldable pub decode : List ℕ → Option (List ℕ)
decode bs = decode_from 0 0 0 bs

lead_one : (b : ℕ) → b < 128 → lead b ≡ some (0, b, 0)
unfolding lead
lead_one b h = ground arith

lead_two : (b v : ℕ) → b ≡ 192 + v → v < 32 → lead b ≡ some (1, v, 128)
unfolding lead
lead_two b v e h = ground arith

lead_three : (b v : ℕ) → b ≡ 224 + v → v < 16 → lead b ≡ some (2, v, 2048)
unfolding lead
lead_three b v e h = ground arith

lead_four : (b v : ℕ) → b ≡ 240 + v → v < 8 → lead b ≡ some (3, v, 65536)
unfolding lead
lead_four b v e h = ground arith

last_tail :
    (c least b : ℕ) (bs : List ℕ)
    → is_tail b ≡ true
    → decode_from 1 c least (b ∷ bs) ≡ prepend_point least (c * 64 + (b - 128)) (decode bs)
unfolding decode_from decode
last_tail c least b bs t = rw (decode_from, t)

next_tail :
    (n c least b : ℕ) (bs : List ℕ)
    → is_tail b ≡ true
    → decode_from (suc (suc n)) c least (b ∷ bs) ≡ decode_from (suc n) (c * 64 + (b - 128)) least bs
unfolding decode_from
next_tail n c least b bs t = rw (decode_from, t)

tail_byte : (v : ℕ) → is_tail (128 + v % 64) ≡ true
unfolding is_tail
tail_byte v = ground arith

module _ (c : ℕ) (rest : List ℕ) where
  one_byte : c < 128 → decode (c ∷ rest) ≡ prepend_point 0 c (decode rest)
  unfolding decode decode_from
  one_byte h = let l : lead c ≡ some (0, c, 0) = lead_one c h in rw (decode_from, l)

  two_bytes :
      128 ≤ c
      → c < 2048
      → decode ((192 + c / 64) ∷ (128 + c % 64) ∷ rest) ≡ prepend_point 128 c (decode rest)
  unfolding decode decode_from
  two_bytes g h =
      let l : lead (192 + c / 64) ≡ some (1, c / 64, 128) =
        lead_two (192 + c / 64) (c / 64) refl (omega arith) in
      let t = tail_byte c in
      let v : c / 64 * 64 + (128 + c % 64 - 128) ≡ c = omega arith in
      rw (decode_from, l, last_tail (c / 64) 128 (128 + c % 64) rest t, v)

  three_bytes :
      2048 ≤ c
      → c < 65536
      → decode ((224 + c / 4096) ∷ (128 + c / 64 % 64) ∷ (128 + c % 64) ∷ rest)
        ≡ prepend_point 2048 c (decode rest)
  unfolding decode decode_from
  three_bytes g h =
      let l : lead (224 + c / 4096) ≡ some (2, c / 4096, 2048) =
        lead_three (224 + c / 4096) (c / 4096) refl (omega arith) in
      let t = tail_byte (c / 64) in
      let t' = tail_byte c in
      let v : (c / 4096 * 64 + (128 + c / 64 % 64 - 128)) * 64 + (128 + c % 64 - 128) ≡ c =
        omega arith in
      rw (
        decode_from,
        l,
        next_tail 0 (c / 4096) 2048 (128 + c / 64 % 64) ((128 + c % 64) ∷ rest) t,
        last_tail (c / 4096 * 64 + (128 + c / 64 % 64 - 128)) 2048 (128 + c % 64) rest t',
        v,
      )

  four_bytes :
      65536 ≤ c
      → c < 1114112
      → decode
          ((240 + c / 262144) ∷ (128 + c / 4096 % 64) ∷ (128 + c / 64 % 64) ∷ (128 + c % 64) ∷ rest)
        ≡ prepend_point 65536 c (decode rest)
  unfolding decode decode_from
  four_bytes g h =
      let l : lead (240 + c / 262144) ≡ some (3, c / 262144, 65536) =
        lead_four (240 + c / 262144) (c / 262144) refl (omega arith) in
      let t = tail_byte (c / 4096) in
      let t1 = tail_byte (c / 64) in
      let t' = tail_byte c in
      let v : ((c / 262144 * 64 + (128 + c / 4096 % 64 - 128)) * 64 + (128 + c / 64 % 64 - 128))
              * 64
            + (128 + c % 64 - 128)
          ≡ c =
        omega arith in
      let s1 = 128 + c / 4096 % 64 in
      let s2 = 128 + c / 64 % 64 in
      let v1 = c / 262144 * 64 + (s1 - 128) in
      let v2 = v1 * 64 + (s2 - 128) in
      rw (
        decode_from,
        l,
        next_tail 1 (c / 262144) 65536 s1 (s2 ∷ (128 + c % 64) ∷ rest) t,
        next_tail 0 v1 65536 s2 ((128 + c % 64) ∷ rest) t1,
        last_tail v2 65536 (128 + c % 64) rest t',
        v,
      )

pub IsScalar : ℕ → Type 0
IsScalar c = is_scalar c ≡ true

prepend_valid :
    (least c : ℕ) (text : List ℕ)
    → least ≤ c
    → is_scalar c ≡ true
    → prepend_point least c (some text) ≡ some (c ∷ text)
unfolding prepend_point valid
prepend_valid least c text h v = ground arith

scalar_bound : (c : ℕ) → is_scalar c ≡ true → c < 1114112
unfolding is_scalar
scalar_bound c h = ground arith

decode-encode_point :
    (c : ℕ) (rest text : List ℕ)
    → is_scalar c ≡ true
    → decode rest ≡ some text
    → decode (encode_point c ++ rest) ≡ some (c ∷ text)
unfolding encode_point
decode-encode_point c rest text v e = elim (Bool-cases (ltb c 128)) [
  | inl a ↦ rw (a, one_byte c rest (ltb→lt c 128 a), e) (prepend_valid 0 c text (omega arith) v)
  | inr a ↦ elim (Bool-cases (ltb c 2048)) [
    | inl b ↦
        rw (a, b, two_bytes c rest (ground arith) (ground arith), e)
          (prepend_valid 128 c text (ground arith) v)
    | inr b ↦ elim (Bool-cases (ltb c 65536)) [
      | inl d ↦
          rw (a, b, d, three_bytes c rest (ground arith) (ground arith), e)
            (prepend_valid 2048 c text (ground arith) v)
      | inr d ↦
          rw (a, b, d, four_bytes c rest (ground arith) (scalar_bound c v), e)
            (prepend_valid 65536 c text (ground arith) v)
    ]
  ]
]

joined_encoded :
    (c : ℕ) (o : Option (List ℕ)) (bs : List ℕ)
    → join_encoded c o ≡ some bs
    → (rest : List ℕ) × (o ≡ some rest) × (is_scalar c ≡ true) × (bs ≡ encode_point c ++ rest)
unfolding join_encoded
joined_encoded c none bs e = absurd (ground arith)
joined_encoded c (some rest) bs e = elim (Bool-cases (is_scalar c)) [
  | inl v ↦
      (rest, refl, v, let e' : some (encode_point c ++ rest) ≡ some bs = rw v at e in ground arith)
  | inr v ↦ absurd (let e' : none ≡ some bs = rw v at e in ground arith)
]

-- Text that is encoded is decoded to the same text.
pub decode-encode : (text bs : List ℕ) → encode text ≡ some bs → decode bs ≡ some text
unfolding encode decode decode_from
decode-encode [] bs e = let q : [] ≡ bs = ground arith in rw (← q)
decode-encode (c ∷ text) bs e =
    let (rest, there, v, q) = joined_encoded c (encode text) bs e in
    rw q (decode-encode_point c rest text v (decode-encode text rest there))
