-- ===== src/Connection/Frames/Headers.antt =====
-- The header that `_write_header` of Protocol/Messages.antt writes is read by `_read_frame_header` of
-- Connection/Frames.antt.
use mathlib.Core.List.{append_assoc}
use python_driver.Prelude.{
  ℕ, ◌+◌, ◌%◌, ◌≤◌, ◌≡◌, refl, ap, true, false, ltb, leb, ltb→lt, if◌then◌else◌, none, some, List,
  [], ◌∷◌, ◌++◌, length, arith, inl, inr, Bool-cases, ◌==◌,
}
use python_driver.Prelude.Int.{ℤ, pos}
use python_driver.Marshal.{be_bytes, of_bytes, pack_unsigned, pack_signed, signed, unpack_signed}
use python_driver.Marshal.Fixed.{unpack_signed-pack_signed}
use python_driver.Protocol.{◌then◌, write_int}
use python_driver.Protocol.Elements.{then_parts}
use python_driver.Protocol.Messages.{write_header}
use python_driver.Connection.Frames.{
  Frame, stream_size, field, complete, frame_of, header_of_size, read_frame_header,
}

pack_byte : (v : ℕ) (bs : List ℕ) → pack_unsigned 1 v ≡ some bs → bs ≡ v ∷ []
unfolding pack_unsigned be_bytes
pack_byte v bs e = elim (Bool-cases (ltb v 256)) [
  | inl b ↦
      let q : some (v % 256 ∷ []) ≡ some bs = rw b at e in
      let m : v % 256 ≡ v = omega (arith, ltb→lt v 256 b) in ground arith
  | inr b ↦ absurd (let q : none ≡ some bs = rw b at e in ground arith)
]

signed_of :
    (w : ℕ) (bs : List ℕ) (z : ℤ)
    → length bs ≡ w
    → unpack_signed w bs ≡ some z
    → signed w (of_bytes 0 bs) ≡ z
unfolding unpack_signed
signed_of w bs z l e =
    let t : (length bs == w) ≡ true = ground (arith, l) in
    let q : some (signed w (of_bytes 0 bs)) ≡ some z = rw t at e in ground arith

-- The bytes of a packed number.
one_of : (l : List ℕ) → length l ≡ 1 → (a : ℕ) × (l ≡ a ∷ [])
one_of [] e = absurd (omega arith)
one_of (a ∷ []) e = (a, refl)
one_of (a ∷ b ∷ l) e = absurd (omega arith)

two_of : (l : List ℕ) → length l ≡ 2 → (a : ℕ) × (b : ℕ) × (l ≡ a ∷ b ∷ [])
two_of [] e = absurd (omega arith)
two_of (a ∷ l) e = let (b, q) = one_of l (omega arith) in (a, b, ap (◌∷◌ a) q)

four_of :
    (l : List ℕ) → length l ≡ 4 → (a : ℕ) × (b : ℕ) × (c : ℕ) × (d : ℕ) × (l ≡ a ∷ b ∷ c ∷ d ∷ [])
four_of [] e = absurd (omega arith)
four_of (a ∷ []) e = absurd (omega arith)
four_of (a ∷ b ∷ l) e =
    let (c, d, q) = two_of l (omega arith) in (a, b, c, d, ap (λ (m : List ℕ). a ∷ b ∷ m) q)

of_byte : (b : ℕ) → of_bytes 0 (b ∷ []) ≡ b
unfolding of_bytes
of_byte b = omega arith

-- The frame of a message.
unfoldable pub frame_for : ℕ → ℕ → ℤ → ℕ → ℕ → Frame
frame_for version flags stream opcode n = record {
  version = version;
  flags = flags;
  stream = stream;
  opcode = opcode;
  body_offset = 7 + stream_size version;
  end_pos = n + (7 + stream_size version);
}

frame_of-parts :
    (version s flags f opcode o n : ℕ) (stream z l : ℤ)
    → f ≡ flags
    → z ≡ stream
    → o ≡ opcode
    → l ≡ pos n
    → frame_of version s f z o l
      ≡ complete (record {
        version = version;
        flags = flags;
        stream = stream;
        opcode = opcode;
        body_offset = 7 + s;
        end_pos = n + (7 + s);
      })
unfolding frame_of
frame_of-parts version s flags f opcode o n stream z l ef ez eo el = rw (ef, ez, eo, el)

module _ (version flags opcode n : ℕ) (stream : ℤ) (h : version ≤ 5) (c d e f : ℕ) (more : List ℕ)
    (l : signed 4 (of_bytes 0 (c ∷ d ∷ e ∷ f ∷ [])) ≡ pos n) where
  header_two :
      (a b : ℕ)
      → leb 3 version ≡ true
      → signed 2 (of_bytes 0 (a ∷ b ∷ [])) ≡ stream
      → read_frame_header (version ∷ flags ∷ a ∷ b ∷ opcode ∷ c ∷ d ∷ e ∷ f ∷ more)
        ≡ complete (frame_for version flags stream opcode n)
  unfolding read_frame_header header_of_size field frame_of frame_for stream_size
  header_two a b v s =
      let m : version % 128 ≡ version = omega arith in
      let k : ltb 5 version ≡ false = ground arith in
      let len : leb 9 (length (version ∷ flags ∷ a ∷ b ∷ opcode ∷ c ∷ d ∷ e ∷ f ∷ more)) ≡ true =
        ground arith in
      rw (m, k, v)
        (rw len (
          frame_of-parts version 2 flags (of_bytes 0 (flags ∷ [])) opcode (of_bytes 0 (opcode ∷ []))
            n stream (signed 2 (of_bytes 0 (a ∷ b ∷ [])))
            (signed 4 (of_bytes 0 (c ∷ d ∷ e ∷ f ∷ []))) (of_byte flags) s (of_byte opcode) l))

  header_one :
      (a : ℕ)
      → leb 3 version ≡ false
      → signed 1 (of_bytes 0 (a ∷ [])) ≡ stream
      → read_frame_header (version ∷ flags ∷ a ∷ opcode ∷ c ∷ d ∷ e ∷ f ∷ more)
        ≡ complete (frame_for version flags stream opcode n)
  unfolding read_frame_header header_of_size field frame_of frame_for stream_size
  header_one a v s =
      let m : version % 128 ≡ version = omega arith in
      let k : ltb 5 version ≡ false = ground arith in
      let len : leb 8 (length (version ∷ flags ∷ a ∷ opcode ∷ c ∷ d ∷ e ∷ f ∷ more)) ≡ true =
        ground arith in
      rw (m, k, v)
        (rw len (
          frame_of-parts version 1 flags (of_bytes 0 (flags ∷ [])) opcode (of_bytes 0 (opcode ∷ []))
            n stream (signed 1 (of_bytes 0 (a ∷ []))) (signed 4 (of_bytes 0 (c ∷ d ∷ e ∷ f ∷ [])))
            (of_byte flags) s (of_byte opcode) l))

glue :
    (version flags opcode : ℕ) (bs b4 b3 b2 b1 fl st op ln : List ℕ)
    → bs ≡ b4 ++ ln
    → b4 ≡ b3 ++ op
    → b3 ≡ b2 ++ st
    → b2 ≡ b1 ++ fl
    → b1 ≡ version ∷ []
    → fl ≡ flags ∷ []
    → op ≡ opcode ∷ []
    → bs ≡ version ∷ flags ∷ st ++ (opcode ∷ ln)
glue version flags opcode bs b4 b3 b2 b1 fl st op ln q4 q3 q2 q1 v f o =
    rw (q4, q3, q2, q1, v, f, o)
      (ap (λ (m : List ℕ). version ∷ flags ∷ m) (append_assoc st (opcode ∷ []) ln))

-- The bytes of a header are read as the header, whatever follows, and are as many as it says.
module _ (version flags opcode n : ℕ) (stream : ℤ) (h : version ≤ 5) where
  header_parts :
      (bs : List ℕ)
      → write_header version flags stream opcode n ≡ some bs
      → (st : List ℕ) × (ln : List ℕ) × (bs ≡ version ∷ flags ∷ st ++ (opcode ∷ ln))
        × (pack_signed (if leb 3 version then 2 else 1) stream ≡ some st)
        × (length ln ≡ 4)
        × (signed 4 (of_bytes 0 ln) ≡ pos n)
  unfolding write_header write_int
  header_parts bs e =
      let x1 = pack_unsigned 1 version in
      let x2 = x1 then pack_unsigned 1 flags in
      let x3 = x2 then pack_signed (if leb 3 version then 2 else 1) stream in
      let x4 = x3 then pack_unsigned 1 opcode in
      let (b4, ln, e4, el, q4) = then_parts x4 (pack_signed 4 (pos n)) bs e in
      let (b3, op, e3, eo, q3) = then_parts x3 (pack_unsigned 1 opcode) b4 e4 in
      let (b2, st, e2, es, q2) =
        then_parts x2 (pack_signed (if leb 3 version then 2 else 1) stream) b3 e3 in
      let (b1, fl, e1, ef, q1) = then_parts x1 (pack_unsigned 1 flags) b2 e2 in
      let v = pack_byte version b1 e1 in
      let f = pack_byte flags fl ef in
      let o = pack_byte opcode op eo in
      let (l, u) = unpack_signed-pack_signed 3 (pos n) ln el in
      (
        st,
        ln,
        glue version flags opcode bs b4 b3 b2 b1 fl st op ln q4 q3 q2 q1 v f o,
        es,
        l,
        signed_of 4 ln (pos n) l u,
      )

  pub header_read :
      (bs : List ℕ)
      → write_header version flags stream opcode n ≡ some bs
      → (length bs ≡ 7 + stream_size version)
        × ((more : List ℕ)
            → read_frame_header (bs ++ more) ≡ complete (frame_for version flags stream opcode n))
  unfolding stream_size
  header_read bs e =
      let (st, ln, q, es, l, sl) = header_parts bs e in
      let (c, d, e', f, ql) = four_of ln l in
      elim (Bool-cases (leb 3 version)) [
        | inl v ↦
            let (l2, u2) = unpack_signed-pack_signed 1 stream st (rw v at es) in
            let (a, b, q2) = two_of st l2 in
            let sl' : signed 4 (of_bytes 0 (c ∷ d ∷ e' ∷ f ∷ [])) ≡ pos n = rw ql at sl in
            let s2 = signed_of 2 st stream l2 u2 in
            let s2' : signed 2 (of_bytes 0 (a ∷ b ∷ [])) ≡ stream = rw q2 at s2 in
            rw (q, q2, ql, v)
              (refl, λ more. header_two version flags opcode n stream h c d e' f more sl' a b v s2')
        | inr v ↦
            let (l1, u1) = unpack_signed-pack_signed 0 stream st (rw v at es) in
            let (a, q1) = one_of st l1 in
            let sl' : signed 4 (of_bytes 0 (c ∷ d ∷ e' ∷ f ∷ [])) ≡ pos n = rw ql at sl in
            let s1 = signed_of 1 st stream l1 u1 in
            let s1' : signed 1 (of_bytes 0 (a ∷ [])) ≡ stream = rw q1 at s1 in
            rw (q, q1, ql, v)
              (refl, λ more. header_one version flags opcode n stream h c d e' f more sl' a v s1')
      ]
