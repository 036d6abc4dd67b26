-- ===== src/Marshal/Vints.antt =====
-- `vints_unpack` reads back what `vints_pack` of Marshal.antt wrote.
use mathlib.Core.Path.{subst}
use mathlib.Core.List.{reverse, reverse-append, append_assoc, append-nil}
use python_driver.Prelude.{
  ℕ, zero, suc, ◌≤◌, ◌≡◌, refl, sym, ap, ◌∙◌, none, some, List, [], ◌∷◌, ◌++◌, length,
  length-append, arith, All,
}
use python_driver.Prelude.Int.{ℤ}
use python_driver.Marshal.{
  encode_zig_zag, vint_bytes, vints_loop, vints_pack, read_vint, unpacked, prepend, unpack_rounds,
  vints_unpack,
}
use python_driver.Marshal.Digits.{reverse_cons}
use python_driver.Marshal.Vint.{IsInt64, zig_zag, value_written}

-- What a value appends, or nothing if it is too big.
encoded : ℤ → List ℕ
encoded z = elim (vint_bytes (encode_zig_zag z)) [ none ↦ [] | some bs ↦ bs ]

encoded-bytes : (z : ℤ) (h : IsInt64 z) → encoded z ≡ (value_written z h).bytes
unfolding encoded
encoded-bytes z h = let e = (value_written z h).made in rw (encoded, e)

vint_bytes-encoded : (z : ℤ) → IsInt64 z → vint_bytes (encode_zig_zag z) ≡ some (encoded z)
vint_bytes-encoded z h = (value_written z h).made ∙ ap some (sym (encoded-bytes z h))

flat : List ℤ → List ℕ
flat [] = []
flat (v ∷ vs) = encoded v ++ flat vs

flat-append : (xs : List ℤ) (y : ℤ) → flat (xs ++ y ∷ []) ≡ flat xs ++ encoded y
unfolding flat
flat-append [] y = append-nil (encoded y)
flat-append (x ∷ xs) y =
    ap (λ (l : List ℕ). encoded x ++ l) (flat-append xs y)
    ∙ sym (append_assoc (encoded x) (flat xs) (encoded y))

vints_loop-flat :
    (vs : List ℤ) → All IsInt64 vs → (acc : List ℕ) → vints_loop acc vs ≡ some (acc ++ flat vs)
unfolding vints_loop flat
vints_loop-flat [] h acc = ap some (sym (append-nil acc))
vints_loop-flat (v ∷ vs) h acc =
    let e = vint_bytes-encoded v h.0 in
    rw (vints_loop, e)
      (vints_loop-flat vs h.1 (acc ++ encoded v) ∙ ap some (append_assoc acc (encoded v) (flat vs)))

All-append : (xs : List ℤ) (y : ℤ) → All IsInt64 xs → IsInt64 y → All IsInt64 (xs ++ y ∷ [])
All-append [] y h p = (p, tt)
All-append (x ∷ xs) y h p = (h.0, All-append xs y h.1 p)

All-reverse : (vs : List ℤ) → All IsInt64 vs → All IsInt64 (reverse vs)
All-reverse [] h = tt
All-reverse (v ∷ vs) h =
    subst (All IsInt64) (sym (reverse_cons v vs))
      (All-append (reverse vs) v (All-reverse vs h.1) h.0)

-- The bytes in the order of the values.
wire : List ℤ → List ℕ
wire [] = []
wire (v ∷ vs) = reverse (encoded v) ++ wire vs

reverse-flat : (vs : List ℤ) → reverse (flat (reverse vs)) ≡ wire vs
unfolding flat wire
reverse-flat [] = refl
reverse-flat (v ∷ vs) =
    ap (λ (l : List ℤ). reverse (flat l)) (reverse_cons v vs)
    ∙ ap reverse (flat-append (reverse vs) v)
    ∙ reverse-append (flat (reverse vs)) (encoded v)
    ∙ ap (λ (l : List ℕ). reverse (encoded v) ++ l) (reverse-flat vs)

unpack_first :
    (v : ℤ) (h : IsInt64 v) (rest : List ℕ) (f : ℕ) (vs : List ℤ) (first : ℕ) (more : List ℕ)
    → reverse (encoded v) ≡ first ∷ more
    → ((rest : List ℕ) → read_vint first (more ++ rest) ≡ some (encode_zig_zag v, rest))
    → length (reverse (encoded v) ++ rest) ≤ f
    → ((g : ℕ) → length rest ≤ g → unpack_rounds g rest ≡ unpacked vs)
    → unpack_rounds f (reverse (encoded v) ++ rest) ≡ unpacked (v ∷ vs)
unfolding unpack_rounds prepend
unpack_first v h rest zero vs first more e back le ih =
    absurd (omega (arith, ap (λ (l : List ℕ). length (l ++ rest)) e))
unpack_first v h rest (suc f) vs first more e back le ih =
    let b = back rest in
    let r =
      ih f (omega (arith, ap (λ (l : List ℕ). length (l ++ rest)) e, length-append more rest)) in
    rw e (rw (unpack_rounds, b, r, prepend, (zig_zag v h).0))

unpack_rounds-wire :
    (vs : List ℤ)
    → All IsInt64 vs
    → (f : ℕ) → length (wire vs) ≤ f
    → unpack_rounds f (wire vs) ≡ unpacked vs
unfolding unpack_rounds wire
unpack_rounds-wire [] h zero le = refl
unpack_rounds-wire [] h (suc f) le = refl
unpack_rounds-wire (v ∷ vs) h f le =
    let w = value_written v h.0 in
    unpack_first v h.0 (wire vs) f vs w.first w.more (ap reverse (encoded-bytes v h.0) ∙ w.turned)
      w.back le (λ g. unpack_rounds-wire vs h.1 g)

-- Every list of signed 64-bit integers is packed, and read back; the rounds that `vints_unpack` is given are
-- enough.
pub vints_unpack-vints_pack :
    (vs : List ℤ)
    → All IsInt64 vs
    → (bytes : List ℕ) × (vints_pack vs ≡ some bytes) × (vints_unpack bytes ≡ unpacked vs)
unfolding vints_pack vints_unpack
vints_unpack-vints_pack vs h =
    let packed = vints_loop-flat (reverse vs) (All-reverse vs h) [] in
    (
      wire vs,
      rw (vints_pack, packed) (ap some (reverse-flat vs)),
      unpack_rounds-wire vs h (length (wire vs)) (omega arith),
    )
