-- ===== src/Protocol/Maps.antt =====
-- Round trips of the maps of Protocol.antt.
use mathlib.Core.List.{append_assoc, append-nil}
use python_driver.Prelude.{
  ℕ, ◌≡◌, refl, ap, ◌∙◌, Bool, true, false, if◌then◌else◌, Option, some, List, [], ◌∷◌, ◌++◌,
  length, arith, Bool-cases, inl, inr,
}
use python_driver.Protocol.{
  Text, Reader, ◌>>=◌, ◌then◌, read_short, write_short, read_string, write_string, write_each,
  read_stringlist, write_stringlist, Value, read_value, write_value, text_eq, assign, fill,
  write_pair, read_stringmultimap, write_stringmultimap, read_bytesmap, write_bytesmap,
}
use python_driver.Protocol.Elements.{
  Reads, ReadsBack, done-Reads, >>=-Reads, then-ReadsBack, write_short-ReadsBack,
  write_string-ReadsBack, write_stringlist-ReadsBack, write_value-ReadsBack, received, then_parts,
}

unfoldable pub has : Text → List Text → Bool
has k [] = false
has k (j ∷ js) = if text_eq j k then true else has k js

-- No key repeats one of those before it.
unfoldable pub IsFresh {ℓ} : {V : Type ℓ} → List Text → List (Text × V) → Type 0
IsFresh js [] = Unit {0}
IsFresh js ((k, v) ∷ d) = (has k js ≡ false) × IsFresh (js ++ k ∷ []) d

unfoldable pub IsDict {ℓ} : {V : Type ℓ} → List (Text × V) → Type 0
IsDict d = IsFresh [] d

unfoldable pub keys {ℓ} : {V : Type ℓ} → List (Text × V) → List Text
keys [] = []
keys ((k, v) ∷ d) = k ∷ keys d

unfoldable pub values {ℓ κ} :
    {V : Type ℓ} {W : Type κ} → (V → W) → List (Text × V) → List (Text × W)
values g [] = []
values g ((k, v) ∷ d) = (k, g v) ∷ values g d

keys-append {ℓ} :
    {V : Type ℓ} (d : List (Text × V)) (k : Text) (v : V)
    → keys (d ++ (k, v) ∷ []) ≡ keys d ++ k ∷ []
unfolding keys
keys-append [] k v = refl
keys-append ((j, w) ∷ d) k v = ap (◌∷◌ j) (keys-append d k v)

assign-fresh {ℓ} :
    {V : Type ℓ} (k : Text) (v : V) (d : List (Text × V))
    → has k (keys d) ≡ false
    → assign k v d ≡ d ++ (k, v) ∷ []
unfolding assign has keys
assign-fresh k v [] h = refl
assign-fresh k v ((j, w) ∷ d) h = elim (Bool-cases (text_eq j k)) [
  | inl e ↦ absurd (let h' : true ≡ false = rw e at h in ground arith)
  | inr e ↦ rw e (ap (◌∷◌ (j, w)) (assign-fresh k v d (rw e at h)))
]

module _ {V W : Type 0} (w : V → Option (List ℕ)) (r : Reader W) (g : V → W)
    (back : (v : V) → ReadsBack (w v) r (g v)) where
  fill-ReadsBack :
      (d : List (Text × V)) (acc : List (Text × W))
      → IsFresh (keys acc) d
      → ReadsBack (write_each (write_pair w) d) (fill r (length d) acc) (acc ++ values g d)
  unfolding write_each fill IsFresh values write_pair
  fill-ReadsBack [] acc h bs e =
      let q : [] ≡ bs = ground arith in rw (← q, append-nil acc) (done-Reads acc)
  fill-ReadsBack ((k, v) ∷ d) acc h bs e =
      let (xs, ys, ex, ey, eb) =
        then_parts (write_pair w (k, v)) (write_each (write_pair w) d) bs e in
      let (ks, vs, ek, ev, ex') = then_parts (write_string k) (w v) xs ex in
      let d' = acc ++ (k, g v) ∷ [] in
      let tail : Reads (fill r (length d) d') ys (d' ++ values g d) =
        fill-ReadsBack d (acc ++ (k, g v) ∷ []) (rw (keys-append acc k (g v)) h.1) ys ey in
      let all = append_assoc acc ((k, g v) ∷ []) (values g d) in
      let fresh = assign-fresh k (g v) acc h.0 in
      let result = acc ++ (k, g v) ∷ values g d in
      let tail' : Reads (fill r (length d) (assign k (g v) acc)) ys result =
        rw fresh (rw all at tail) in
      rw (eb ∙ ap (λ (l : List ℕ). l ++ ys) ex' ∙ append_assoc ks vs ys) (
        >>=-Reads read_string (λ j. r >>= λ x. fill r (length d) (assign j x acc)) k result ks
          (vs ++ ys) (write_string-ReadsBack k ks ek)
          (>>=-Reads r (λ x. fill r (length d) (assign k x acc)) (g v) result vs ys (back v vs ev)
            tail'))

  pub map-ReadsBack :
      (d : List (Text × V))
      → IsDict d
      → ReadsBack
          (write_short (length d) then write_each (write_pair w) d)
          (read_short >>= λ n. fill r n [])
          (values g d)
  unfolding IsDict keys
  map-ReadsBack d h =
      then-ReadsBack (write_short (length d)) (write_each (write_pair w) d) read_short
        (λ n. fill r n []) (length d) (values g d) (write_short-ReadsBack (length d))
        (fill-ReadsBack d [] h)

values_same {ℓ} : {V : Type ℓ} (d : List (Text × V)) → values (λ v. v) d ≡ d
unfolding values
values_same [] = refl
values_same ((k, v) ∷ d) = ap (◌∷◌ (k, v)) (values_same d)

-- A dict of lists of strings, in which no name repeats, is read back from what was written for it, whatever follows
-- in the body.
pub read_stringmultimap-write_stringmultimap :
    (d : List (Text × List Text)) (bs rest : List ℕ)
    → IsDict d
    → write_stringmultimap d ≡ some bs
    → read_stringmultimap (bs ++ rest) ≡ some (d, rest)
unfolding write_stringmultimap read_stringmultimap
read_stringmultimap-write_stringmultimap d bs rest h e =
    map-ReadsBack write_stringlist read_stringlist (λ l. l) write_stringlist-ReadsBack d h bs e rest
    ∙ ap (λ (x : List (Text × List Text)). some (x, rest)) (values_same d)

-- A custom payload, in which no name repeats, is read back from what was written for it, whatever follows, with a null
-- for each value that is null or unset.
pub read_bytesmap-write_bytesmap :
    (d : List (Text × Value)) (bs rest : List ℕ)
    → IsDict d
    → write_bytesmap d ≡ some bs
    → read_bytesmap (bs ++ rest) ≡ some (values received d, rest)
unfolding write_bytesmap read_bytesmap
read_bytesmap-write_bytesmap d bs rest h e =
    map-ReadsBack write_value read_value received write_value-ReadsBack d h bs e rest
