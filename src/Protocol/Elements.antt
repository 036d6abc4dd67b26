-- ===== src/Protocol/Elements.antt =====
-- Round trips of the elements of Protocol.antt, and of what is put together from them.
use mathlib.Core.Path.{subst}
use mathlib.Core.List.{append_assoc}
use python_driver.Prelude.{
  ℕ, Bool, true, false, if◌then◌else◌, ◌≡◌, refl, ap, Option, none, some, List, [], ◌∷◌, ◌++◌,
  length, arith, map, take_all, drop_all,
}
use python_driver.Prelude.Int.{ℤ, pos, negsuc}
use python_driver.Prelude.Utf8.{encode, decode, decode-encode}
use python_driver.Marshal.{unpack_unsigned, unpack_signed}
use python_driver.Marshal.Fixed.{unpack_unsigned-pack_unsigned, unpack_signed-pack_signed}
use python_driver.Protocol.{
  Text, Reader, ◌>>=◌, done, lift, ◌then◌, read, read_byte, write_byte, read_int, write_int,
  read_short, write_short, read_string, sized_short, sized_int, write_string, repeat, write_each,
  read_stringlist, write_stringlist, Value, null, unset, bytes, read_value, write_value, read_sized,
  read_signed, has_colon, address_of, read_inet_addr_only, sized_byte, read_inet, write_inet,
}

-- The reader takes these bytes, whatever follows, and gives this.
abbrev pub Reads {ℓ} : {A : Type ℓ} → Reader A → List ℕ → A → Type ℓ
Reads r bs a = (rest : List ℕ) → r (bs ++ rest) ≡ some (a, rest)

-- What is written, if anything, is read back as this.
abbrev pub ReadsBack {ℓ} : {A : Type ℓ} → Option (List ℕ) → Reader A → A → Type ℓ
ReadsBack w r a = (bs : List ℕ) → w ≡ some bs → Reads r bs a

pub read-Reads : (bs : List ℕ) (n : ℕ) → length bs ≡ n → Reads (read n) bs bs
unfolding read
read-Reads bs n l rest = rw (← l) (rw (take_all bs rest, drop_all bs rest))

pub done-Reads {ℓ} : {A : Type ℓ} (a : A) → Reads (done a) [] a
unfolding done
done-Reads a rest = refl

pub lift-Reads {ℓ} : {A : Type ℓ} (o : Option A) (a : A) → o ≡ some a → Reads (lift o) [] a
unfolding lift
lift-Reads o a e rest = rw e

module _ {ℓ κ} {A : Type ℓ} {B : Type κ} (r : Reader A) (f : A → Reader B) (a : A) (b : B) where
  pub >>=-Reads : (xs ys : List ℕ) → Reads r xs a → Reads (f a) ys b → Reads (r >>= f) (xs ++ ys) b
  unfolding ◌>>=◌
  >>=-Reads xs ys p q rest =
      let e = append_assoc xs ys rest in let p' = p (ys ++ rest) in rw (e, ◌>>=◌, p') (q rest)

  pub >>=-Reads_end : (xs : List ℕ) → Reads r xs a → Reads (f a) [] b → Reads (r >>= f) xs b
  unfolding ◌>>=◌
  >>=-Reads_end xs p q rest = let p' = p rest in rw (◌>>=◌, p') (q rest)

fixed :
    {A : Type 0} (n : ℕ) (unpack : List ℕ → Option A) (bs : List ℕ) (a : A)
    → length bs ≡ n
    → unpack bs ≡ some a
    → Reads (read n >>= λ b. lift (unpack b)) bs a
fixed n unpack bs a l e =
    >>=-Reads_end (read n) (λ b. lift (unpack b)) bs a bs (read-Reads bs n l)
      (lift-Reads (unpack bs) a e)

pub write_short-ReadsBack : (n : ℕ) → ReadsBack (write_short n) read_short n
unfolding write_short read_short
write_short-ReadsBack n bs e =
    let (l, u) = unpack_unsigned-pack_unsigned 2 n bs e in fixed 2 (unpack_unsigned 2) bs n l u

pub write_int-ReadsBack : (z : ℤ) → ReadsBack (write_int z) read_int z
unfolding write_int read_int
write_int-ReadsBack z bs e =
    let (l, u) = unpack_signed-pack_signed 3 z bs e in fixed 4 (unpack_signed 4) bs z l u

pub write_byte-ReadsBack : (z : ℤ) → ReadsBack (write_byte z) read_byte z
unfolding write_byte read_byte
write_byte-ReadsBack z bs e =
    let (l, u) = unpack_signed-pack_signed 0 z bs e in fixed 1 (unpack_signed 1) bs z l u

pub then_parts :
    (x y : Option (List ℕ)) (bs : List ℕ)
    → x then y ≡ some bs
    → (xs : List ℕ) × (ys : List ℕ) × (x ≡ some xs) × (y ≡ some ys) × (bs ≡ xs ++ ys)
unfolding ◌then◌
then_parts none y bs e = absurd (ground arith)
then_parts (some xs) none bs e = absurd (ground arith)
then_parts (some xs) (some ys) bs e = (xs, ys, refl, refl, ground arith)

module _ {ℓ κ} {A : Type ℓ} {B : Type κ} (x y : Option (List ℕ)) (r : Reader A) (f : A → Reader B)
    (a : A) (b : B) where
  pub then-ReadsBack : ReadsBack x r a → ReadsBack y (f a) b → ReadsBack (x then y) (r >>= f) b
  then-ReadsBack p q bs e =
      let (xs, ys, ex, ey, eb) = then_parts x y bs e in
      rw eb (>>=-Reads r f a b xs ys (p xs ex) (q ys ey))

module _ {ℓ κ} {A : Type ℓ} {B : Type κ} (x : Option (List ℕ)) (r : Reader A) (f : A → Reader B)
    (a : A) (b : B) where
  pub end-ReadsBack : ReadsBack x r a → Reads (f a) [] b → ReadsBack x (r >>= f) b
  end-ReadsBack p q bs e = >>=-Reads_end r f a b bs (p bs e) q

pub read-ReadsBack : (bs : List ℕ) → ReadsBack (some bs) (read (length bs)) bs
read-ReadsBack bs cs e = let q : bs ≡ cs = ground arith in rw (← q) (read-Reads bs (length bs) refl)

string_of :
    (o : Option (List ℕ)) (s : Text) (bs : List ℕ)
    → ((es : List ℕ) → o ≡ some es → decode es ≡ some s)
    → sized_short o ≡ some bs
    → Reads read_string bs s
unfolding sized_short read_string
string_of none s bs d e = absurd (ground arith)
string_of (some es) s bs d e =
    then-ReadsBack (write_short (length es)) (some es) read_short
      (λ n. read n >>= λ c. lift (decode c)) (length es) s (write_short-ReadsBack (length es))
      (end-ReadsBack (some es) (read (length es)) (λ c. lift (decode c)) es s (read-ReadsBack es)
        (lift-Reads (decode es) s (d es refl)))
      bs e

pub write_string-ReadsBack : (s : Text) → ReadsBack (write_string s) read_string s
unfolding write_string
write_string-ReadsBack s bs e = string_of (encode s) s bs (decode-encode s) e

value_of :
    (o : Option (List ℕ)) (v bs : List ℕ)
    → o ≡ some v
    → sized_int o ≡ some bs
    → Reads read_value bs (some v)
unfolding sized_int read_value read_sized
value_of none v bs q e = absurd (ground arith)
value_of (some w) v bs q e =
    let q' : w ≡ v = ground arith in
    rw (← q') (
      then-ReadsBack (write_int (pos (length w))) (some w) read_int read_sized (pos (length w))
        (some w) (write_int-ReadsBack (pos (length w)))
        (end-ReadsBack (some w) (read (length w)) (λ c. done (some c)) w (some w) (read-ReadsBack w)
          (done-Reads (some w)))
        bs e)

-- What a value is read back as: an unset value is a null.
unfoldable pub received : Value → Option (List ℕ)
received null = none
received unset = none
received (bytes v) = some v

pub write_value-ReadsBack : (v : Value) → ReadsBack (write_value v) read_value (received v)
unfolding write_value received read_value read_sized
write_value-ReadsBack null =
    end-ReadsBack (write_int (negsuc 0)) read_int read_sized (negsuc 0) none
      (write_int-ReadsBack (negsuc 0)) (done-Reads none)
write_value-ReadsBack unset =
    end-ReadsBack (write_int (negsuc 1)) read_int read_sized (negsuc 1) none
      (write_int-ReadsBack (negsuc 1)) (done-Reads none)
write_value-ReadsBack (bytes v) = λ bs e. value_of (some v) v bs refl e

module _ {A B : Type 0} (w : A → Option (List ℕ)) (r : Reader B) (g : A → B)
    (back : (a : A) → ReadsBack (w a) r (g a)) where
  pub write_each-ReadsBack :
      (items : List A) → ReadsBack (write_each w items) (repeat (length items) r) (map g items)
  unfolding write_each repeat
  write_each-ReadsBack [] bs e = let q : [] ≡ bs = ground arith in rw (← q) (done-Reads [])
  write_each-ReadsBack (a ∷ items) bs e =
      then-ReadsBack (w a) (write_each w items) r
        (λ b. repeat (length items) r >>= λ bs. done (b ∷ bs)) (g a) (g a ∷ map g items) (back a)
        (end-ReadsBack (write_each w items) (repeat (length items) r) (λ bs. done (g a ∷ bs))
          (map g items) (g a ∷ map g items) (write_each-ReadsBack items)
          (done-Reads (g a ∷ map g items)))
        bs e

map_same {ℓ} : {A : Type ℓ} (xs : List A) → map (λ x. x) xs ≡ xs
map_same [] = refl
map_same (x ∷ xs) = ap (◌∷◌ x) (map_same xs)

pub write_stringlist-ReadsBack : (l : List Text) → ReadsBack (write_stringlist l) read_stringlist l
unfolding write_stringlist read_stringlist
write_stringlist-ReadsBack l =
    then-ReadsBack (write_short (length l)) (write_each write_string l) read_short
      (λ n. repeat n read_string) (length l) l (write_short-ReadsBack (length l))
      (subst
        (λ (m : List Text). ReadsBack (write_each write_string l) (repeat (length l) read_string) m)
        (map_same l)
        (write_each-ReadsBack write_string read_string (λ s. s) write_string-ReadsBack l))

module _ (inet_pton : Bool → Text → Option (List ℕ)) (inet_ntop : Bool → List ℕ → Option Text) where
  address_back :
      (addr : Text) (v6 : Bool) (b : List ℕ)
      → length b ≡ (if v6 then 16 else 4)
      → inet_ntop v6 b ≡ some addr
      → address_of inet_pton inet_ntop (pos (length b)) b ≡ some addr
  unfolding address_of
  address_back addr true b l t = rw l t
  address_back addr false b l t = rw l t

  sized_byte-ReadsBack :
      (addr : Text) (b : List ℕ)
      → address_of inet_pton inet_ntop (pos (length b)) b ≡ some addr
      → ReadsBack
          (sized_byte inet_pton inet_ntop (some b))
          (read_inet_addr_only inet_pton inet_ntop)
          addr
  unfolding sized_byte read_inet_addr_only read_signed
  sized_byte-ReadsBack addr b t =
      then-ReadsBack (write_byte (pos (length b))) (some b) read_byte
        (λ size. read_signed size >>= λ c. lift (address_of inet_pton inet_ntop size c))
        (pos (length b)) addr (write_byte-ReadsBack (pos (length b)))
        (end-ReadsBack (some b) (read (length b))
          (λ c. lift (address_of inet_pton inet_ntop (pos (length b)) c)) b addr (read-ReadsBack b)
          (lift-Reads (address_of inet_pton inet_ntop (pos (length b)) b) addr t))

  -- An address and a port are read back from what was written for them, whatever follows, if inet_pton makes 16
  -- bytes of an address with a colon and 4 of another, and inet_ntop makes the address of these bytes.
  pub read_inet-write_inet :
      (addr : Text) (port : ℤ) (b bs rest : List ℕ)
      → inet_pton (has_colon addr) addr ≡ some b
      → length b ≡ (if has_colon addr then 16 else 4)
      → inet_ntop (has_colon addr) b ≡ some addr
      → write_inet inet_pton inet_ntop (addr, port) ≡ some bs
      → read_inet inet_pton inet_ntop (bs ++ rest) ≡ some ((addr, port), rest)
  unfolding write_inet read_inet
  read_inet-write_inet addr port b bs rest p l t e =
      let e' : (sized_byte inet_pton inet_ntop (some b) then write_int port) ≡ some bs =
        rw p at e in
      then-ReadsBack (sized_byte inet_pton inet_ntop (some b)) (write_int port)
        (read_inet_addr_only inet_pton inet_ntop) (λ a. read_int >>= λ q. done (a, q)) addr
        (addr, port) (sized_byte-ReadsBack addr b (address_back addr (has_colon addr) b l t))
        (end-ReadsBack (write_int port) read_int (λ q. done (addr, q)) port (addr, port)
          (write_int-ReadsBack port) (done-Reads (addr, port)))
        bs e' rest
