-- ===== src/Marshal/Digits.antt =====
-- Bytes as digits of numbers (Marshal.antt).
use mathlib.Core.List.{reverse, reverse-append}
use native.Mathlib.Nat.{pow-suc}
use native.Mathlib.Numerals.{towards_suc}
use python_driver.Prelude.{
  ℕ, zero, suc, ◌+◌, ◌*◌, ◌/◌, ◌%◌, ◌^◌, ◌≤◌, ◌<◌, ◌≡◌, refl, ap, ◌∙◌, ◌==◌, List, [], ◌∷◌, ◌++◌,
  length, length-append, arith, inl, inr, Bool-cases,
}
use python_driver.Marshal.{be_bytes, of_bytes, bits, bit_length, le_bytes, last_or}

abbrev pub IsByte : ℕ → Type 0
IsByte b = b < 256

pub of_bytes-append :
    (acc : ℕ) (xs ys : List ℕ) → of_bytes acc (xs ++ ys) ≡ of_bytes (of_bytes acc xs) ys
unfolding of_bytes
of_bytes-append acc [] ys = refl
of_bytes-append acc (x ∷ xs) ys = of_bytes-append (acc * 256 + x) xs ys

pub length-be_bytes : (n v : ℕ) → length (be_bytes n v) ≡ n
unfolding be_bytes
length-be_bytes zero v = refl
length-be_bytes (suc n) v =
    omega (arith, length-append (be_bytes n (v / 256)) (v % 256 ∷ []), length-be_bytes n (v / 256))

pub pow_byte : (n : ℕ) → 2 ^ (8 * suc n) ≡ 2 ^ (8 * n) * 256
pow_byte n = let e : 8 * suc n ≡ 8 * n + 8 = omega arith in rw e (simp towards_suc (omega arith))

pub of_bytes-be_bytes : (n v : ℕ) → v < 2 ^ (8 * n) → of_bytes 0 (be_bytes n v) ≡ v
unfolding of_bytes be_bytes
of_bytes-be_bytes zero v h = omega arith
of_bytes-be_bytes (suc n) v h = omega (
  arith,
  of_bytes-append 0 (be_bytes n (v / 256)) (v % 256 ∷ []),
  of_bytes-be_bytes n (v / 256) (omega (arith, pow_byte n)),
)

-- `bit_length` bounds its number.
bits_bound : (f n : ℕ) → n ≤ f → n < 2 ^ bits f n
unfolding bits
bits_bound zero n h = omega arith
bits_bound (suc f) n h = elim (Bool-cases (n == 0)) [
  | inl e ↦ rw (bits, e) (ground arith)
  | inr e ↦ rw (bits, e) (ground (arith, bits_bound f (n / 2)))
]

pub lt-bit_length : (n : ℕ) → n < 2 ^ bit_length n
unfolding bit_length
lt-bit_length n = bits_bound n n (omega arith)

module _ {ℓ} {A : Type ℓ} where
  pub reverse_cons : (x : A) (xs : List A) → reverse (x ∷ xs) ≡ reverse xs ++ x ∷ []
  reverse_cons x xs = reverse-append (x ∷ []) xs

  pub length-reverse : (xs : List A) → length (reverse xs) ≡ length xs
  length-reverse [] = refl
  length-reverse (x ∷ xs) =
      ap length (reverse_cons x xs)
      ∙ omega (arith, length-append (reverse xs) (x ∷ []), length-reverse xs)

-- The first of the reversed list is the last.
pub reverse_first :
    (d b : ℕ) (bs : List ℕ) → (rest : List ℕ) × (reverse (b ∷ bs) ≡ last_or d (b ∷ bs) ∷ rest)
unfolding last_or
reverse_first d b [] = ([], refl)
reverse_first d b (c ∷ bs) =
    let (rest, e) = reverse_first b c bs in
    (rest ++ b ∷ [], reverse_cons b (c ∷ bs) ∙ ap (λ (l : List ℕ). l ++ b ∷ []) e)

pub of_bytes-reverse-le_bytes : (f v : ℕ) → v ≤ f → of_bytes 0 (reverse (le_bytes f v)) ≡ v
unfolding le_bytes of_bytes
of_bytes-reverse-le_bytes zero v h = omega arith
of_bytes-reverse-le_bytes (suc f) v h = elim (Bool-cases (v == 0)) [
  | inl e ↦ rw (le_bytes, e) (ground arith)
  | inr e ↦
      rw (le_bytes, e)
        (ap (of_bytes 0) (reverse_cons (v % 256) (le_bytes f (v / 256)))
          ∙ of_bytes-append 0 (reverse (le_bytes f (v / 256))) (v % 256 ∷ [])
          ∙ ground (arith, of_bytes-reverse-le_bytes f (v / 256)))
]

pub power_pos : (n : ℕ) → 1 ≤ 2 ^ n
power_pos zero = omega arith
power_pos (suc n) = rw (pow-suc 2 n) (omega (arith, power_pos n))

le_bytes_small : (f v : ℕ) → v < 256 → le_bytes f (v / 256) ≡ []
unfolding le_bytes
le_bytes_small zero v h = refl
le_bytes_small (suc f) v h = ground arith

-- A number whose highest bit is the top bit of a byte.
pub le_bytes_full :
    (k f v d : ℕ)
    → v ≤ f
    → 128 * 2 ^ (8 * k) ≤ v
    → v < 2 ^ (8 * suc k)
    → (128 ≤ last_or d (le_bytes f v)) × (length (le_bytes f v) ≡ suc k)
unfolding le_bytes last_or
le_bytes_full k zero v d h lo hi = absurd (omega (arith, power_pos (8 * k)))
le_bytes_full zero (suc f) v d h lo hi = ground (arith, le_bytes_small f v)
le_bytes_full (suc k) (suc f) v d h lo hi =
    let p : 1 ≤ 2 ^ (8 * k) = power_pos (8 * k) in
    let rest =
      le_bytes_full k f (v / 256) (v % 256) (omega arith) (omega (arith, pow_byte k))
        (omega (arith, pow_byte (suc k))) in
    elim (Bool-cases (v == 0)) [
      | inl e ↦ absurd (ground (arith, pow_byte k))
      | inr e ↦ rw (le_bytes, e) (rest.0, omega (arith, rest.1))
    ]

pub pow_add : (a r : ℕ) → 2 ^ (a + r) ≡ 2 ^ a * 2 ^ r
pow_add a zero = let e : a + zero ≡ a = omega arith in rw e (omega arith)
pow_add a (suc r) =
    let e : a + suc r ≡ suc (a + r) = omega arith in
    rw (e, pow-suc 2 (a + r), pow-suc 2 r, pow_add a r) (grind arith)
