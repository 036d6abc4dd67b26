-- ===== src/Connection/Frames/Split.antt =====
-- The frames that a byte string holds, whatever chunks it came in (Connection/Frames.antt).
use mathlib.Core.Path.{subst}
use python_driver.Prelude.{
  ◌≢◌, ℕ, zero, suc, ◌+◌, ◌-◌, ◌%◌, ◌≤◌, ◌≡◌, refl, sym, ap, ◌∙◌, true, ltb, leb, Option, none,
  some, List, [], ◌∷◌, ◌++◌, if◌then◌else◌, length, take, drop, length-append, length-drop, leb→le,
  arith, inl, inr, Bool-cases,
}
use python_driver.Prelude.Int.{ℤ, pos, negsuc}
use python_driver.Marshal.{signed}
use python_driver.Connection.Frames.{
  Frame, field, stream_size, max_supported, Header, incomplete, protocol_error, complete, frame_of,
  header_of_size, read_frame_header,
}

module _ {ℓ} {A : Type ℓ} where
  pub take-append : (n : ℕ) (xs ys : List A) → n ≤ length xs → take n (xs ++ ys) ≡ take n xs
  take-append zero xs ys h = refl
  take-append (suc n) [] ys h = absurd (omega arith)
  take-append (suc n) (x ∷ xs) ys h = ap (◌∷◌ x) (take-append n xs ys (omega arith))

  pub drop-append : (n : ℕ) (xs ys : List A) → n ≤ length xs → drop n (xs ++ ys) ≡ drop n xs ++ ys
  drop-append zero xs ys h = refl
  drop-append (suc n) [] ys h = absurd (omega arith)
  drop-append (suc n) (x ∷ xs) ys h = drop-append n xs ys (omega arith)

module _ (buf more : List ℕ) where
  field-append : (at n : ℕ) → at + n ≤ length buf → field (buf ++ more) at n ≡ field buf at n
  unfolding field
  field-append at n h = rw (
    drop-append at buf more (omega arith),
    take-append n (drop at buf) more (omega (arith, length-drop at buf)),
  )

  header_of_size-append :
      (version s : ℕ)
      → 7 + s ≤ length buf
      → header_of_size (buf ++ more) version s ≡ header_of_size buf version s
  unfolding header_of_size
  header_of_size-append version s h =
      let long : leb (7 + s) (length (buf ++ more)) ≡ true =
        ground (arith, length-append buf more) in
      let long' : leb (7 + s) (length buf) ≡ true = ground arith in
      rw (
        long,
        long',
        field-append (3 + s) 4 (omega arith),
        field-append 1 1 (omega arith),
        field-append 2 s (omega arith),
        field-append (2 + s) 1 (omega arith),
      )

long_enough :
    (buf : List ℕ) (version s : ℕ) (h : Header)
    → header_of_size buf version s ≡ h
    → h ≢ incomplete
    → 7 + s ≤ length buf
unfolding header_of_size
long_enough buf version s h e n = elim (Bool-cases (leb (7 + s) (length buf))) [
  | inl l ↦ leb→le (7 + s) (length buf) l
  | inr l ↦ absurd (n (sym e ∙ rw l))
]

-- A header that is there stays as it is when more bytes come.
pub read_frame_header-append :
    (buf more : List ℕ) (h : Header)
    → read_frame_header buf ≡ h
    → h ≢ incomplete
    → read_frame_header (buf ++ more) ≡ h
unfolding read_frame_header
read_frame_header-append [] more h e n = absurd (n (sym e))
read_frame_header-append (b ∷ bs) more h e n = elim (Bool-cases (ltb max_supported (b % 128))) [
  | inl new ↦ rw new (rw new at e)
  | inr known ↦ rw known (
      let e' : header_of_size (b ∷ bs) (b % 128) (stream_size (b % 128)) ≡ h = rw known at e in
      header_of_size-append (b ∷ bs) more (b % 128) (stream_size (b % 128))
        (long_enough (b ∷ bs) (b % 128) (stream_size (b % 128)) h e' n)
      ∙ e')
]

frame_of-end :
    (version s flags : ℕ) (stream : ℤ) (opcode : ℕ) (z : ℤ) (f : Frame)
    → frame_of version s flags stream opcode z ≡ complete f
    → (1 ≤ f.end_pos) × (f.body_offset ≤ f.end_pos)
unfolding frame_of
frame_of-end version s flags stream opcode (negsuc n) f e = absurd (ground arith)
frame_of-end version s flags stream opcode (pos n) f e = (ground arith, ground arith)

header_of_size-end :
    (buf : List ℕ) (version s : ℕ) (f : Frame)
    → header_of_size buf version s ≡ complete f
    → (1 ≤ f.end_pos) × (f.body_offset ≤ f.end_pos)
unfolding header_of_size
header_of_size-end buf version s f e = elim (Bool-cases (leb (7 + s) (length buf))) [
  | inl l ↦
      frame_of-end version s (field buf 1 1) (signed s (field buf 2 s)) (field buf (2 + s) 1)
        (signed 4 (field buf (3 + s) 4)) f (rw l at e)
  | inr l ↦ absurd (let e' : incomplete ≡ complete f = rw l at e in ground arith)
]

-- A frame ends behind its header.
pub end_pos-pos :
    (buf : List ℕ) (f : Frame)
    → read_frame_header buf ≡ complete f
    → (1 ≤ f.end_pos) × (f.body_offset ≤ f.end_pos)
unfolding read_frame_header
end_pos-pos [] f e = absurd (ground arith)
end_pos-pos (b ∷ bs) f e = elim (Bool-cases (ltb max_supported (b % 128))) [
  | inl new ↦ absurd (let e' : protocol_error ≡ complete f = rw new at e in ground arith)
  | inr known ↦ header_of_size-end (b ∷ bs) (b % 128) (stream_size (b % 128)) f (rw known at e)
]

unfoldable pub ready_of : List ℕ → Header → Option Frame
ready_of buf incomplete = none
ready_of buf protocol_error = none
ready_of buf (complete f) = if leb f.end_pos (length buf) then some f else none

-- The frame whose body is there, if any.
unfoldable pub ready : List ℕ → Option Frame
ready buf = ready_of buf (read_frame_header buf)

abbrev pub body : Frame → List ℕ → List ℕ
body f buf = take (f.end_pos - f.body_offset) (drop f.body_offset buf)

unfoldable pub IsComplete : List ℕ → Frame → Type 0
IsComplete buf f =
    (read_frame_header buf ≡ complete f)
    × (f.end_pos ≤ length buf)
    × (1 ≤ f.end_pos)
    × (f.body_offset ≤ f.end_pos)

ready_complete :
    (buf : List ℕ) (g f : Frame)
    → read_frame_header buf ≡ complete g
    → ready_of buf (complete g) ≡ some f
    → IsComplete buf f
unfolding ready_of IsComplete
ready_complete buf g f e r = elim (Bool-cases (leb g.end_pos (length buf))) [
  | inl there ↦
      let r2 : some g ≡ some f = rw there at r in
      let same : g ≡ f = ground arith in
      let e' = e ∙ ap complete same in
      (
        e',
        subst (λ (x : Frame). x.end_pos ≤ length buf) same (leb→le g.end_pos (length buf) there),
        (end_pos-pos buf f e').0,
        (end_pos-pos buf f e').1,
      )
  | inr missing ↦ absurd (let r2 : none ≡ some f = rw missing at r in ground arith)
]

ready_header-of :
    (buf : List ℕ) (h : Header) (f : Frame)
    → read_frame_header buf ≡ h
    → ready_of buf h ≡ some f
    → IsComplete buf f
unfolding ready_of
ready_header-of buf incomplete f e r = absurd (ground arith)
ready_header-of buf protocol_error f e r = absurd (ground arith)
ready_header-of buf (complete g) f e r = ready_complete buf g f e r

pub ready_header : (buf : List ℕ) (f : Frame) → ready buf ≡ some f → IsComplete buf f
unfolding ready
ready_header buf f e = ready_header-of buf (read_frame_header buf) f refl e

pub complete-ready :
    (buf : List ℕ) (f : Frame)
    → read_frame_header buf ≡ complete f
    → f.end_pos ≤ length buf
    → ready buf ≡ some f
unfolding ready ready_of
complete-ready buf f e le =
    let t : leb f.end_pos (length buf) ≡ true = ground arith in rw (ready, e, t)

pub ready-append :
    (buf more : List ℕ) (f : Frame) → ready buf ≡ some f → ready (buf ++ more) ≡ some f
unfolding IsComplete
ready-append buf more f e =
    let r = ready_header buf f e in
    complete-ready (buf ++ more) f
      (read_frame_header-append buf more (complete f) r.0 (λ q. ground arith))
      (omega (arith, length-append buf more, r.1))

pub body-append :
    (buf more : List ℕ) (f : Frame) → ready buf ≡ some f → body f (buf ++ more) ≡ body f buf
unfolding IsComplete
body-append buf more f e =
    let r = ready_header buf f e in
    let at_body = drop-append f.body_offset buf more (omega (arith, r.1, r.3)) in
    ap (take (f.end_pos - f.body_offset)) at_body
    ∙ take-append (f.end_pos - f.body_offset) (drop f.body_offset buf) more
        (omega (arith, r.1, r.3, length-drop f.body_offset buf))
