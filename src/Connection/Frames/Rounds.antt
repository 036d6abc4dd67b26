-- ===== src/Connection/Frames/Rounds.antt =====
-- The loop of `process_io_buffer` takes the frames that are there, one after the other (Connection/Frames.antt).
use mathlib.Core.Path.{subst}
use python_driver.Prelude.{
  ℕ, zero, suc, ◌<◌, ◌≡◌, refl, sym, ap, ◌∙◌, Bool, true, false, leb, Option, none, some, List, [],
  ◌∷◌, ◌++◌, length, drop, length-drop, arith, inl, inr, Bool-cases, Option-cases,
}
use python_driver.Connection.Frames.{
  Frame, Buffer, take_frame, process_rounds, Header, incomplete, protocol_error, complete,
  read_frame_header,
}
use python_driver.Connection.Frames.Split.{ready_of, ready, IsComplete, ready_header, body}

unfoldable pub frame_in : Header → Option Frame
frame_in incomplete = none
frame_in protocol_error = none
frame_in (complete f) = some f

unfoldable pub is_error : Header → Bool
is_error incomplete = false
is_error protocol_error = true
is_error (complete f) = false

-- The connection that has read `rs` and waits with `buf`.
unfoldable pub waiting : List (Frame × List ℕ) → List ℕ → Buffer
waiting rs buf = record {
  iobuf = buf;
  current_frame = frame_in (read_frame_header buf);
  read = rs;
  defunct = is_error (read_frame_header buf);
}

-- All frames that are there are taken, `n` at most.
unfoldable pub run : ℕ → List (Frame × List ℕ) → List ℕ → Buffer
run zero rs buf = waiting rs buf
run (suc n) rs buf = elim (ready buf) [
  | none ↦ waiting rs buf
  | some f ↦ run n (rs ++ (f, body f buf) ∷ []) (drop f.end_pos buf)
]

-- The fields agree with the bytes that wait.
unfoldable pub IsCoherent : Buffer → Type 0
IsCoherent c =
    ((f : Frame) → c.current_frame ≡ some f → read_frame_header c.iobuf ≡ complete f)
    × (c.defunct ≡ true → read_frame_header c.iobuf ≡ protocol_error)

abbrev buffer : List ℕ → Option Frame → List (Frame × List ℕ) → Bool → Buffer
buffer buf o rs b = record { iobuf = buf; current_frame = o; read = rs; defunct = b }

complete_inj : (f g : Frame) → complete f ≡ complete g → f ≡ g
complete_inj f g q = ground arith

same_frame :
    (f g : Frame) (buf : List ℕ)
    → read_frame_header buf ≡ complete f
    → read_frame_header buf ≡ complete g
    → f ≡ g
same_frame f g buf e e' = complete_inj f g (sym e ∙ e')

short :
    (f : Frame) (buf : List ℕ)
    → ready_of buf (complete f) ≡ none
    → leb f.end_pos (length buf) ≡ false
unfolding ready_of
short f buf r = elim (Bool-cases (leb f.end_pos (length buf))) [
  | inl t ↦ absurd (let r' : some f ≡ none = rw t at r in ground arith)
  | inr t ↦ t
]

-- Nothing is read when no frame is there.
module _ (n : ℕ) (buf : List ℕ) (rs : List (Frame × List ℕ)) where
  stop_incomplete :
      (o : Option Frame) (b : Bool)
      → IsCoherent (buffer buf o rs b)
      → read_frame_header buf ≡ incomplete
      → process_rounds (suc n) (buffer buf o rs b) ≡ waiting rs buf
  unfolding process_rounds waiting frame_in is_error IsCoherent
  stop_incomplete none false k e = rw (process_rounds, e)
  stop_incomplete none true k e = absurd (let q = sym e ∙ k.1 refl in ground arith)
  stop_incomplete (some f) b k e = absurd (let q = sym e ∙ k.0 f refl in ground arith)

  stop_error :
      (o : Option Frame) (b : Bool)
      → IsCoherent (buffer buf o rs b)
      → read_frame_header buf ≡ protocol_error
      → process_rounds (suc n) (buffer buf o rs b) ≡ waiting rs buf
  unfolding process_rounds waiting frame_in is_error IsCoherent
  stop_error none b k e = rw (process_rounds, e)
  stop_error (some f) b k e = absurd (let q = sym e ∙ k.0 f refl in ground arith)

  stop_short :
      (o : Option Frame) (b : Bool) (f : Frame)
      → IsCoherent (buffer buf o rs b)
      → read_frame_header buf ≡ complete f
      → leb f.end_pos (length buf) ≡ false
      → process_rounds (suc n) (buffer buf o rs b) ≡ waiting rs buf
  unfolding process_rounds waiting frame_in is_error IsCoherent
  stop_short o true f k e t = absurd (let q = sym e ∙ k.1 refl in ground arith)
  stop_short none false f k e t = rw (process_rounds, e, t)
  stop_short (some g) false f k e t =
      let e' = k.0 g refl in
      let t' =
        subst (λ (x : Frame). leb x.end_pos (length buf) ≡ false) (same_frame f g buf e e') t in
      rw (process_rounds, t', e')

  stop_at :
      (o : Option Frame) (b : Bool) (h : Header)
      → IsCoherent (buffer buf o rs b)
      → read_frame_header buf ≡ h
      → ready_of buf h ≡ none
      → process_rounds (suc n) (buffer buf o rs b) ≡ waiting rs buf
  stop_at o b incomplete k e r = stop_incomplete o b k e
  stop_at o b protocol_error k e r = stop_error o b k e
  stop_at o b (complete f) k e r = stop_short o b f k e (short f buf r)

  go :
      (o : Option Frame) (b : Bool) (f : Frame)
      → IsCoherent (buffer buf o rs b)
      → IsComplete buf f
      → process_rounds (suc n) (buffer buf o rs b)
        ≡ process_rounds n (buffer (drop f.end_pos buf) none (rs ++ (f, body f buf) ∷ []) false)
  unfolding process_rounds IsCoherent IsComplete take_frame
  go o true f k r = absurd (let q = sym r.0 ∙ k.1 refl in ground arith)
  go none false f k r =
      let t : leb f.end_pos (length buf) ≡ true = ground (arith, r.1) in
      let e = r.0 in rw (process_rounds, e, t)
  go (some g) false f k r =
      let t : leb f.end_pos (length buf) ≡ true = ground (arith, r.1) in
      let same = same_frame f g buf r.0 (k.0 g refl) in
      let t' = subst (λ (x : Frame). leb x.end_pos (length buf) ≡ true) same t in
      rw (process_rounds, t')
        (ap (λ (x : Frame). process_rounds n (take_frame (buffer buf (some g) rs false) x))
          (sym same))

fresh : (buf : List ℕ) (rs : List (Frame × List ℕ)) → IsCoherent (buffer buf none rs false)
unfolding IsCoherent
fresh buf rs = (λ f e. absurd (ground arith), λ e. absurd (ground arith))

pub drop_less :
    (f : Frame) (buf : List ℕ) (n : ℕ)
    → IsComplete buf f
    → length buf < suc n
    → length (drop f.end_pos buf) < n
unfolding IsComplete
drop_less f buf n r h = omega (arith, length-drop f.end_pos buf, r.1, r.2)

-- The fuel is enough: a frame takes bytes.
pub process_rounds-run :
    (n : ℕ) (buf : List ℕ) (o : Option Frame) (rs : List (Frame × List ℕ)) (b : Bool)
    → IsCoherent (buffer buf o rs b)
    → length buf < n
    → process_rounds n (buffer buf o rs b) ≡ run n rs buf
unfolding run ready ready_of
process_rounds-run zero buf o rs b k lt = absurd (omega arith)
process_rounds-run (suc n) buf o rs b k lt = elim (Option-cases (ready buf)) [
  | inl e ↦ rw (run, e) (stop_at n buf rs o b (read_frame_header buf) k refl e)
  | inr (f, e) ↦
      let r = ready_header buf f e in
      rw (run, e)
        (go n buf rs o b f k r
          ∙ process_rounds-run n (drop f.end_pos buf) none (rs ++ (f, body f buf) ∷ []) false
              (fresh (drop f.end_pos buf) (rs ++ (f, body f buf) ∷ [])) (drop_less f buf n r lt))
]
