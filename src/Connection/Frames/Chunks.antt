-- ===== src/Connection/Frames/Chunks.antt =====
-- The frames are read from a stream of bytes: the chunks that the bytes come in do not matter
-- (Connection/Frames.antt).
use mathlib.Core.List.{append_assoc, append-nil}
use python_driver.Prelude.{
  ℕ, zero, suc, ◌<◌, ◌≡◌, refl, sym, ap, ◌∙◌, true, some, List, [], ◌∷◌, ◌++◌, length, drop,
  length-append, length-drop, arith, inl, inr, Option-cases,
}
use python_driver.Connection.Frames.{
  Frame, Buffer, empty, process_io_buffer, receive, receive_all, Header, incomplete, protocol_error,
  complete, read_frame_header,
}
use python_driver.Connection.Frames.Split.{
  drop-append, read_frame_header-append, ready_of, ready, IsComplete, ready_header, ready-append,
  body, body-append,
}
use python_driver.Connection.Frames.Rounds.{
  frame_in, is_error, waiting, run, IsCoherent, drop_less, process_rounds-run,
}

unfoldable pub joined : List (List ℕ) → List ℕ
joined [] = []
joined (chunk ∷ chunks) = chunk ++ joined chunks

run-fuel :
    (n m : ℕ) (rs : List (Frame × List ℕ)) (buf : List ℕ)
    → length buf < n
    → length buf < m
    → run n rs buf ≡ run m rs buf
unfolding run
run-fuel zero m rs buf h k = absurd (omega arith)
run-fuel (suc n) zero rs buf h k = absurd (omega arith)
run-fuel (suc n) (suc m) rs buf h k = elim (Option-cases (ready buf)) [
  | inl e ↦ rw (run, e)
  | inr (f, e) ↦
      let r = ready_header buf f e in
      rw (run, e)
        (run-fuel n m (rs ++ (f, body f buf) ∷ []) (drop f.end_pos buf) (drop_less f buf n r h)
          (drop_less f buf m r k))
]

-- What is read of the longer bytes is what is read of the first part, and then of the rest.
run-append :
    (n m : ℕ) (rs : List (Frame × List ℕ)) (buf more : List ℕ)
    → length (buf ++ more) < n
    → length buf < m
    → (k : ℕ) → length ((run m rs buf).iobuf ++ more) < k
    → run n rs (buf ++ more) ≡ run k (run m rs buf).read ((run m rs buf).iobuf ++ more)
unfolding run waiting IsComplete
run-append n zero rs buf more h l k h' = absurd (omega arith)
run-append zero (suc m) rs buf more h l k h' = absurd (omega arith)
run-append (suc n) (suc m) rs buf more h l k h' = elim (Option-cases (ready buf)) [
  | inl e ↦ rw (run, e) (run-fuel (suc n) k rs (buf ++ more) h (rw (run, e) at h'))
  | inr (f, e) ↦
      let r = ready_header buf f e in
      let e' = ready-append buf more f e in
      let b = body-append buf more f e in
      let d = drop-append f.end_pos buf more r.1 in
      rw (run, e, e', b, d)
        (run-append n m (rs ++ (f, body f buf) ∷ []) (drop f.end_pos buf) more
          (omega (
            arith,
            h,
            ap length d,
            length-drop f.end_pos buf,
            length-append buf more,
            length-append (drop f.end_pos buf) more,
            r.1,
            r.2,
          ))
          (drop_less f buf m r l) k (rw (run, e) at h'))
]

IsWaiting : Buffer → Type 0
IsWaiting c = c ≡ waiting c.read c.iobuf

run-IsWaiting : (n : ℕ) (rs : List (Frame × List ℕ)) (buf : List ℕ) → IsWaiting (run n rs buf)
unfolding run IsWaiting waiting
run-IsWaiting zero rs buf = refl
run-IsWaiting (suc n) rs buf = elim (Option-cases (ready buf)) [
  | inl e ↦ rw (run, e)
  | inr (f, e) ↦ rw (run, e) (run-IsWaiting n (rs ++ (f, body f buf) ∷ []) (drop f.end_pos buf))
]

frame_in-some : (h : Header) (f : Frame) → frame_in h ≡ some f → h ≡ complete f
unfolding frame_in
frame_in-some incomplete f e = absurd (ground arith)
frame_in-some protocol_error f e = absurd (ground arith)
frame_in-some (complete g) f e = ground arith

is_error-true : (h : Header) → is_error h ≡ true → h ≡ protocol_error
unfolding is_error
is_error-true incomplete e = absurd (ground arith)
is_error-true protocol_error e = refl
is_error-true (complete f) e = absurd (ground arith)

waiting-IsCoherent :
    (rs : List (Frame × List ℕ)) (buf more : List ℕ)
    → IsCoherent (record (waiting rs buf) { iobuf = buf ++ more })
unfolding IsCoherent waiting
waiting-IsCoherent rs buf more = (
  λ f e.
      read_frame_header-append buf more (complete f) (frame_in-some (read_frame_header buf) f e)
        (λ q. ground arith),
  λ e.
      read_frame_header-append buf more protocol_error (is_error-true (read_frame_header buf) e)
        (λ q. ground arith),
)

-- The state once the bytes `buf` have come in.
unfoldable pub after : List ℕ → Buffer
after buf = run (suc (length buf)) [] buf

receive-waiting :
    (rs : List (Frame × List ℕ)) (buf chunk : List ℕ)
    → receive (waiting rs buf) chunk ≡ run (suc (length (buf ++ chunk))) rs (buf ++ chunk)
unfolding receive process_io_buffer waiting
receive-waiting rs buf chunk =
    process_rounds-run (suc (length (buf ++ chunk))) (buf ++ chunk)
      (frame_in (read_frame_header buf)) rs (is_error (read_frame_header buf))
      (waiting-IsCoherent rs buf chunk) (omega arith)

pub receive-after : (buf chunk : List ℕ) → receive (after buf) chunk ≡ after (buf ++ chunk)
unfolding after IsWaiting
receive-after buf chunk =
    let d = run (suc (length buf)) [] buf in
    let w = run-IsWaiting (suc (length buf)) [] buf in
    ap (λ (c : Buffer). receive c chunk) w
    ∙ receive-waiting d.read d.iobuf chunk
    ∙ sym (
        run-append (suc (length (buf ++ chunk))) (suc (length buf)) [] buf chunk (omega arith)
          (omega arith) (suc (length (d.iobuf ++ chunk))) (omega arith))

pub receive_all-after :
    (buf : List ℕ) (chunks : List (List ℕ))
    → receive_all (after buf) chunks ≡ after (buf ++ joined chunks)
unfolding receive_all joined
receive_all-after buf [] = ap after (sym (append-nil buf))
receive_all-after buf (chunk ∷ chunks) =
    ap (λ (c : Buffer). receive_all c chunks) (receive-after buf chunk)
    ∙ receive_all-after (buf ++ chunk) chunks
    ∙ ap after (append_assoc buf chunk (joined chunks))

pub empty-after : empty ≡ after []
unfolding empty after run ready ready_of read_frame_header waiting frame_in is_error
empty-after = refl

-- However the bytes are cut into chunks, the frames that are read, their bodies, the bytes and the frame that
-- wait, and whether a protocol error has defuncted the connection, are those of the bytes in one chunk.
pub receive_all-joined :
    (chunks : List (List ℕ)) → receive_all empty chunks ≡ receive empty (joined chunks)
receive_all-joined chunks =
    ap (λ (c : Buffer). receive_all c chunks) empty-after
    ∙ receive_all-after [] chunks
    ∙ sym (receive-after [] (joined chunks))
    ∙ ap (λ (c : Buffer). receive c (joined chunks)) (sym empty-after)
