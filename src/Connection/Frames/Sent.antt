-- ===== src/Connection/Frames/Sent.antt =====
-- What `encode_message` of Protocol/Messages.antt writes is what Connection/Frames.antt reads.
use mathlib.Core.List.{append_assoc, append-nil}
use python_driver.Prelude.{
  ℕ, zero, suc, ◌+◌, ◌-◌, ◌≤◌, ◌<◌, ◌≡◌, refl, sym, ap, ◌∙◌, Bool, false, Option, none, some, List,
  [], ◌∷◌, ◌++◌, length, length-append, drop, take_all, drop_all, arith,
}
use python_driver.Prelude.Int.{ℤ}
use python_driver.Protocol.{write_each}
use python_driver.Protocol.Elements.{then_parts}
use python_driver.Protocol.Messages.{Message, Draft, write_header, framed, contents, encode_message}
use python_driver.Connection.Frames.{
  Frame, Buffer, empty, receive_all, stream_size, complete, read_frame_header,
}
use python_driver.Connection.Frames.Split.{ready, ready_of, complete-ready, body}
use python_driver.Connection.Frames.Rounds.{frame_in, is_error, waiting, run}
use python_driver.Connection.Frames.Chunks.{joined, after, receive_all-after, empty-after}
use python_driver.Connection.Frames.Headers.{frame_for, header_read}

unfoldable pub delivered : ℕ → ℤ → ℕ → Option Draft → List (Frame × List ℕ)
delivered version stream opcode none = []
delivered version stream opcode (some d) =
    (frame_for version d.flags stream opcode (length d.body), d.body) ∷ []

-- A header and its body at the front of the bytes are one frame.
module _ (hd bd more : List ℕ) (f : Frame) (off : f.body_offset ≡ length hd)
    (end : f.end_pos ≡ length bd + length hd)
    (r : read_frame_header (hd ++ (bd ++ more)) ≡ complete f) where
  front_body : body f (hd ++ (bd ++ more)) ≡ bd
  front_body =
      let m : length bd + length hd - length hd ≡ length bd = omega arith in
      rw (off, end, m, drop_all hd (bd ++ more)) (take_all bd more)

  front_drop : drop f.end_pos (hd ++ (bd ++ more)) ≡ more
  front_drop =
      let m : length bd + length hd ≡ length (hd ++ bd) = omega (arith, length-append hd bd) in
      let a = append_assoc hd bd more in rw (end, m) (rw (← a) (drop_all (hd ++ bd) more))

  front_run :
      (n : ℕ) (rs : List (Frame × List ℕ))
      → run (suc n) rs (hd ++ (bd ++ more)) ≡ run n (rs ++ (f, bd) ∷ []) more
  unfolding run
  front_run n rs =
      let there =
        complete-ready (hd ++ (bd ++ more)) f r
          (omega (arith, end, length-append hd (bd ++ more), length-append bd more)) in
      let b = front_body in let d = front_drop in rw (run, there, b, d)

-- One message at the front of the bytes.
module _ (version opcode : ℕ) (stream : ℤ) (h : version ≤ 5) where
  run_first :
      (o : Option Draft) (bs : List ℕ)
      → framed version stream opcode o ≡ some bs
      → (n : ℕ) (rs : List (Frame × List ℕ)) (more : List ℕ)
      → (1 ≤ length bs)
        × (run (suc n) rs (bs ++ more) ≡ run n (rs ++ delivered version stream opcode o) more)
  unfolding framed run delivered frame_for stream_size
  run_first none bs e n rs more = absurd (ground arith)
  run_first (some d) bs e n rs more =
      let (hd, bd, eh, eb, q) =
        then_parts (write_header version d.flags stream opcode (length d.body)) (some d.body) bs
          e in
      let q' : bs ≡ hd ++ d.body = ground (arith, q, eb) in
      let (l, r) = header_read version d.flags opcode (length d.body) stream h hd eh in
      let a = append_assoc hd d.body more in
      (
        omega (arith, ap (λ (x : List ℕ). length x) q', length-append hd d.body, l),
        rw (q', a)
            (front_run hd d.body more (frame_for version d.flags stream opcode (length d.body))
              (sym l) (ap (λ (x : ℕ). length d.body + x) (sym l)) (r (d.body ++ more)) n rs),
      )

run_none : (n : ℕ) (rs : List (Frame × List ℕ)) → run n rs [] ≡ waiting rs []
unfolding run ready ready_of read_frame_header
run_none zero rs = refl
run_none (suc n) rs = refl

pub record Sent : Type 0 where
  pub message : Message
  pub stream_id : ℤ

-- The messages that a connection with these parameters sends.
module _ (version : ℕ) (compressor : Option (List ℕ → List ℕ)) (allow_beta : Bool) where
  unfoldable pub encoded : Sent → Option (List ℕ)
  encoded s = encode_message s.message s.stream_id version compressor allow_beta

  -- The frame and the body of each message.
  unfoldable pub arrivals : List Sent → List (Frame × List ℕ)
  arrivals [] = []
  arrivals (s ∷ sent) =
      delivered version s.stream_id s.message.opcode
        (contents s.message version compressor allow_beta)
      ++ arrivals sent

  run-arrivals :
      version ≤ 5
      → (sent : List Sent) (bs : List ℕ) → write_each encoded sent ≡ some bs
      → (n : ℕ) (rs : List (Frame × List ℕ)) → length bs < n
      → run n rs bs ≡ waiting (rs ++ arrivals sent) []
  unfolding write_each arrivals encoded encode_message
  run-arrivals h [] bs e n rs lt =
      let q : [] ≡ bs = ground arith in rw (← q, append-nil rs) (run_none n rs)
  run-arrivals h (s ∷ sent) bs e zero rs lt = absurd (omega arith)
  run-arrivals h (s ∷ sent) bs e (suc n) rs lt =
      let d = contents s.message version compressor allow_beta in
      let (xs, ys, ex, ey, q) =
        then_parts (framed version s.stream_id s.message.opcode d) (write_each encoded sent) bs e in
      let (long, first) = run_first version s.message.opcode s.stream_id h d xs ex n rs ys in
      let a = append_assoc rs (delivered version s.stream_id s.message.opcode d) (arrivals sent) in
      rw q (
        first
        ∙ run-arrivals h sent ys ey n (rs ++ delivered version s.stream_id s.message.opcode d)
            (omega (arith, long, lt, ap (λ (x : List ℕ). length x) q, length-append xs ys))
        ∙ ap (λ (x : List (Frame × List ℕ)). waiting x []) a)

  -- The messages that a connection of a protocol version up to 5 encodes one after the other, if none raises,
  -- are read as one frame each however the bytes are cut into chunks, in order, with the version,
  -- flags, stream id, opcode and body that they were sent with; no byte is left over and no error is raised.
  pub receive_all-encode_message :
      version ≤ 5
      → (sent : List Sent) (bs : List ℕ) (chunks : List (List ℕ))
      → write_each encoded sent ≡ some bs
      → joined chunks ≡ bs
      → receive_all empty chunks
        ≡ record { iobuf = []; current_frame = none; read = arrivals sent; defunct = false }
  unfolding after waiting frame_in is_error read_frame_header
  receive_all-encode_message h sent bs chunks e j =
      ap (λ (c : Buffer). receive_all c chunks) empty-after
      ∙ receive_all-after [] chunks
      ∙ ap after j
      ∙ run-arrivals h sent bs e (suc (length bs)) [] (omega arith)
