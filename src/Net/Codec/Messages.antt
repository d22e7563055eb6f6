-- ===== src/Net/Codec/Messages.antt =====
-- The framing of messages: what is written is read back, and no payload makes the reader leave it.
use earth_rise_game.Prelude.{
  ℕ, zero, suc, ◌+◌, ◌-◌, ◌/◌, ◌%◌, ◌^◌, ◌≤◌, ◌<◌, ◌≡◌, refl, ap, ◌∙◌, sym, true, false, List, [],
  ◌∷◌, ◌++◌, none, some, arith, ltb, length, length-append, append_assoc, append-nil, get_elem?,
  get_elem?-append_at, take, drop, slice-append, All, if◌then◌else◌,
}
use earth_rise_game.Net.Codec.{
  value, Message, get_u16, write_message, read_message, read_loop, read_messages, subspan,
}
use earth_rise_game.Net.Codec.Fields.{two_bytes, put_u16_lem, get_u16_lem}

-- A message that its framing can hold: two bytes, and a body whose size fits the length field.
pub record IsMessage (m : Message) : Type 0 where
  pub channel : m.channel < 256
  pub kind : m.kind < 256
  pub size : length m.body < 65536

-- `WriteMessage` for each message in turn.
abbrev pub write_messages : List ℕ → List Message → List ℕ
write_messages out [] = out
write_messages out (m ∷ ms) = write_messages (write_message out m) ms

unfoldable pub frame : Message → List ℕ
frame m = m.channel ∷ m.kind ∷ (two_bytes (length m.body) ++ m.body)

unfoldable pub frames : List Message → List ℕ
frames [] = []
frames (m ∷ ms) = frame m ++ frames ms

length-frame : (m : Message) → length (frame m) ≡ length m.body + 4
unfolding frame
length-frame m = omega arith

pub write_message_lem :
    (out : List ℕ) (m : Message) → length m.body < 65536 → write_message out m ≡ out ++ frame m
unfolding write_message frame
write_message_lem out m h =
    let whole : length m.body % 2 ^ 16 ≡ length m.body = omega arith in
    rw (whole, put_u16_lem) (simp append_assoc)

pub write_messages_lem :
    (ms : List Message) (out : List ℕ) → All IsMessage ms → write_messages out ms ≡ out ++ frames ms
unfolding frames
write_messages_lem [] out v = sym (append-nil out)
write_messages_lem (m ∷ ms) out v =
    write_messages_lem ms (write_message out m) v.1
    ∙ rw (write_message_lem out m v.0.size) (append_assoc out (frame m) (frames ms))

-- A message whose body is the `len` bytes of the payload from `off` on.
abbrev pub message_at : ℕ → ℕ → List ℕ → ℕ → ℕ → Message
message_at channel kind payload off len = record {
  channel = channel;
  kind = kind;
  body = take len (drop off payload);
}

-- A call of the loop's body from its reads.
pub read_message_step :
    (b : List ℕ) (off channel kind len off' : ℕ)
    → off + 4 ≤ length b
    → get_elem? b off ≡ some channel
    → get_elem? b (off + 1) ≡ some kind
    → get_u16 b (off + 2) ≡ value (len, off')
    → read_message b off
      ≡ value (
          if ltb (length b) (off' + len)
          then none
          else some (message_at channel kind b off' len, off' + len))
unfolding read_message subspan
read_message_step b off channel kind len off' room c k l = ground arith

read_message-frame :
    (front : List ℕ) (m : Message) (rest : List ℕ) (off : ℕ)
    → IsMessage m
    → off ≡ length front
    → read_message (front ++ (frame m ++ rest)) off ≡ value (some (m, off + 4 + length m.body))
unfolding frame
read_message-frame front m rest off v at =
    let n : ℕ = length m.body in
    let lo : ℕ = n % 256 in
    let hi : ℕ = n / 256 % 256 in
    let behind : List ℕ = m.body ++ rest in
    let b : List ℕ = front ++ (m.channel ∷ m.kind ∷ lo ∷ hi ∷ behind) in
    let head : List ℕ = m.channel ∷ m.kind ∷ [] in
    let four : List ℕ = m.channel ∷ m.kind ∷ lo ∷ hi ∷ [] in
    let channel : get_elem? b off ≡ some m.channel = get_elem?-append_at front m.channel _ off at in
    let kind : get_elem? b (off + 1) ≡ some m.kind =
      rw (sym (append_assoc front (m.channel ∷ []) (m.kind ∷ lo ∷ hi ∷ behind))) (
        get_elem?-append_at (front ++ (m.channel ∷ [])) m.kind _ (off + 1)
          (omega (arith, length-append front (m.channel ∷ [])))) in
    let len : get_u16 b (off + 2) ≡ value (n, off + 4) =
      rw (sym (append_assoc front head (lo ∷ hi ∷ behind))) (
        get_u16_lem (front ++ head) lo hi behind (off + 2) (omega (arith, length-append front head))
          (omega arith) (omega arith)
        ∙ ap value (ground arith)) in
    let whole : take n (drop (off + 4) b) ≡ m.body = rw (sym (append_assoc front four behind)) (
      slice-append (front ++ four) m.body rest (off + 4)
        (omega (arith, length-append front four))) in
    let room : off + 4 + n ≤ length b = omega (
      arith,
      length-append front (m.channel ∷ m.kind ∷ lo ∷ hi ∷ behind),
      length-append m.body rest,
    ) in
    read_message_step b off m.channel m.kind n (off + 4) (omega arith) channel kind len
    ∙ ground (arith, room, whole)

pub read_loop_step :
    (rounds : ℕ) (b : List ℕ) (off : ℕ) (out : List Message) (m : Message) (off' : ℕ)
    → off < length b
    → read_message b off ≡ value (some (m, off'))
    → read_loop (suc rounds) b off out ≡ read_loop rounds b off' (out ++ (m ∷ []))
unfolding read_loop
read_loop_step rounds b off out m off' more e = ground arith

pub read_loop_bad :
    (rounds : ℕ) (b : List ℕ) (off : ℕ) (out : List Message)
    → off < length b
    → read_message b off ≡ value none
    → read_loop (suc rounds) b off out ≡ value (false, out)
unfolding read_loop
read_loop_bad rounds b off out more e = ground arith

pub read_loop_end :
    (rounds : ℕ) (b : List ℕ) (off : ℕ) (out : List Message)
    → length b ≤ off
    → read_loop (suc rounds) b off out ≡ value (true, out)
unfolding read_loop
read_loop_end rounds b off out done = ground arith

-- The loop takes one round for each frame, and adds its message.
pub read_loop-frames :
    (ms : List Message) (rounds r : ℕ) (front tail : List ℕ) (off : ℕ) (out : List Message)
    → All IsMessage ms
    → off ≡ length front
    → rounds ≡ length ms + r
    → read_loop rounds (front ++ (frames ms ++ tail)) off out
      ≡ read_loop r (front ++ (frames ms ++ tail)) (off + length (frames ms)) (out ++ ms)
unfolding frames
read_loop-frames [] rounds r front tail off out v at n =
    let same : rounds ≡ r = omega arith in
    let stay : off ≡ off + 0 = omega arith in rw (same, ← stay, append-nil) refl
read_loop-frames (m ∷ ms) zero r front tail off out v at n = absurd (omega arith)
read_loop-frames (m ∷ ms) (suc rounds) r front tail off out v at n =
    let b : List ℕ = front ++ (frame m ++ (frames ms ++ tail)) in
    let flat : front ++ ((frame m ++ frames ms) ++ tail) ≡ b = simp append_assoc in
    let front' : List ℕ = front ++ frame m in
    let split : b ≡ front' ++ (frames ms ++ tail) = simp append_assoc in
    let off' : ℕ = off + 4 + length m.body in
    let at' : off' ≡ length front' = omega (arith, length-append front (frame m), length-frame m) in
    let more : off < length b = omega (
      arith,
      length-append front (frame m ++ (frames ms ++ tail)),
      length-append (frame m) (frames ms ++ tail),
      length-frame m,
    ) in
    let ih : read_loop rounds b off' (out ++ (m ∷ []))
        ≡ read_loop r b (off' + length (frames ms)) ((out ++ (m ∷ [])) ++ ms) =
      rw split
        (read_loop-frames ms rounds r front' tail off' (out ++ (m ∷ [])) v.1 at' (omega arith)) in
    let end : off' + length (frames ms) ≡ off + length (frame m ++ frames ms) =
      omega (arith, length-append (frame m) (frames ms), length-frame m) in
    rw (flat, ← end)
      (read_loop_step rounds b off out m off' more
          (read_message-frame front m (frames ms ++ tail) off v.0 at)
        ∙ ih
        ∙ ap (read_loop r b (off' + length (frames ms))) (append_assoc out (m ∷ []) ms))

pub length-frames : (ms : List Message) → length ms ≤ length (frames ms)
unfolding frames
length-frames [] = omega arith
length-frames (m ∷ ms) =
    omega (arith, length-append (frame m) (frames ms), length-frame m, length-frames ms)

-- Messages that were written one after another are decoded in order, each with its body.
pub read-write_messages :
    (ms : List Message)
    → All IsMessage ms
    → read_messages (write_messages [] ms) [] ≡ value (true, ms)
unfolding read_messages
read-write_messages ms v =
    let b : List ℕ = frames ms ++ [] in
    let flat : write_messages [] ms ≡ b =
      write_messages_lem ms [] v ∙ sym (append-nil (frames ms)) in
    let n : ℕ = length b - length ms in
    let len : length b ≡ length (frames ms) = ap length (append-nil (frames ms)) in
    rw flat (
      read_loop-frames ms (length b + 1) (suc n) [] [] 0 [] v refl (omega (arith, length-frames ms))
      ∙ read_loop_end n b (0 + length (frames ms)) ms (omega arith))
