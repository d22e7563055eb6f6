-- ===== src/Net/Codec/Safety.antt =====
-- `ReadMessages` on payloads of any content: it stays inside the span, ends, and refuses a cut one.
use earth_rise_game.Prelude.{
  ℕ, zero, suc, ◌+◌, ◌-◌, ◌*◌, ◌%◌, ◌/◌, ◌^◌, ◌≤◌, ◌<◌, ◌≡◌, ◌≢◌, refl, ap, ◌∙◌, sym, Bool, true,
  false, List, [], ◌∷◌, ◌++◌, none, some, arith, ltb, length, length-append, append_assoc,
  get_elem?, get_elem?-append_at, get_elem?_in, All, inl, inr, ◌⊎◌, bit_or, if◌then◌else◌,
  Bool-cases,
}
use earth_rise_game.Net.Codec.{
  value, Message, get_u16, write_message, read_message, read_loop, read_messages,
}
use earth_rise_game.Net.Codec.Fields.{get_u16_lem, get_u16_step, two_bytes}
use earth_rise_game.Net.Codec.Messages.{
  IsMessage, write_messages, write_messages_lem, write_message_lem, frame, frames, length-frames,
  message_at, read_message_step, read_loop_step, read_loop_bad, read_loop_end, read_loop-frames,
}

-- One call of the loop's body: a refusal, or a message and an offset further on inside the span.
read_message_cases :
    (b : List ℕ) (off : ℕ)
    → (read_message b off ≡ value none)
      ⊎ ((m : Message) × (off' : ℕ) × (read_message b off ≡ value (some (m, off')))
          × (off + 4 ≤ off')
          × (off' ≤ length b))
read_message_cases b off = elim (Bool-cases (ltb (length b) (off + 4))) [
  | inl short ↦ inl (unfold read_message in rw short)
  | inr long ↦
      let room : off + 4 ≤ length b = ground arith in
      let (channel, c) = get_elem?_in b off (omega arith) in
      let (kind, k) = get_elem?_in b (off + 1) (omega arith) in
      let (lo, l) = get_elem?_in b (off + 2) (omega arith) in
      let (hi, h) = get_elem?_in b (off + 2 + 1) (omega arith) in
      let len : ℕ = bit_or lo (hi * 2 ^ 8 % 2 ^ 16) in
      let step : read_message b off
          ≡ value (
              if ltb (length b) (off + 2 + 2 + len)
              then none
              else some (message_at channel kind b (off + 2 + 2) len, off + 2 + 2 + len)) =
        read_message_step b off channel kind len (off + 2 + 2) room c k
          (get_u16_step b (off + 2) lo hi l h) in
      elim (Bool-cases (ltb (length b) (off + 2 + 2 + len))) [
        | inl cut ↦ inl (step ∙ rw cut)
        | inr fits ↦ inr (
          message_at channel kind b (off + 2 + 2) len,
          off + 2 + 2 + len,
          step ∙ rw fits,
          omega arith,
          ground arith,
        )
      ]
]

read_loop_total :
    (rounds : ℕ) (b : List ℕ) (off : ℕ) (out : List Message)
    → length b < off + rounds
    → off ≤ length b
    → (r : Bool × List Message) × (read_loop rounds b off out ≡ value r)
read_loop_total zero b off out n h = absurd (omega arith)
read_loop_total (suc rounds) b off out n h = elim (Bool-cases (ltb off (length b))) [
  | inr done ↦ ((true, out), read_loop_end rounds b off out (ground arith))
  | inl more ↦
      let more' : off < length b = ground arith in
      elim (read_message_cases b off) [
        | inl bad ↦ ((false, out), read_loop_bad rounds b off out more' bad)
        | inr (m, off', e, ahead, inside) ↦
            let (r, rest) = read_loop_total rounds b off' (out ++ (m ∷ [])) (omega arith) inside in
            (r, read_loop_step rounds b off out m off' more' e ∙ rest)
      ]
]

-- On every payload the reader ends with a verdict, and never reads outside the payload.
pub read_messages_total :
    (payload : List ℕ) (out : List Message)
    → (r : Bool × List Message) × (read_messages payload out ≡ value r)
unfolding read_messages
read_messages_total payload out =
    read_loop_total (length payload + 1) payload 0 out (omega arith) (omega arith)

read_message_short : (b : List ℕ) (off : ℕ) → length b < off + 4 → read_message b off ≡ value none
unfolding read_message
read_message_short b off h = ground arith

-- Four bytes of a frame, and not all of the body that they announce.
read_message_partial :
    (front part : List ℕ) (c k n off : ℕ)
    → n < 65536
    → length part < n
    → off ≡ length front
    → read_message (front ++ (c ∷ k ∷ (two_bytes n ++ part))) off ≡ value none
read_message_partial front part c k n off small few at =
    let lo : ℕ = n % 256 in
    let hi : ℕ = n / 256 % 256 in
    let b : List ℕ = front ++ (c ∷ k ∷ lo ∷ hi ∷ part) in
    let channel : get_elem? b off ≡ some c = get_elem?-append_at front c _ off at in
    let kind : get_elem? b (off + 1) ≡ some k =
      rw (sym (append_assoc front (c ∷ []) (k ∷ lo ∷ hi ∷ part))) (
        get_elem?-append_at (front ++ (c ∷ [])) k _ (off + 1)
          (omega (arith, length-append front (c ∷ [])))) in
    let len : get_u16 b (off + 2) ≡ value (n, off + 4) =
      rw (sym (append_assoc front (c ∷ k ∷ []) (lo ∷ hi ∷ part))) (
        get_u16_lem (front ++ (c ∷ k ∷ [])) lo hi part (off + 2)
          (omega (arith, length-append front (c ∷ k ∷ []))) (omega arith) (omega arith)
        ∙ ap value (ground arith)) in
    read_message_step b off c k n (off + 4)
      (omega (arith, length-append front (c ∷ k ∷ lo ∷ hi ∷ part))) channel kind len
    ∙ ground (arith, length-append front (c ∷ k ∷ lo ∷ hi ∷ part))

-- A proper beginning of a frame is refused by the loop's body.
read_message_cut :
    (front part : List ℕ) (m : Message) (x : ℕ) (back : List ℕ) (off : ℕ)
    → length m.body < 65536
    → frame m ≡ part ++ (x ∷ back)
    → off ≡ length front
    → read_message (front ++ part) off ≡ value none
unfolding frame
read_message_cut front (a ∷ b ∷ c ∷ d ∷ part) m x back off v e at =
    let n : ℕ = length m.body in
    let ea : a ≡ m.channel = cc in
    let eb : b ≡ m.kind = cc in
    let ec : c ≡ n % 256 = cc in
    let ed : d ≡ n / 256 % 256 = cc in
    let eb : m.body ≡ part ++ (x ∷ back) = cc in
    rw (ec, ed)
      (read_message_partial front part a b n off v
        (omega (arith, ap length eb, length-append part (x ∷ back))) at)
read_message_cut front [] m x back off v e at =
    read_message_short (front ++ []) off (omega (arith, length-append front []))
read_message_cut front (a ∷ []) m x back off v e at =
    read_message_short (front ++ (a ∷ [])) off (omega (arith, length-append front (a ∷ [])))
read_message_cut front (a ∷ b ∷ []) m x back off v e at =
    read_message_short (front ++ (a ∷ b ∷ [])) off (omega (arith, length-append front (a ∷ b ∷ [])))
read_message_cut front (a ∷ b ∷ c ∷ []) m x back off v e at =
    read_message_short (front ++ (a ∷ b ∷ c ∷ [])) off
      (omega (arith, length-append front (a ∷ b ∷ c ∷ [])))

length_of_some : (part : List ℕ) → part ≢ [] → 0 < length part
length_of_some [] h = absurd (h refl)
length_of_some (x ∷ xs) h = omega arith

-- Messages followed by a proper, non-empty beginning of another frame: refused, with the whole
-- messages decoded.
pub read_messages_cut :
    (ms : List Message) (part : List ℕ) (m : Message) (x : ℕ) (back : List ℕ)
    → All IsMessage ms
    → length m.body < 65536
    → part ≢ []
    → write_message [] m ≡ part ++ (x ∷ back)
    → read_messages (write_messages [] ms ++ part) [] ≡ value (false, ms)
unfolding read_messages
read_messages_cut ms part m x back vs v some_part e =
    let b : List ℕ = frames ms ++ part in
    let flat : write_messages [] ms ++ part ≡ b =
      ap (λ t. t ++ part) (write_messages_lem ms [] vs) in
    let n : ℕ = length b - length ms in
    let off : ℕ = 0 + length (frames ms) in
    let more : off < length b =
      omega (arith, length-append (frames ms) part, length_of_some part some_part) in
    let bad : read_message b off ≡ value none =
      read_message_cut (frames ms) part m x back off v (sym (write_message_lem [] m v) ∙ e)
        (omega arith) in
    rw flat (
      read_loop-frames ms (length b + 1) (suc n) [] part 0 [] vs refl
        (omega (arith, length-frames ms, length-append (frames ms) part))
      ∙ read_loop_bad n b off ms more bad)
