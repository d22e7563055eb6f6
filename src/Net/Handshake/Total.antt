-- ===== src/Net/Handshake/Total.antt =====
-- No input makes a decoder of a body read outside it.
use earth_rise_game.Prelude.{
  ℕ, zero, suc, ◌+◌, ◌*◌, ◌%◌, ◌^◌, ◌≤◌, ◌<◌, ◌≡◌, refl, ap, ◌∙◌, bit_or, List, Option, none, some,
  ltb, arith, length, take, drop, get_elem?_in, Bool-cases, inl, inr, not_lt→ltb,
}
use earth_rise_game.Net.Codec.{
  Outcome, value, out_of_bounds, ◌>>=◌, byte_at, get_bytes, get_u16, get_u32, get_u64,
}
use earth_rise_game.Net.Codec.Fields.{get_u16_step}
use earth_rise_game.Net.Handshake.{
  copy_n, HandshakeResponse, decode_client_hello, decode_cookie, decode_cookie_response,
  decode_handshake_response, decode_login_request, decode_login_response,
}

-- It ends with a value.
abbrev pub Ends {ℓ} : {A : Type ℓ} → Outcome A → Type ℓ
Ends {A = A} o = (x : A) × (o ≡ value x)

byte_at-Ends : (b : List ℕ) (i : ℕ) → i < length b → Ends (byte_at b i)
byte_at-Ends b i h =
    let (x, e) = get_elem?_in b i h in
    (x, ap (λ (o : Option ℕ). elim o [ none ↦ out_of_bounds | some y ↦ value y ]) e)

get_bytes-Ends :
    (width n i : ℕ) (b : List ℕ) (off v : ℕ)
    → off + (i + n) ≤ length b
    → Ends (get_bytes width n i b off v)
unfolding get_bytes
get_bytes-Ends width zero i b off v h = (v, refl)
get_bytes-Ends width (suc n) i b off v h =
    let (x, e) = byte_at-Ends b (off + i) (omega arith) in
    let (y, f) =
      get_bytes-Ends width n (i + 1) b off (bit_or v (x * 2 ^ (8 * i) % 2 ^ width)) (omega arith) in
    (
      y,
      ap (λ o. o >>= λ x. get_bytes width n (i + 1) b off (bit_or v (x * 2 ^ (8 * i) % 2 ^ width)))
            e
          ∙ f,
    )

get_u16-Ends :
    (b : List ℕ) (off : ℕ) → off + 2 ≤ length b → (v : ℕ) × (get_u16 b off ≡ value (v, off + 2))
get_u16-Ends b off h =
    let (lo, e) = get_elem?_in b off (omega arith) in
    let (hi, f) = get_elem?_in b (off + 1) (omega arith) in
    (bit_or lo (hi * 2 ^ 8 % 2 ^ 16), get_u16_step b off lo hi e f)

get_u32-Ends :
    (b : List ℕ) (off : ℕ) → off + 4 ≤ length b → (v : ℕ) × (get_u32 b off ≡ value (v, off + 4))
unfolding get_u32
get_u32-Ends b off h = let (v, e) = get_bytes-Ends 32 4 0 b off 0 (omega arith) in (v, rw e refl)

get_u64-Ends :
    (b : List ℕ) (off : ℕ) → off + 8 ≤ length b → (v : ℕ) × (get_u64 b off ≡ value (v, off + 8))
unfolding get_u64
get_u64-Ends b off h = let (v, e) = get_bytes-Ends 64 8 0 b off 0 (omega arith) in (v, rw e refl)

copy_n-Ends :
    (b : List ℕ) (off n : ℕ) → off + n ≤ length b → copy_n b off n ≡ value (take n (drop off b))
unfolding copy_n
copy_n-Ends b off n h = rw (not_lt→ltb (length b) (off + n) h) refl

-- A decoder returns false on fewer than `n` bytes, and else reads a body; it never leaves its input.
abbrev pub Answers {ℓ} : {A : Type ℓ} → (List ℕ → Outcome (Option A)) → ℕ → Type ℓ
Answers {A = A} decode n =
    (input : List ℕ)
    → (length input < n → decode input ≡ value none)
      × (n ≤ length input → (b : A) × (decode input ≡ value (some b)))

decode_client_hello-Answers : Answers decode_client_hello 4
unfolding decode_client_hello
decode_client_hello-Answers input = (
  λ h. ground arith,
  λ h. let (id, e) = get_u32-Ends input 0 (omega arith) in (id, ground (arith, e)),
)

decode_cookie-Answers : Answers decode_cookie 32
unfolding decode_cookie
decode_cookie-Answers input = (
  λ h. ground arith,
  λ h. let e = copy_n-Ends input 0 32 (omega arith) in (take 32 (drop 0 input), ground (arith, e)),
)

decode_cookie_response-Answers : Answers decode_cookie_response 96
unfolding decode_cookie_response
decode_cookie_response-Answers input = (
  λ h. ground arith,
  λ h.
      let e = copy_n-Ends input 0 32 (omega arith) in
      let f = copy_n-Ends input 32 64 (omega arith) in
      (
        record { cookie = take 32 (drop 0 input); client_ephemeral_pub = take 64 (drop 32 input) },
        ground (arith, e, f),
      ),
)

pub handshake_step :
    (input : List ℕ) (b : HandshakeResponse)
    → 140 ≤ length input
    → copy_n input 0 64 ≡ value b.server_ephemeral_pub
    → copy_n input 64 64 ≡ value b.signature
    → get_u64 input 128 ≡ value (b.connection_token, 136)
    → get_u32 input 136 ≡ value (b.epoch, 140)
    → decode_handshake_response input ≡ value (some b)
unfolding decode_handshake_response
handshake_step input b long key signature token epoch = ground arith

decode_handshake_response-Answers : Answers decode_handshake_response 140
unfolding decode_handshake_response
decode_handshake_response-Answers input = (
  λ h. ground arith,
  λ h.
      let e = copy_n-Ends input 0 64 (omega arith) in
      let f = copy_n-Ends input 64 64 (omega arith) in
      let (token, g) = get_u64-Ends input 128 (omega arith) in
      let (epoch, k) = get_u32-Ends input 136 (omega arith) in
      let b : HandshakeResponse = record {
        server_ephemeral_pub = take 64 (drop 0 input);
        signature = take 64 (drop 64 input);
        connection_token = token;
        epoch = epoch;
      } in
      (b, handshake_step input b h e f g k),
)

decode_login_response-Answers : Answers decode_login_response 14
unfolding decode_login_response
decode_login_response-Answers input = (
  λ h. ground arith,
  λ h.
      let (success, e) = byte_at-Ends input 0 (omega arith) in
      let (reason, f) = byte_at-Ends input 1 (omega arith) in
      let (token, g) = get_u64-Ends input 2 (omega arith) in
      let (id, k) = get_u32-Ends input 10 (omega arith) in
      (
        record {
          success = success;
          reason = reason;
          session_token = token;
          player_network_id = id;
        },
        ground (arith, e, f, g, k),
      ),
)

decode_login_request-Ends :
    (input : List ℕ) → (o : Option (List ℕ)) × (decode_login_request input ≡ value o)
unfolding decode_login_request
decode_login_request-Ends input = elim (Bool-cases (ltb (length input) 2)) [
  | inl short ↦ (none, rw short refl)
  | inr long ↦
      let (len, e) = get_u16-Ends input 0 (ground arith) in
      elim (Bool-cases (ltb (length input) (2 + len))) [
        | inl cut ↦ (none, ground (arith, e))
        | inr whole ↦
            let f = copy_n-Ends input 2 len (ground arith) in
            (some (take len (drop 2 input)), ground (arith, e, f))
      ]
]

-- On every input, each decoder of a body comes to an end without a read outside the input: the five of a
-- fixed size return false just on fewer bytes than that, and that of LoginRequest returns false or a name.
pub decoders_total :
    Answers decode_client_hello 4
    × Answers decode_cookie 32
    × Answers decode_cookie_response 96
    × Answers decode_handshake_response 140
    × Answers decode_login_response 14
    × ((input : List ℕ) → (o : Option (List ℕ)) × (decode_login_request input ≡ value o))
decoders_total = (
  decode_client_hello-Answers, decode_cookie-Answers, decode_cookie_response-Answers,
  decode_handshake_response-Answers, decode_login_response-Answers, decode_login_request-Ends,
)
