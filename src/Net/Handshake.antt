-- ===== src/Net/Handshake.antt =====
-- NeuronCore/HandshakeMessages.h: the bodies of the handshake and login messages. Keys, signatures and
-- cookies are lists of bytes of the lengths of their arrays; ClockSyncBody, with a `double`, is left out.
-- A `Decode` is `none` where it returns false, with its body left as it was.
pub mod Total
pub mod Bodies
mod Examples
use earth_rise_game.Prelude.{
  ℕ, suc, ◌+◌, ◌%◌, ◌^◌, List, [], ◌∷◌, ◌++◌, Option, none, some, ltb, if◌then◌else◌, take, drop,
  length,
}
use earth_rise_game.Net.Codec.{
  Outcome, value, out_of_bounds, ◌>>=◌, byte_at, put_u16, put_u32, put_u64, get_u16, get_u32,
  get_u64,
}

abbrev pub cookie_bytes : ℕ
cookie_bytes = 32

abbrev pub ec_pub_key_bytes : ℕ
ec_pub_key_bytes = 64

abbrev pub ec_sig_bytes : ℕ
ec_sig_bytes = 64

-- `std::copy_n(in.begin() + off, n, …)`, the bytes that it copies.
unfoldable pub copy_n : List ℕ → ℕ → ℕ → Outcome (List ℕ)
copy_n input off n =
    if ltb (length input) (off + n) then out_of_bounds else value (take n (drop off input))

-- `ClientHelloBody`, which is its protocol id.
pub encode_client_hello : ℕ → List ℕ → List ℕ
encode_client_hello protocol_id out = put_u32 out protocol_id

pub decode_client_hello : List ℕ → Outcome (Option ℕ)
decode_client_hello input =
    if ltb (length input) 4 then value none else do (id, off) ← get_u32 input 0; value (some id)

-- `CookieBody`, which is its cookie.
pub encode_cookie : List ℕ → List ℕ → List ℕ
encode_cookie cookie out = out ++ cookie

pub decode_cookie : List ℕ → Outcome (Option (List ℕ))
decode_cookie input =
    if ltb (length input) cookie_bytes
    then value none
    else do cookie ← copy_n input 0 cookie_bytes; value (some cookie)

-- `CookieResponseBody`.
pub record CookieResponse : Type 0 where
  pub cookie : List ℕ
  pub client_ephemeral_pub : List ℕ

pub encode_cookie_response : CookieResponse → List ℕ → List ℕ
encode_cookie_response b out = (out ++ b.cookie) ++ b.client_ephemeral_pub

pub decode_cookie_response : List ℕ → Outcome (Option CookieResponse)
decode_cookie_response input =
    if ltb (length input) (cookie_bytes + ec_pub_key_bytes) then value none else do
      cookie ← copy_n input 0 cookie_bytes
      key ← copy_n input cookie_bytes ec_pub_key_bytes
      value (some (record { cookie = cookie; client_ephemeral_pub = key }))

-- `HandshakeResponseBody`.
pub record HandshakeResponse : Type 0 where
  pub server_ephemeral_pub : List ℕ
  pub signature : List ℕ
  pub connection_token : ℕ
  pub epoch : ℕ

pub encode_handshake_response : HandshakeResponse → List ℕ → List ℕ
encode_handshake_response b out =
    put_u32 (put_u64 ((out ++ b.server_ephemeral_pub) ++ b.signature) b.connection_token) b.epoch

pub decode_handshake_response : List ℕ → Outcome (Option HandshakeResponse)
decode_handshake_response input =
    if ltb (length input) (ec_pub_key_bytes + ec_sig_bytes + 8 + 4) then value none else do
      key ← copy_n input 0 ec_pub_key_bytes
      signature ← copy_n input (0 + ec_pub_key_bytes) ec_sig_bytes
      (token, off) ← get_u64 input (0 + ec_pub_key_bytes + ec_sig_bytes)
      (epoch, off') ← get_u32 input off
      value (
          some (record {
            server_ephemeral_pub = key;
            signature = signature;
            connection_token = token;
            epoch = epoch;
          }))

-- `LoginRequestBody`, which is its user name. Its length is cut to 16 bits.
pub encode_login_request : List ℕ → List ℕ → List ℕ
encode_login_request username out = put_u16 out (length username % 2 ^ 16) ++ username

pub decode_login_request : List ℕ → Outcome (Option (List ℕ))
decode_login_request input = if ltb (length input) 2 then value none else do
  (len, off) ← get_u16 input 0
  if ltb (length input) (off + len)
      then value none
      else (copy_n input off len >>= λ username. value (some username))

-- `LoginResponseBody`.
pub record LoginResponse : Type 0 where
  pub success : ℕ
  pub reason : ℕ
  pub session_token : ℕ
  pub player_network_id : ℕ

pub encode_login_response : LoginResponse → List ℕ → List ℕ
encode_login_response b out =
    put_u32 (put_u64 ((out ++ (b.success ∷ [])) ++ (b.reason ∷ [])) b.session_token)
      b.player_network_id

pub decode_login_response : List ℕ → Outcome (Option LoginResponse)
decode_login_response input = if ltb (length input) (1 + 1 + 8 + 4) then value none else do
  success ← byte_at input 0
  reason ← byte_at input 1
  (token, off) ← get_u64 input 2
  (id, off') ← get_u32 input off
  value (
      some (record {
        success = success;
        reason = reason;
        session_token = token;
        player_network_id = id;
      }))
