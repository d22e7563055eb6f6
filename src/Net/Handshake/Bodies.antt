-- ===== src/Net/Handshake/Bodies.antt =====
-- What the bodies of the handshake are read back as.
use native.Mathlib.Nat.{mod-eq_of_lt}
use earth_rise_game.Prelude.{
  ℕ, ◌+◌, ◌*◌, ◌/◌, ◌%◌, ◌^◌, ◌≤◌, ◌<◌, ◌≡◌, refl, ap, sym, List, [], ◌++◌, some, arith, length,
  length-append, append_assoc, slice-append, not_lt→ltb, take, drop,
}
use earth_rise_game.Net.Codec.{value, put_u16, put_u32, put_u64, get_u16, get_u32, get_u64}
use earth_rise_game.Net.Codec.Fields.{
  bytes_from, length-bytes_from, put_bytes_lem, put_u16_lem, get_u16_lem, get_u32_lem, get_u64_lem,
  two_bytes,
}
use earth_rise_game.Net.Handshake.Total.{handshake_step}
use earth_rise_game.Net.Handshake.{
  copy_n, HandshakeResponse, encode_handshake_response, encode_login_request,
  decode_handshake_response, decode_login_request,
}

copy_n-append :
    (front xs rest : List ℕ) (off n : ℕ)
    → off ≡ length front
    → n ≡ length xs
    → copy_n (front ++ (xs ++ rest)) off n ≡ value xs
unfolding copy_n
copy_n-append front xs rest off n at size =
    let long : off + n ≤ length (front ++ (xs ++ rest)) =
      omega (arith, at, size, length-append front (xs ++ rest), length-append xs rest) in
    let cut : take n (drop off (front ++ (xs ++ rest))) ≡ xs =
      rw size (slice-append front xs rest off at) in
    rw (not_lt→ltb (length (front ++ (xs ++ rest))) (off + n) long) (ap (λ ys. value ys) cut)

-- The fields of a body fit their arrays and their types.
pub record IsHandshakeResponse (b : HandshakeResponse) : Type 0 where
  pub key : length b.server_ephemeral_pub ≡ 64
  pub signature : length b.signature ≡ 64
  pub token : b.connection_token < 2 ^ 64
  pub epoch : b.epoch < 2 ^ 32

-- A HandshakeResponse whose fields fit their arrays and types is read back from what Encode appends to an
-- empty buffer, whatever follows.
pub decode-encode_handshake_response :
    (b : HandshakeResponse) (rest : List ℕ)
    → IsHandshakeResponse b
    → decode_handshake_response (encode_handshake_response b [] ++ rest) ≡ value (some b)
unfolding encode_handshake_response put_u32 put_u64
decode-encode_handshake_response b rest v =
    let key : List ℕ = b.server_ephemeral_pub in
    let token : List ℕ = bytes_from 8 0 b.connection_token in
    let epoch : List ℕ = bytes_from 4 0 b.epoch in
    let input : List ℕ = key ++ (b.signature ++ (token ++ (epoch ++ rest))) in
    let flat : encode_handshake_response b [] ++ rest ≡ input =
      simp (put_bytes_lem, append_assoc) in
    let sizes : (length token ≡ 8) × (length epoch ≡ 4) =
      (length-bytes_from 8 0 b.connection_token, length-bytes_from 4 0 b.epoch) in
    let long : 140 ≤ length input = omega (
      arith,
      sizes.0,
      sizes.1,
      v.key,
      v.signature,
      length-append key (b.signature ++ (token ++ (epoch ++ rest))),
      length-append b.signature (token ++ (epoch ++ rest)),
      length-append token (epoch ++ rest),
      length-append epoch rest,
    ) in
    let token_at : get_u64 input 128 ≡ value (b.connection_token, 136) =
      rw (sym (append_assoc key b.signature (token ++ (epoch ++ rest)))) (
        get_u64_lem (key ++ b.signature) b.connection_token (epoch ++ rest) 128
          (omega (arith, length-append key b.signature, v.key, v.signature)) v.token) in
    let epoch_at : get_u32 input 136 ≡ value (b.epoch, 140) =
      rw
        (
          sym (append_assoc key b.signature (token ++ (epoch ++ rest))),
          sym (append_assoc (key ++ b.signature) token (epoch ++ rest)),
        )
        (get_u32_lem ((key ++ b.signature) ++ token) b.epoch rest 136
          (omega (
            arith,
            length-append key b.signature,
            length-append (key ++ b.signature) token,
            sizes.0,
            v.key,
            v.signature,
          ))
          v.epoch) in
    rw flat (
      handshake_step input b long
        (copy_n-append [] key (b.signature ++ (token ++ (epoch ++ rest))) 0 64 refl (sym v.key))
        (copy_n-append key b.signature (token ++ (epoch ++ rest)) 64 64 (sym v.key)
          (sym v.signature))
        token_at epoch_at)

-- A user name shorter than 2 ^ 16 is read back from what Encode appends to an empty buffer, whatever
-- follows.
pub decode-encode_login_request :
    (username rest : List ℕ)
    → length username < 2 ^ 16
    → decode_login_request (encode_login_request username [] ++ rest) ≡ value (some username)
unfolding encode_login_request decode_login_request
decode-encode_login_request username rest small =
    let n : ℕ = length username in
    let whole : n % 2 ^ 16 ≡ n = mod-eq_of_lt small in
    let input : List ℕ = two_bytes n ++ (username ++ rest) in
    let flat : (put_u16 [] (n % 2 ^ 16) ++ username) ++ rest ≡ input =
      rw (whole, put_u16_lem [] n) (append_assoc (two_bytes n) username rest) in
    let size : length input ≡ n + length rest + 2 = omega (arith, length-append username rest) in
    let value_back : n / 256 % 256 * 256 + n % 256 ≡ n = omega arith in
    let len : get_u16 input 0 ≡ value (n, 2) = rw value_back at (
      get_u16_lem [] (n % 256) (n / 256 % 256) (username ++ rest) 0 refl (omega arith)
        (omega arith)) in
    let name : copy_n input 2 n ≡ value username =
      copy_n-append (two_bytes n) username rest 2 n refl refl in
    rw (flat) (read_name input username len (omega (arith, size)) name)
  where
    read_name :
        (input name : List ℕ)
        → get_u16 input 0 ≡ value (length name, 2)
        → 2 + length name ≤ length input
        → copy_n input 2 (length name) ≡ value name
        → decode_login_request input ≡ value (some name)
    read_name input name e h f = unfold decode_login_request in ground arith
