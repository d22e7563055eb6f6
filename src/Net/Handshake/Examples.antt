-- ===== src/Net/Handshake/Examples.antt =====
-- Bodies on concrete bytes.
use earth_rise_game.Prelude.{◌≡◌, refl, [], ◌∷◌, ◌++◌, none, some, arith, replicate}
use earth_rise_game.Net.Codec.{value, put_u16, get_u16}
use earth_rise_game.Net.Handshake.{
  copy_n, HandshakeResponse, encode_handshake_response, decode_handshake_response,
  encode_login_request, decode_login_request,
}
use earth_rise_game.Net.Handshake.Bodies.{decode-encode_handshake_response}

abbrev response : HandshakeResponse
response = record {
  server_ephemeral_pub = replicate 64 7;
  signature = replicate 64 9;
  connection_token = 0x0102030405060708;
  epoch = 3;
}

decode-encode_handshake_response_example :
    decode_handshake_response (encode_handshake_response response [] ++ (1 ∷ []))
    ≡ value (some response)
decode-encode_handshake_response_example =
    decode-encode_handshake_response response (1 ∷ [])
      (record { key = refl; signature = refl; token = omega arith; epoch = omega arith })

name_back :
    decode_login_request (encode_login_request (98 ∷ 111 ∷ 98 ∷ []) [] ++ [])
    ≡ value (some (98 ∷ 111 ∷ 98 ∷ []))
unfolding decode_login_request encode_login_request put_u16 get_u16 copy_n
name_back = refl

-- A name whose length field is longer than what follows is refused.
name_cut : decode_login_request (5 ∷ 0 ∷ 98 ∷ []) ≡ value none
unfolding decode_login_request get_u16
name_cut = refl
