-- ===== src/Net/Routing/Token.antt =====
-- `PeekConnectionToken` against the header that PacketCodec.h writes.
use earth_rise_game.Prelude.{
  ℕ, ◌+◌, ◌%◌, ◌^◌, ◌*◌, ◌≤◌, ◌<◌, ◌≡◌, ap, ◌∙◌, List, [], ◌∷◌, ◌++◌, none, some, arith, length,
  length-append, append_assoc,
}
use earth_rise_game.Net.Codec.{value, PacketHeader, write_packet_header, get_bytes}
use earth_rise_game.Net.Codec.Fields.{
  IsHeader, header_bytes, write_packet_header_lem, bytes_from, length-bytes_from, get_bytes_lem,
}
use earth_rise_game.Net.Routing.{peek_connection_token, datagram_kind_encrypted}

peek_step :
    (dg : List ℕ) (token : ℕ)
    → 12 ≤ length dg
    → get_bytes 64 8 0 (1 ∷ dg) 5 0 ≡ value token
    → peek_connection_token (1 ∷ dg) ≡ value (some token)
unfolding peek_connection_token
peek_step dg token long e = ground arith

-- The token that routes an encrypted datagram is the one in its packet header, whatever follows.
pub peek-write_packet_header :
    (h : PacketHeader) (rest : List ℕ)
    → IsHeader h
    → peek_connection_token (datagram_kind_encrypted ∷ (write_packet_header [] h ++ rest))
      ≡ value (some h.connection_token)
unfolding header_bytes
peek-write_packet_header h rest v =
    let token : ℕ = h.connection_token in
    let front : List ℕ = 1 ∷ bytes_from 4 0 h.protocol_id in
    let behind : List ℕ = bytes_from 8 0 h.packet_number ++ rest in
    let none_yet : token % 2 ^ (8 * 0) ≡ 0 = omega arith in
    let all : token % 2 ^ (8 * (0 + 8)) ≡ token = omega (arith, v.token) in
    let flat : write_packet_header [] h ++ rest
        ≡ bytes_from 4 0 h.protocol_id ++ (bytes_from 8 0 token ++ behind) =
      rw write_packet_header_lem (simp append_assoc) in
    let read : get_bytes 64 8 0 (front ++ (bytes_from 8 0 token ++ behind)) 5 0 ≡ value token =
      rw none_yet at (
        get_bytes_lem 64 8 0 front token behind 5 (omega arith)
          (omega (arith, length-bytes_from 4 0 h.protocol_id)))
      ∙ ap value all in
    rw flat (
      peek_step (bytes_from 4 0 h.protocol_id ++ (bytes_from 8 0 token ++ behind)) token
        (rw (length-append, length-append)
          (omega (arith, length-bytes_from 4 0 h.protocol_id, length-bytes_from 8 0 token)))
        read)

-- A datagram of 1 to 12 bytes has no token, of whatever kind it is.
pub peek_refused :
    (kind : ℕ) (dg : List ℕ) → length dg < 12 → peek_connection_token (kind ∷ dg) ≡ value none
unfolding peek_connection_token
peek_refused kind dg short = ground arith
