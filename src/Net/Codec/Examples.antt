-- ===== src/Net/Codec/Examples.antt =====
-- Packets and payloads, encoded and decoded.
use earth_rise_game.Prelude.{◌≡◌, refl, true, false, List, [], ◌∷◌, ◌++◌, arith, Bool}
use earth_rise_game.Net.Codec.{
  value, PacketHeader, Message, put_u16, put_u32, put_u64, put_bytes, write_packet_header, get_u16,
  write_message, read_message, read_loop, subspan, read_messages,
}
use earth_rise_game.Net.Codec.Messages.{write_messages, read-write_messages}
use earth_rise_game.Net.Codec.Safety.{read_messages_total, read_messages_cut}

abbrev header : PacketHeader
header = record {
  protocol_id = 0x45520001;
  connection_token = 0x0102030405060708;
  packet_number = 300;
}

header_wire :
    write_packet_header [] header
    ≡ 0x01 ∷ 0x00 ∷ 0x52 ∷ 0x45 ∷ 8 ∷ 7 ∷ 6 ∷ 5 ∷ 4 ∷ 3 ∷ 2 ∷ 1 ∷ 44 ∷ 1 ∷ 0 ∷ 0 ∷ 0 ∷ 0 ∷ 0 ∷ 0
      ∷ []
unfolding write_packet_header put_u32 put_u64 put_bytes
header_wire = refl

abbrev hello : Message
hello = record { channel = 1; kind = 41; body = 104 ∷ 105 ∷ [] }

abbrev ping : Message
ping = record { channel = 0; kind = 43; body = [] }

hello_wire : write_message [] hello ≡ 1 ∷ 41 ∷ 2 ∷ 0 ∷ 104 ∷ 105 ∷ []
unfolding write_message put_u16
hello_wire = refl

read_two :
    read_messages (1 ∷ 41 ∷ 2 ∷ 0 ∷ 104 ∷ 105 ∷ 0 ∷ 43 ∷ 0 ∷ 0 ∷ []) []
    ≡ value (true, hello ∷ ping ∷ [])
unfolding read_messages read_loop read_message subspan get_u16
read_two = refl

read-write_messages_example :
    read_messages (write_messages [] (hello ∷ ping ∷ [])) [] ≡ value (true, hello ∷ ping ∷ [])
read-write_messages_example = read-write_messages (hello ∷ ping ∷ []) (omega arith)

read_messages_total_example :
    (r : Bool × List Message) × (read_messages (9 ∷ 9 ∷ 255 ∷ []) [] ≡ value r)
read_messages_total_example = read_messages_total (9 ∷ 9 ∷ 255 ∷ []) []

read_messages_cut_example :
    read_messages (write_messages [] (ping ∷ []) ++ (1 ∷ 41 ∷ 2 ∷ 0 ∷ 104 ∷ [])) []
    ≡ value (false, ping ∷ [])
unfolding write_message put_u16
read_messages_cut_example =
    read_messages_cut (ping ∷ []) (1 ∷ 41 ∷ 2 ∷ 0 ∷ 104 ∷ []) hello 105 [] (omega arith)
      (omega arith) (λ e. cc) refl
