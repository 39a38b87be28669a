-- ===== src/Tests/Servers.antt =====
-- The decoder of core/ipc_packet on packets of three and of six bytes, with a packet buffer for 20
-- bytes, header and data.
use multi_process_server.Base.{◌≡◌, refl, arith, [], ◌∷◌, ◌++◌, Bytes}
use multi_process_server.Tests.Cars.{exact}
use multi_process_server.Ipc.Packet.{Packet, cleared, packet_size, packet_bytes, IsPacket, le_bytes}
use multi_process_server.Ipc.Decoder.{Decoder, Fault, decode, fault, read_header}
use multi_process_server.Ipc.Decoder.Safety.{Incoming, decode_overflows}

abbrev small : Packet
small = record { head_length = 16; data_length = 3; pkt_seq_id = 7; pkt_type = 1 }

abbrev big : Packet
big = record { head_length = 16; data_length = 6; pkt_seq_id = 8; pkt_type = 1 }

abbrev waiting : Bytes → Decoder
waiting xs = record {
  buffer = record { buffer = xs; read_index = 0; capacity = 100 };
  packet = cleared;
  body = [];
  packet_capacity = 20;
  howmuch = packet_size;
  read_status = read_header;
}

abbrev small_data : Bytes
small_data = 9 ∷ 8 ∷ 7 ∷ []

abbrev big_data : Bytes
big_data = 1 ∷ 2 ∷ 3 ∷ 4 ∷ 5 ∷ 6 ∷ []

small-IsPacket : IsPacket small
small-IsPacket = record {
  head_fits = omega arith;
  data_fits = omega arith;
  seq_fits = omega arith;
  type_fits = omega arith;
}

big-IsPacket : IsPacket big
big-IsPacket = record {
  head_fits = omega arith;
  data_fits = omega arith;
  seq_fits = omega arith;
  type_fits = omega arith;
}

abbrev small_waiting : Decoder
small_waiting = waiting (packet_bytes small ++ (small_data ++ (5 ∷ [])))

small_incoming : Incoming exact small_waiting small small_data (5 ∷ [])
unfolding packet_bytes le_bytes
small_incoming = record {
  ready = record { sound = omega arith; at_header = refl; wants_header = refl };
  packet_fits = small-IsPacket;
  head = refl;
  announced = refl;
  content = refl;
}

abbrev big_waiting : Decoder
big_waiting = waiting (packet_bytes big ++ (big_data ++ []))

big_incoming : Incoming exact big_waiting big big_data []
unfolding packet_bytes le_bytes
big_incoming = record {
  ready = record { sound = omega arith; at_header = refl; wants_header = refl };
  packet_fits = big-IsPacket;
  head = refl;
  announced = refl;
  content = refl;
}

decode_overflows_example : (f : Fault) × (decode exact big_waiting ≡ fault f)
decode_overflows_example =
    decode_overflows exact big_waiting big big_data [] big_incoming (omega arith)
