-- ===== src/Tests/Sending.antt =====
-- Sessions whose kernel takes some bytes, is interrupted, blocks and fails, and a forward server with
-- two subscribers.
use multi_process_server.Base.{
  ◌+◌, ◌≡◌, refl, arith, true, false, List, [], ◌∷◌, ◌++◌, Bytes, take, find, none, if◌then◌else◌,
}
use multi_process_server.Jt1078.Header.{Packet, cleared}
use multi_process_server.Ipc.Packet.{packet_bytes, le_bytes, next_seq_id, packet_size}
use multi_process_server.Ipc.Packet as Ipc
use multi_process_server.Ipc.Decoder.{Decoder, read_header}
use multi_process_server.Ipc.Decoder.Start.{IsReady}
use multi_process_server.Tcp.{
  Session, interrupted, accepts, would_block, send_buffer, send_to, send_pending, send_list,
}
use multi_process_server.Tcp.Ids.{generate_all, AllDifferent, generate_all-AllDifferent}
use multi_process_server.Tcp.Sender.{Posted, post_all}
use multi_process_server.Pc.Session.{send_packet, send_packet-Posted, pc_sender}
use multi_process_server.Forward.Subscriber.{frame}
use multi_process_server.Forward.Subscriber.Relay.{Forwardable}
use multi_process_server.Forward.Publisher.{Objects, exists}
use multi_process_server.Forward.Server.{
  Server, Happening, connects, sends, is_lost, publishes, run, new_server, new_subscriber,
  on_packet_error,
}
use multi_process_server.Forward.Server.Copies.{tally}
use multi_process_server.Forward.Server.Ledger.{run-ledger}
use multi_process_server.Forward.Server.Release.{AllFilled, AllWithout, on_packet_error-AllFilled}

abbrev torn : Session
torn = record {
  can_write = true;
  pending = [];
  wire = [];
  replies = interrupted ∷ accepts 2 ∷ would_block ∷ accepts 1 ∷ accepts 9 ∷ [];
}

abbrev packets : List Bytes
packets = (1 ∷ 2 ∷ 3 ∷ []) ∷ (4 ∷ []) ∷ (5 ∷ 6 ∷ []) ∷ []

all_taken : (post_all pc_sender packets torn).accepted ≡ packets
unfolding post_all send_packet send_buffer send_to send_pending send_list
all_taken = refl

first_two : (post_all pc_sender packets torn).session.wire ≡ 1 ∷ 2 ∷ 3 ∷ 4 ∷ []
unfolding post_all send_packet send_buffer send_to send_pending send_list
first_two = refl

send_packet-Posted_example : Posted (7 ∷ 8 ∷ 9 ∷ []) torn (send_packet (7 ∷ 8 ∷ 9 ∷ []) torn)
send_packet-Posted_example = send_packet-Posted (7 ∷ 8 ∷ 9 ∷ []) torn

abbrev pub car_packet : Packet
car_packet = record { header = record cleared { body_len = 3 }; body = 9 ∷ 8 ∷ 7 ∷ 0 ∷ [] }

pub car_packet-Forwardable : Forwardable car_packet
car_packet-Forwardable = record { sim = refl; stored = omega arith; small = omega arith }

abbrev reader : Decoder
reader = record {
  buffer = record {
    buffer = frame (next_seq_id 4) 0x12345678 car_packet ++ (1 ∷ 2 ∷ []);
    read_index = 0;
    capacity = 100;
  };
  packet = Ipc.cleared;
  body = [];
  packet_capacity = 1024;
  howmuch = packet_size;
  read_status = read_header;
}

reader-IsReady : IsReady reader
reader-IsReady = record { sound = omega arith; at_header = refl; wants_header = refl }

abbrev pub objects : Objects
objects id = new_subscriber []

abbrev course : List Happening
course =
    connects 5 (accepts 100 ∷ [])
    ∷ connects 6 []
    ∷ sends 5 0x30002 77
    ∷ sends 6 0x30002 77
    ∷ publishes 77 car_packet
    ∷ is_lost 5
    ∷ sends 6 0x30003 77
    ∷ []

run-ledger_example :
    let s = run course (new_server true objects) in
    tally 77 true s.notices ≡ tally 77 false s.notices + (if exists 77 s.channels then 1 else 0)
run-ledger_example =
    run-ledger course true objects 77 (tt, (tt, (refl, (refl, (tt, (tt, (refl, tt)))))))

abbrev two_subscribers : Server
two_subscribers = run (take 4 course) (new_server true objects)

on_packet_error-AllFilled_example :
    let s' = on_packet_error 5 two_subscribers in
    (find 5 s'.subscribers ≡ none) × AllWithout 5 s'.channels × AllFilled s'.channels
on_packet_error-AllFilled_example = on_packet_error-AllFilled 5 two_subscribers

-- Three sessions around the change of the count from 999999 to 1000000.
generate_all-AllDifferent_example :
    AllDifferent (generate_all (1700000000 ∷ 1700000000 ∷ 1700000001 ∷ []) 999998)
generate_all-AllDifferent_example =
    generate_all-AllDifferent (1700000000 ∷ 1700000000 ∷ 1700000001 ∷ []) 999998 (omega arith)
      (omega arith) (omega arith, (omega arith, (omega arith, tt)))
