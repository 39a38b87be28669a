-- ===== src/Jt1078Client.antt =====
-- jt1078_client/Jt1078Client.cpp: the connection of the web server and of the PC server to the forward
-- server.
pub mod Relay
pub mod Cut
use multi_process_server.Base.{
  ℕ, ◌%◌, ◌^◌, Bool, true, false, List, [], ◌∷◌, ◌++◌, Bytes, length, ◌≡◌, ap, ◌∙◌,
}
use multi_process_server.Buffer.{Alloc}
use multi_process_server.Jt1078.CarSession.{TcpErrorType}
use multi_process_server.Ipc.Packet.{
  Packet, packet_size, packet_bytes, next_seq_id, invalid_pkt_seq_id,
}
use multi_process_server.Ipc.Decoder.{Decoder, ErrorType, push_buffer, new_decoder}
use multi_process_server.Ipc.Reader.{Event, errored, Handled, told, read_all}
use multi_process_server.Ipc.Reader.Whole.{Reads}
use multi_process_server.Tcp.{Session, Sent, send_buffer}

pub record Client : Type 0 where
  pub session : Session
  pub decoder : Decoder
  pub connected : Bool
  pub last_receive : ℕ
  pub last_send : ℕ

-- The constructor.
abbrev pub new_client : Alloc → Session → Client
new_client alloc session = record {
  session = session;
  decoder = new_decoder alloc;
  connected = false;
  last_receive = invalid_pkt_seq_id;
  last_send = invalid_pkt_seq_id;
}

-- The header that `SendPacket` fills in.
abbrev pub sent_header : ℕ → ℕ → Bytes → Packet
sent_header seq mask text = record {
  head_length = packet_size;
  data_length = length text % 2 ^ 32;
  pkt_seq_id = seq;
  pkt_type = mask;
}

-- `SendPacket`: the value is that of `SendBuffer`, and nothing is done where it is less than the whole.
unfoldable pub send_packet : ℕ → Bytes → Client → Sent × Client
send_packet mask text c =
    let seq = next_seq_id c.last_send in
    let (value, session) =
      send_buffer (packet_bytes (sent_header seq mask text) ++ text) c.session in
    (value, record c { session = session; last_send = seq })

-- `OnConnected`: `InitReadEvent` makes the socket one that can be written to.
unfoldable pub on_connected : Bool → Client → Client
on_connected true c = record c {
  connected = true;
  session = record (c.session) { can_write = true };
}
on_connected false c = record c { connected = false }

-- `OnError`.
unfoldable pub on_error : TcpErrorType → Client → List Event × Client
on_error e c = (errored e ∷ [], record c { connected = false })

module _ (alloc : Alloc) where
  -- `OnMessage`: what `PushBuffer` returns is not looked at.
  unfoldable pub on_message : Bytes → Decoder → Handled
  unfolding push_buffer read_all
  on_message new d = told (read_all alloc (push_buffer alloc new d).1)

  pub on_message-Reads : Reads alloc on_message
  unfolding on_message
  on_message-Reads new d d' ms e p q =
      ap (λ (r : ErrorType × Decoder). told (read_all alloc r.1)) p ∙ ap told q
