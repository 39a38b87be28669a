-- ===== src/Forward/Subscriber.antt =====
-- jt1078/forward_server/Subscriber.cpp: how a packet of a car is sent to a subscriber: the header of
-- an IPC packet, the device id, the header of the car's packet as it lies in memory, and its body.
pub mod Stream
pub mod Relay
pub mod Reading
use multi_process_server.Base.{
  ℕ, ◌+◌, ◌*◌, min, Bool, true, false, List, [], ◌∷◌, ◌++◌, concat, Bytes, length, drop, ltb,
  if◌then◌else◌,
}
use multi_process_server.Buffer.{Count, count, minus_one}
use multi_process_server.Jt1078.Header.{Header, Packet, payload}
use multi_process_server.Ipc.Packet.{le_bytes, packet_size, packet_bytes, next_seq_id}
use multi_process_server.Ipc.Packet as Ipc
use multi_process_server.Tcp.{
  Session, Sent, written, again, broken, send_buffer, send_pending, push_back,
}

-- `IPC_PKT_TYPE_JT1078_PACKET | IPC_PKT_FROM_JT1078_SERVER`.
abbrev pub jt1078_packet_type : ℕ
jt1078_packet_type = 0x00010004

-- `sizeof(device_id_t)` and `sizeof(jt1078::header_t)`.
abbrev pub device_id_size : ℕ
device_id_size = 8

abbrev pub header_size : ℕ
header_size = 30

-- The 30 bytes of a `header_t`, without padding and with the first bit field in the lowest bits, as
-- the compilers for x86 and ARM lay it out: in front of the SIM card number, and behind it.
unfoldable pub header_front : Header → Bytes
unfolding le_bytes
header_front h =
    le_bytes 4 h.frame_head_mark
    ++ (h.v2 + 4 * h.p1 + 8 * h.x1 + 16 * h.cc4)
      ∷ (h.m1 + 2 * h.pt7)
      ∷ le_bytes 2 h.package_sequence

unfoldable pub header_back : Header → Bytes
unfolding le_bytes
header_back h =
    h.logic_channel_number
      ∷ (h.data_type4 + 16 * h.subpackage_handle_mark4)
      ∷ le_bytes 8 h.time_stamp
    ++ le_bytes 2 h.last_i_frame_interval
    ++ le_bytes 2 h.last_frame_interval
    ++ le_bytes 2 h.body_len

unfoldable pub header_bytes : Header → Bytes
unfolding header_front header_back
header_bytes h = header_front h ++ (h.sim_card_number ++ header_back h)

-- The IPC header that `InitIovecByPkt` fills in.
abbrev pub ipc_header : ℕ → Packet → Ipc.Packet
ipc_header seq p = record {
  head_length = packet_size;
  data_length = device_id_size + header_size + p.header.body_len;
  pkt_seq_id = seq;
  pkt_type = jt1078_packet_type;
}

-- The last three of the four pieces.
unfoldable pub pieces : ℕ → Packet → Bytes
unfolding le_bytes header_bytes
pieces device_id p = le_bytes 8 device_id ++ (header_bytes p.header ++ payload p)

unfoldable pub frame : ℕ → ℕ → Packet → Bytes
unfolding packet_bytes pieces
frame seq device_id p = packet_bytes (ipc_header seq p) ++ pieces device_id p

-- The end of `SendMsg`, from the value of `SendBuffer` on.
abbrev pub after_send : Bytes → Sent × Session → Count × Session
after_send xs (written n, s) =
    if ltb n (length xs) then (count n, push_back (drop n xs) s) else (count (length xs), s)
after_send xs (again, s) = (count 0, push_back xs s)
after_send xs (broken, s) = (minus_one, s)

-- After `SendPendingBuffer`.
abbrev pub send_behind : List Bytes → Bytes → Session → Count × Session
send_behind [] xs s = after_send xs (send_buffer xs s)
send_behind (_ ∷ _) xs s =
    if s.can_write then (count (length xs), push_back xs s) else (minus_one, s)

abbrev pub send_after : List Bytes → Bytes → Session → Count × Session
send_after [] xs s = after_send xs (send_buffer xs s)
send_after (_ ∷ _) xs s = let s' = send_pending s in send_behind s'.pending xs s'

-- `SendMsg` with `m_send_buffer` filled.
unfoldable pub send_bytes : Bytes → Session → Count × Session
unfolding send_buffer send_pending
send_bytes xs s = send_after s.pending xs s

pub record Subscriber : Type 0 where
  pub session : Session
  pub last_ipc_pkt_seq_id : ℕ

unfoldable pub send_msg : Packet → ℕ → Subscriber → Count × Subscriber
unfolding send_bytes frame next_seq_id
send_msg p device_id s =
    let seq = next_seq_id s.last_ipc_pkt_seq_id in
    let (value, session) = send_bytes (frame seq device_id p) s.session in
    (value, record { session = session; last_ipc_pkt_seq_id = seq })
