-- ===== src/Web/Rtmp/Thread.antt =====
-- web_server/rtmp/RtmpThread.cpp and RtmpStream/RtmpMgr.cpp: the packets of the forward server, for the
-- clients of the devices. `none` is a read or a write outside the memory of a call.
use multi_process_server.Base.{
  ℕ, ◌+◌, ◌/◌, ◌%◌, ltb, ◌==◌, if◌then◌else◌, Bool, true, false, Option, none, some, ◌>>=◌, [],
  Bytes, length, take, drop, get_or, little_endian, Map, find, insert, erase, ℤ, pos, negsuc,
}
use Prim.Native.Nat.{bit_and}
use multi_process_server.DeviceId.{generate_device_id}
use multi_process_server.Jt1078.Header.{Header, Packet}
use multi_process_server.Forward.Subscriber.{device_id_size, header_size}
use multi_process_server.Forward.Server.{type_of, subscribe_device_id, unsubscribe_device_id}
use multi_process_server.Web.Audio.Codec.{Coders}
use multi_process_server.Web.Rtmp.Stream.{Media}
use multi_process_server.Web.Rtmp.Client.{Client, Result, new_client, process_jt1078_packet}
pub mod Layout
pub mod Devices

-- `IPC_PKT_TYPE_JT1078_PACKET`, `IPC_PKT_OTHER_MASK` and `IPC_PKT_OTHER_THREAD_STOP`.
abbrev pub type_jt1078_packet : ℕ
type_jt1078_packet = 4

abbrev pub other_mask : ℕ
other_mask = 0xff000000

abbrev pub other_thread_stop : ℕ
other_thread_stop = 0x01000000

-- An `ipc::packet_move_t`: the type and the data.
pub record Task : Type 0 where
  pub pkt_type : ℕ
  pub data_bytes : Bytes

-- `CreateTerminateTask` and `IsTerminateTask`.
abbrev pub create_terminate_task : Task
create_terminate_task = record { pkt_type = other_thread_stop; data_bytes = [] }

abbrev pub is_terminate_task : Task → Bool
is_terminate_task t = bit_and t.pkt_type other_mask == other_thread_stop

-- The `header_t` that a pointer to these bytes points to.
unfoldable pub header_at : Bytes → Header
unfolding little_endian
header_at xs = record {
  frame_head_mark = little_endian (take 4 xs);
  v2 = get_or xs 4 0 % 4;
  p1 = get_or xs 4 0 / 4 % 2;
  x1 = get_or xs 4 0 / 8 % 2;
  cc4 = get_or xs 4 0 / 16;
  m1 = get_or xs 5 0 % 2;
  pt7 = get_or xs 5 0 / 2;
  package_sequence = little_endian (take 2 (drop 6 xs));
  sim_card_number = take 6 (drop 8 xs);
  logic_channel_number = get_or xs 14 0;
  data_type4 = get_or xs 15 0 % 16;
  subpackage_handle_mark4 = get_or xs 15 0 / 16;
  time_stamp = little_endian (take 8 (drop 16 xs));
  last_i_frame_interval = little_endian (take 2 (drop 24 xs));
  last_frame_interval = little_endian (take 2 (drop 26 xs));
  body_len = little_endian (take 2 (drop 28 xs));
}

abbrev pub device_id_at : Bytes → ℕ
device_id_at xs = little_endian (take device_id_size xs)

-- The packet behind the device id, whose header says how many bytes of the body may be read.
unfoldable pub packet_behind : Bytes → Option Packet
unfolding header_at
packet_behind xs =
    let h = header_at (drop device_id_size xs) in
    let body = drop (device_id_size + header_size) xs in
    if ltb (length xs) (device_id_size + header_size)
    then none
    else if ltb (length body) h.body_len
    then none
    else some (record { header = h; body = body })

module _ (coders : Coders) (m : Media) where
  -- `m_mapClient`.
  abbrev pub Clients : Type 0
  Clients = Map (Client coders m)

  module _ (url_prefix : Bytes) (fresh : m.State) where
    -- `CreateRtmpClient`; a client starts with contexts of its own.
    unfoldable pub create_rtmp_client : ℕ → Clients → Clients
    unfolding find insert new_client
    create_rtmp_client id clients = elim (find id clients) [
      | some c ↦ clients
      | none ↦ insert id (new_client coders m id url_prefix fresh) clients
    ]

    -- The client after a packet; one whose packet failed is released.
    abbrev pub keep : ℕ → Clients → ℤ × Client coders m → Clients
    keep id clients (pos n, c) = insert id c clients
    keep id clients (negsuc n, c) = erase id clients

    unfoldable pub handle_packet : Bytes → Clients → Option Clients
    unfolding find insert erase packet_behind process_jt1078_packet
    handle_packet xs clients =
        let id = device_id_at xs in
        if ltb (length xs) device_id_size then none else elim (find id clients) [
          | none ↦ some clients
          | some c ↦
              (packet_behind xs >>= λ p.
              process_jt1078_packet coders m p c >>= λ r. some (keep id clients r))
        ]

    unfoldable pub handler_task : Task → Clients → Option Clients
    unfolding create_rtmp_client handle_packet erase
    handler_task t clients =
        if type_of t.pkt_type == subscribe_device_id
        then some (create_rtmp_client (generate_device_id t.data_bytes) clients)
        else if type_of t.pkt_type == unsubscribe_device_id
        then some (erase (generate_device_id t.data_bytes) clients)
        else if type_of t.pkt_type == type_jt1078_packet
        then handle_packet t.data_bytes clients
        else some clients
