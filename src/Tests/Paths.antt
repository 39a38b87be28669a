-- ===== src/Tests/Paths.antt =====
-- A packet of audio on its way from the car to the web server, by a session that can be sent 60 bytes.
use multi_process_server.Base.{
  ◌≡◌, some, refl, arith, true, List, [], ◌∷◌, ◌++◌, Bytes, map, take, drop, find, big_endian,
}
use multi_process_server.Buffer.{
  empty, reserve, append, readable_bytes, get_left_capacity, read_integer, read_buffer, get_buffer,
  skip,
}
use multi_process_server.Jt1078.Header.{clear}
use multi_process_server.Jt1078.Scan.{need, integer, update, require, bytes}
use multi_process_server.Jt1078.Decoder.{new_decoder, decode}
use multi_process_server.Jt1078.Decoder.Frame.{header_of}
use multi_process_server.Jt1078.CarSession as CarSession
use multi_process_server.Jt1078.CarSession.{drain}
use multi_process_server.DeviceId.{
  generate_device_id, generate_device_id_str, is_space, digits, hex_digit,
}
use multi_process_server.Jt1078.Server.{process}
use multi_process_server.Tcp.{accepts, send_buffer, send_to, send_pending, send_list}
use multi_process_server.Ipc.Packet.{packet_bytes, le_bytes, next_seq_id, invalid_pkt_seq_id}
use multi_process_server.Ipc.Reader.{feed}
use multi_process_server.Forward.Subscriber.{
  frame, pieces, header_bytes, header_front, header_back, send_msg, send_bytes,
}
use multi_process_server.Forward.Subscriber.Relay.{sent_frames}
use multi_process_server.Forward.Publisher.{send_each, publish, alter}
use multi_process_server.Forward.Server as Forward
use multi_process_server.Forward.Server.{new_subscriber, publish_packet}
use multi_process_server.Jt1078Client.{on_message}
use multi_process_server.Jt1078Client.Relay.{take_events}
use multi_process_server.Service.{Service, notify_1078_packet}
use multi_process_server.Service.Path.{notify_all, task_for, relays}
use multi_process_server.WebSocket.Client.{notified, handler_read_buffer, handler_jt1078_data}
use multi_process_server.WebSocket.Path.{shown_for, to_each, relays_sockets}
use multi_process_server.WebSocket.Server as Sockets
use multi_process_server.Tests.Cars.{exact, fresh, fresh-IsIdle, in_parts}
use multi_process_server.Tests.Packets.{sent_frame, sent_frame-IsFrame, device}
use multi_process_server.Tests.Relays.{idle, idle-IsReady, web}

abbrev forward : Forward.Server
forward = record {
  subscribers = (7, tt) ∷ [];
  channels = (device, record { channel_id = device; subscribers = (7, tt) ∷ [] }) ∷ [];
  objects = λ u. new_subscriber (accepts 60 ∷ []);
  notices = [];
  is_realtime = true;
}

abbrev service : Service
service = record {
  realtime = record { cars = []; service = [] };
  history = record { cars = []; service = [] };
  forward_realtime = forward;
  forward_history = forward;
  commands = [];
}

abbrev arriving : Bytes
arriving =
    sent_frames invalid_pkt_seq_id
      ((device, record { header = header_of sent_frame; body = sent_frame.body }) ∷ [])

abbrev halves : List Bytes
halves = take 7 arriving ∷ drop 7 arriving ∷ []

relays_example :
    (take_events (feed (on_message exact) halves idle) web).tasks
    ≡ [] ++ map (task_for device) (sent_frame ∷ [])
unfolding new_decoder empty reserve generate_device_id generate_device_id_str is_space digits
    hex_digit big_endian CarSession.feed drain decode append readable_bytes get_left_capacity clear
    process notify_all notify_1078_packet publish_packet publish send_each alter find send_msg
    send_bytes send_buffer send_to send_pending send_list sent_frames frame packet_bytes le_bytes
    next_seq_id pieces header_bytes header_front header_back need integer update require bytes
    read_integer read_buffer get_buffer skip
relays_example =
    relays exact device (sent_frame ∷ []) in_parts fresh refl (refl, tt) fresh-IsIdle refl refl
      (sent_frame-IsFrame, tt) (omega arith, (omega arith, (omega arith, tt))) refl true service 7
      (record { channel_id = device; subscribers = (7, tt) ∷ [] }, refl, tt) refl refl refl halves
      idle web refl (omega arith, (omega arith, tt)) idle-IsReady (omega arith) refl

abbrev watchers : Sockets.Server
watchers = record {
  topics = (device, 3 ∷ 4 ∷ []) ∷ [];
  subscribers = [];
  notices = [];
  closed = [];
}

relays_sockets_example :
    (notified (feed (handler_read_buffer exact) halves idle)
      ≡ some (map (shown_for device) (sent_frame ∷ [])))
    × (handler_jt1078_data (map (shown_for device) (sent_frame ∷ [])) watchers
        ≡ to_each (3 ∷ 4 ∷ []) (sent_frame ∷ []))
unfolding new_decoder empty reserve generate_device_id generate_device_id_str is_space digits
    hex_digit big_endian CarSession.feed drain decode append readable_bytes get_left_capacity clear
    process notify_all notify_1078_packet publish_packet publish send_each alter find send_msg
    send_bytes send_buffer send_to send_pending send_list sent_frames frame packet_bytes le_bytes
    next_seq_id pieces header_bytes header_front header_back need integer update require bytes
    read_integer read_buffer get_buffer skip
relays_sockets_example =
    relays_sockets exact device (sent_frame ∷ []) in_parts fresh refl (omega arith) (refl, tt)
      fresh-IsIdle refl refl (sent_frame-IsFrame, tt)
      (omega arith, (omega arith, (omega arith, tt))) refl true service 7
      (record { channel_id = device; subscribers = (7, tt) ∷ [] }, refl, tt) refl refl refl halves
      idle watchers refl (omega arith, (omega arith, tt)) idle-IsReady (omega arith) refl
