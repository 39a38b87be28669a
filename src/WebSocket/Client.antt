-- ===== src/WebSocket/Client.antt =====
-- new_web_server/CarTcpClient.cpp, TcpConnection.h, TcpClient.h and AsioTimer.h: the connection of the
-- WebSocket server to the forward server, and CarWebServer.cpp, which joins the two. What is handed to
-- asio for writing is the list `written`, in order; connecting, reading and timing are asio's, so that
-- of them only the calls are kept.
pub mod Relay
use multi_process_server.Base.{
  ℕ, ◌+◌, ◌%◌, ◌^◌, ◌==◌, ltb, if◌then◌else◌, Bool, true, false, List, [], ◌∷◌, ◌++◌, map, Bytes,
  length, drop, Option, none, some, ◌>>=◌,
}
use multi_process_server.Buffer.{Alloc}
use multi_process_server.Ipc.Packet.{Packet, cleared, packet_bytes, next_seq_id}
use multi_process_server.Ipc.Decoder.{
  Decoder, ErrorType, no_error, need_more_data, buffer_full, invalid_header, push_buffer,
}
use multi_process_server.Ipc.Reader.{
  Message, Event, completed, errored, Drained, faulted, unfinished, drained, Handled, broken,
  endless, kept, read_all,
}
use multi_process_server.Forward.Server.{type_of, subscribe_device_id, unsubscribe_device_id}
use multi_process_server.Forward.Subscriber.{device_id_size}
use multi_process_server.Web.Rtmp.Thread.{type_jt1078_packet, device_id_at}
use multi_process_server.WebSocket.Server.{Notice, Server, update_data}

-- `is_open` is whether the socket is open, `reading` whether an asynchronous read is under way,
-- `connects` how often a connection has been tried, and `is_waiting` the member of the timer.
pub record Client : Type 0 where
  pub last_send : ℕ
  pub written : List Bytes
  pub is_open : Bool
  pub reading : Bool
  pub connects : ℕ
  pub is_waiting : Bool

-- `SendPacket`: a header whose other fields its constructor clears, and the text, in two writes.
unfoldable pub send_packet : ℕ → Bytes → Client → Client
send_packet mask text c =
    let seq = next_seq_id c.last_send in
    let header : Packet = record cleared {
      data_length = length text % 2 ^ 32;
      pkt_seq_id = seq;
      pkt_type = mask;
    } in
    record c { last_send = seq; written = c.written ++ packet_bytes header ∷ text ∷ [] }

unfoldable pub send_subscribe_request : Bytes → Client → Client
unfolding send_packet
send_subscribe_request text c = send_packet subscribe_device_id text c

unfoldable pub send_unsubscribe_request : Bytes → Client → Client
unfolding send_packet
send_unsubscribe_request text c = send_packet unsubscribe_device_id text c

-- `ProcessIpcPacketCompleted`: the device id and the bytes behind it that `m_func_notify` is given;
-- `none` where the data is shorter than a device id, so that the length behind it wraps around.
unfoldable pub process_ipc_packet_completed : Message → Option (List (ℕ × Bytes))
process_ipc_packet_completed m =
    if type_of m.0.pkt_type == type_jt1078_packet
    then (if ltb (length m.1) device_id_size
        then none
        else some ((device_id_at m.1, drop device_id_size m.1) ∷ []))
    else some []

-- The calls of `m_func_notify` for these events.
unfoldable pub notified : List Event → Option (List (ℕ × Bytes))
unfolding process_ipc_packet_completed
notified [] = some []
notified (completed m ∷ es) =
    process_ipc_packet_completed m >>= λ first. notified es >>= λ rest. some (first ++ rest)
notified (errored e ∷ es) = notified es

-- The end of `HandlerReadBuffer`: an error is only logged.
abbrev pub logged : Drained → Handled
logged (faulted ms f) = broken (map completed ms) f
logged (unfinished ms) = endless (map completed ms)
logged (drained ms e d) = kept (map completed ms) d

module _ (alloc : Alloc) where
  abbrev pub after_push : ErrorType × Decoder → Handled
  after_push (buffer_full, d) = kept [] d
  after_push (no_error, d) = logged (read_all alloc d)
  after_push (need_more_data, d) = logged (read_all alloc d)
  after_push (invalid_header, d) = logged (read_all alloc d)

  -- `HandlerReadBuffer`.
  unfoldable pub handler_read_buffer : Bytes → Decoder → Handled
  unfolding push_buffer read_all
  handler_read_buffer new d = after_push (push_buffer alloc new d)

-- `AsioTimer::StartTimer`, and what its handler does when the time has come.
abbrev pub start_timer : Client → Client
start_timer c = if c.is_waiting then c else record c { is_waiting = true }

-- `TcpConnection::Close`, `TcpClient::Connect` and `ReConnect`.
abbrev pub close : Client → Client
close c = record c { is_open = false; reading = false }

abbrev pub connect : Client → Client
connect c = record c { is_open = true; connects = c.connects + 1 }

abbrev pub reconnect : Client → Client
reconnect c = connect (close c)

-- `OnTimerReconnectJt1078Server`, called by the handler of the timer.
unfoldable pub on_timer : Client → Client
on_timer c = record (reconnect c) { is_waiting = false }

-- `HandlerReadError` and `HandlerWriteError`.
unfoldable pub handler_error : Client → Client
handler_error c = start_timer (close c)

-- `HandlerConnect`, with whether there was no error.
unfoldable pub handler_connect : Bool → Client → Client
handler_connect true c = record c { reading = true }
handler_connect false c = start_timer c

-- CarWebServer.cpp: `HandlerWsConnSubscribe` for each request of the WebSocket server, in order, and
-- `HandlerJt1078Data` for each notification, in order: what is sent to the web sockets.
unfoldable pub handler_ws_conn_subscribe : Notice → Client → Client
unfolding send_subscribe_request send_unsubscribe_request
handler_ws_conn_subscribe n c =
    if n.subscribes then send_subscribe_request n.text c else send_unsubscribe_request n.text c

unfoldable pub handler_jt1078_data : List (ℕ × Bytes) → Server → List (ℕ × Bytes)
unfolding update_data
handler_jt1078_data [] s = []
handler_jt1078_data ((id, xs) ∷ rest) s = update_data id xs s ++ handler_jt1078_data rest s
