-- ===== src/WebSocket/Client/Relay.antt =====
-- Subscriber.cpp, CarTcpClient.cpp, CarWebServer.cpp and CarWebSocketServer.cpp: the packets of cars on
-- their way from the forward server to the web sockets.
use multi_process_server.Base.{
  ℕ, ◌^◌, ◌≤◌, ◌<◌, ◌≡◌, refl, sym, ap, ◌∙◌, arith, List, [], ◌∷◌, ◌++◌, map, concat, Bytes, length,
  ltb, le→ltb, if_else, some,
}
use multi_process_server.Buffer.{Alloc}
use multi_process_server.Buffer.Contents.{readable}
use multi_process_server.Jt1078.Header.{payload}
use multi_process_server.Ipc.Packet.{next_seq_id, le_bytes}
use multi_process_server.Ipc.Decoder.{Decoder}
use multi_process_server.Ipc.Decoder.Start.{IsReady}
use multi_process_server.Ipc.Reader.{completed, feed}
use multi_process_server.Ipc.Reader.Whole.{AllShort, Reads, feed-frames_of}
use multi_process_server.Forward.Subscriber.{pieces, ipc_header, header_bytes}
use multi_process_server.Web.Rtmp.Thread.Layout.{eight_bytes}
use multi_process_server.WebSocket.Server.{Server, update_data}
use multi_process_server.Forward.Subscriber.Relay.{Published, sent_frames}
use multi_process_server.Jt1078Client.Relay.{
  as_messages, AllForwardable, as_messages-AllFit, frames-as_messages,
}
use multi_process_server.WebSocket.Client.{
  process_ipc_packet_completed, notified, after_push, logged, handler_read_buffer,
  handler_jt1078_data,
}

-- Every device id is a `device_id_t`.
abbrev pub AllIds : List Published → Type 0
AllIds [] = Unit
AllIds (p ∷ ps) = (p.0 < 2 ^ 64) × AllIds ps

-- What a subscriber is shown of a packet: its device id, and its header as it lies in memory with the
-- payload behind it.
abbrev pub shown : Published → ℕ × Bytes
shown p = (p.0, header_bytes p.1.header ++ payload p.1)

process-pieces :
    (seq : ℕ) (p : Published)
    → p.0 < 2 ^ 64
    → process_ipc_packet_completed (ipc_header seq p.1, pieces p.0 p.1) ≡ some (shown p ∷ [])
unfolding process_ipc_packet_completed pieces le_bytes
process-pieces seq p small =
    let xs = pieces p.0 p.1 in
    if_else (ltb (length xs) 8) _ _ (le→ltb (length xs) 8 (omega arith))
    ∙ ap (λ id. some ((id, header_bytes p.1.header ++ payload p.1) ∷ [])) (eight_bytes p.0 small)

notified-as_messages :
    (last : ℕ) (ps : List Published)
    → AllIds ps
    → notified (map completed (as_messages last ps)) ≡ some (map shown ps)
unfolding notified as_messages
notified-as_messages last [] small = refl
notified-as_messages last (p ∷ ps) (small, all) =
    rw (process-pieces (next_seq_id last) p small, notified-as_messages (next_seq_id last) ps all)

-- What the web sockets are sent for these packets, with the subscribers of each device.
abbrev pub sockets : List Published → Server → List (ℕ × Bytes)
sockets [] s = []
sockets (p ∷ ps) s = update_data p.0 (header_bytes p.1.header ++ payload p.1) s ++ sockets ps s

handler_jt1078_data-shown :
    (ps : List Published) (s : Server) → handler_jt1078_data (map shown ps) s ≡ sockets ps s
unfolding handler_jt1078_data
handler_jt1078_data-shown [] s = refl
handler_jt1078_data-shown (p ∷ ps) s =
    ap (◌++◌ (update_data p.0 (header_bytes p.1.header ++ payload p.1) s))
      (handler_jt1078_data-shown ps s)

module _ (alloc : Alloc) where
  handler_read_buffer-Reads : Reads alloc (handler_read_buffer alloc)
  unfolding handler_read_buffer
  handler_read_buffer-Reads new d d' ms e p q = ap (after_push alloc) p ∙ ap logged q

  -- Packets of cars that the forward server sends, with at most 950 bytes each, and which arrive in
  -- parts of at most 510976 bytes, cut in any way, at a client that waits for a packet and has nothing
  -- to read: each is handed on once, in order, with its device id, and every connection that watches
  -- this device is sent the header and the payload.
  pub feed-sockets :
      (last : ℕ) (ps : List Published) (cs : List Bytes) (d : Decoder) (s : Server)
      → IsReady d
      → 1024 ≤ d.packet_capacity
      → readable d.buffer ≡ []
      → AllForwardable ps
      → AllIds ps
      → concat cs ≡ sent_frames last ps
      → AllShort cs
      → (ns : List (ℕ × Bytes)) × (notified (feed (handler_read_buffer alloc) cs d) ≡ some ns)
        × (ns ≡ map shown ps)
        × (handler_jt1078_data ns s ≡ sockets ps s)
  feed-sockets last ps cs d s ready room none_left ok small e short = (
    map shown ps,
    ap notified (
          feed-frames_of alloc (handler_read_buffer alloc) handler_read_buffer-Reads cs d
            (as_messages last ps) ready room none_left (as_messages-AllFit last ps ok)
            (e ∙ sym (frames-as_messages last ps)) short)
        ∙ notified-as_messages last ps small,
    refl,
    handler_jt1078_data-shown ps s,
  )
