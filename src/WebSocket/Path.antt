-- ===== src/WebSocket/Path.antt =====
-- The way of the packets of a car, from its connection to the web sockets: the parts of Service/Path.antt
-- up to Subscriber.cpp, CarTcpClient.cpp, CarWebServer.cpp and CarWebSocketServer.cpp.
use multi_process_server.Base.{
  ℕ, ◌≤◌, ◌<◌, ◌^◌, ◌≡◌, Option, none, find, subst, some, refl, sym, ap, ◌∙◌, ◌==◌, Bool, true,
  false, List, [], ◌∷◌, ◌++◌, map, concat, Bytes, drop,
}
use multi_process_server.Buffer.{Alloc}
use multi_process_server.Buffer.Contents.{readable}
use multi_process_server.Jt1078.Decoder.{read_header_step1}
use multi_process_server.Jt1078.Decoder as Car
use multi_process_server.Jt1078.Decoder.Frame.{Frame, wire, header_of}
use multi_process_server.Jt1078.CarSession as CarSession
use multi_process_server.Jt1078.CarSession.Chunks.{AllSmall, IsIdle}
use multi_process_server.Jt1078.CarSession.Frames.{AllFrames}
use multi_process_server.Jt1078.Server.{new_car, process}
use multi_process_server.Jt1078.Server.Relay.{AllOf, process-feed}
use multi_process_server.Ipc.Decoder.{Decoder}
use multi_process_server.Ipc.Decoder.Start.{IsReady}
use multi_process_server.Ipc.Reader.{feed}
use multi_process_server.Ipc.Reader.Whole.{AllShort}
use multi_process_server.Tcp.Stream.{stream}
use multi_process_server.Forward.Server.Delivery.{Subscribed, subscriber}
use multi_process_server.Forward.Subscriber.{header_bytes}
use multi_process_server.Forward.Subscriber.Relay.{Published}
use multi_process_server.Service.{Service}
use multi_process_server.Service.Path.{
  forward_of, notify_all, Of, first-Of, notified-AllForwardable, published_bytes,
}
use multi_process_server.WebSocket.Server as Sockets
use multi_process_server.WebSocket.Server.{to_topic, update_data}
use multi_process_server.WebSocket.Client.{notified, handler_read_buffer, handler_jt1078_data}
use multi_process_server.WebSocket.Client.Relay.{AllIds, shown, feed-sockets}

-- What the web sockets are shown of a packet of this device: its header as it lies in memory with the
-- payload behind it.
unfoldable pub shown_for : ℕ → Frame → ℕ × Bytes
unfolding header_bytes
shown_for id f = (id, header_bytes (header_of f) ++ f.body)

-- Each packet to each of the connections.
abbrev pub to_each : List ℕ → List Frame → List (ℕ × Bytes)
to_each hs [] = []
to_each hs (f ∷ fs) = map (λ h. (h, header_bytes (header_of f) ++ f.body)) hs ++ to_each hs fs

-- The connections that watch a device, by the topics.
abbrev pub listed : Option (List ℕ) → List ℕ
listed none = []
listed (some hs) = hs

to_topic-listed :
    (bytes : Bytes) (o : Option (List ℕ)) → to_topic bytes o ≡ map (λ h. (h, bytes)) (listed o)
to_topic-listed bytes none = refl
to_topic-listed bytes (some hs) = refl

handler_jt1078_data-to_each :
    (id : ℕ) (fs : List Frame) (s : Sockets.Server)
    → handler_jt1078_data (map (shown_for id) fs) s ≡ to_each (listed (find id s.topics)) fs
unfolding handler_jt1078_data update_data shown_for
handler_jt1078_data-to_each id [] s = refl
handler_jt1078_data-to_each id (f ∷ fs) s = λ i.
    to_topic-listed (header_bytes (header_of f) ++ f.body) (find id s.topics) i
    ++ handler_jt1078_data-to_each id fs s i

shown_same :
    (id : ℕ) (ns : List Published) (fs : List Frame)
    → id < 2 ^ 64
    → Of id ns fs
    → AllIds ns × (map shown ns ≡ map (shown_for id) fs)
unfolding shown_for
shown_same id [] [] small same = (tt, refl)
shown_same id [] (f ∷ fs) small same = absurd cc
shown_same id (n ∷ ns) [] small same = absurd cc
shown_same id (n ∷ ns) (f ∷ fs) small same =
    let first = first-Of id n ns f fs same in
    let (ids, rest) = shown_same id ns fs small (ap (drop 1) same) in
    (
      (subst (λ k. k < 2 ^ 64) (sym (ap (λ v. v.0) first)) small, ids),
      λ i. ((first i).0, header_bytes (first i).1.0 ++ (first i).1.1) ∷ rest i,
    )

-- A car sends packets of one device, whose id is not 0 and below 2 ^ 64, over a connection that cuts their
-- bytes into reads of at most 5 KB in any way, to a decoder that waits for a packet and has nothing to
-- read, and the service is notified of them. Of a session that is once in the channel of this device, was
-- sent nothing before, and can be written to before and afterwards, the bytes that were sent and are
-- pending arrive at the WebSocket server in parts of at most 510976 bytes, cut in any way, at a client
-- that waits for a packet and has nothing to read: the connections in the topic of the device are sent each
-- packet of the car once, in order, the header with the payload, and no other connection anything.
pub relays_sockets :
    (alloc : Alloc) (id : ℕ) (fs : List Frame) (cs : List Bytes) (car : Car.Decoder)
    → (id == 0) ≡ false
    → id < 2 ^ 64
    → AllOf id fs
    → IsIdle car
    → car.read_status ≡ read_header_step1
    → readable car.buffer ≡ []
    → AllFrames fs
    → AllSmall cs
    → concat cs ≡ concat (map wire fs)
    → (realtime : Bool) (s : Service) (u : ℕ) → Subscribed id u (forward_of realtime s)
    → (subscriber u (forward_of realtime s)).session.can_write ≡ true
    → stream (subscriber u (forward_of realtime s)).session ≡ []
    → let s' = notify_all (process (CarSession.feed alloc cs car) new_car).notified realtime s in
      (subscriber u (forward_of realtime s')).session.can_write ≡ true
      → (parts : List Bytes) (reader : Decoder) (sockets : Sockets.Server)
      → concat parts ≡ stream (subscriber u (forward_of realtime s')).session
      → AllShort parts
      → IsReady reader
      → 1024 ≤ reader.packet_capacity
      → readable reader.buffer ≡ []
      → let shown_ones = map (shown_for id) fs in
        (notified (feed (handler_read_buffer alloc) parts reader) ≡ some shown_ones)
        × (handler_jt1078_data shown_ones sockets ≡ to_each (listed (find id sockets.topics)) fs)
relays_sockets alloc id fs cs car valid narrow one idle status nothing all small same realtime s u
      member open_before fresh open_after parts reader sockets arrives short ready room none_left =
    let ns = (process (CarSession.feed alloc cs car) new_car).notified in
    let of : Of id ns fs =
      process-feed alloc id fs cs car valid one idle status nothing all small same in
    let (ids, shown_ones) = shown_same id ns fs narrow of in
    let (told, handed, same_ones, sent_ones) =
      feed-sockets alloc (subscriber u (forward_of realtime s)).last_ipc_pkt_seq_id ns parts reader
        sockets ready room none_left (notified-AllForwardable id ns fs all of) ids
        (arrives
          ∙ published_bytes alloc id fs cs car valid one idle status nothing all small same realtime
              s u member open_before fresh open_after)
        short in
    (handed ∙ ap some (same_ones ∙ shown_ones), handler_jt1078_data-to_each id fs sockets)
