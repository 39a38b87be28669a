-- ===== src/Service/Path.antt =====
-- The way of the packets of a car, from its connection to the RTMP thread of the web server:
-- CarSession.cpp, Jt1078Server.cpp, Jt1078Service.cpp, ForwardServer.cpp, Subscriber.cpp, Jt1078Client.cpp
-- and WebServer.cpp.
use multi_process_server.Base.{
  ℕ, ◌≤◌, ◌≡◌, refl, sym, ap, ◌∙◌, ◌==◌, arith, Bool, true, false, List, [], ◌∷◌, ◌++◌, map, concat,
  Bytes, length, length-take, get_or, drop,
}
use multi_process_server.Buffer.{Alloc}
use multi_process_server.Buffer.Contents.{readable}
use multi_process_server.Jt1078.Header.{Header, Packet, payload}
use multi_process_server.Jt1078.Decoder.{read_header_step1}
use multi_process_server.Jt1078.Decoder as Car
use multi_process_server.Jt1078.Decoder.Frame.{Frame, IsFrame, wire, header_of, header_step1}
use multi_process_server.Jt1078.Decoder.Timing.{Timing, video, audio, route, timed}
use multi_process_server.Jt1078.CarSession as CarSession
use multi_process_server.Jt1078.CarSession.Chunks.{AllSmall, IsIdle}
use multi_process_server.Jt1078.CarSession.Frames.{AllFrames}
use multi_process_server.Jt1078.Server.{new_car, process}
use multi_process_server.Jt1078.Server.Relay.{AllOf, view, sent, process-feed}
use multi_process_server.Ipc.Packet.{le_bytes}
use multi_process_server.Ipc.Decoder.{Decoder}
use multi_process_server.Ipc.Decoder.Start.{IsReady}
use multi_process_server.Ipc.Reader.{feed}
use multi_process_server.Ipc.Reader.Whole.{AllShort}
use multi_process_server.Tcp.Stream.{stream}
use multi_process_server.Forward.Server as Forward
use multi_process_server.Forward.Server.{publish_packet}
use multi_process_server.Forward.Server.Delivery.{
  Subscribed, subscriber, publish_all, under, publish_all-Delivered,
}
use multi_process_server.Forward.Subscriber.{header_bytes, pieces, jt1078_packet_type}
use multi_process_server.Forward.Subscriber.Relay.{Published, sent_frames, Forwardable}
use multi_process_server.Web.Rtmp.Thread.{Task}
use multi_process_server.Web.Http.Server as Web
use multi_process_server.Jt1078Client.{on_message}
use multi_process_server.Jt1078Client.Relay.{AllForwardable, take_events, task_of, feed-sent_frames}
use multi_process_server.Service.{Service, notify_1078_packet}

-- The forward server of one kind of video.
abbrev pub forward_of : Bool → Service → Forward.Server
forward_of true s = s.forward_realtime
forward_of false s = s.forward_history

-- The service, notified of these packets one after the other.
unfoldable pub notify_all : List Published → Bool → Service → Service
unfolding notify_1078_packet
notify_all [] realtime s = s
notify_all (n ∷ ns) realtime s = notify_all ns realtime (notify_1078_packet n.0 n.1 realtime s)

forward_of-notify_1078_packet :
    (id : ℕ) (p : Packet) (realtime : Bool) (s : Service)
    → forward_of realtime (notify_1078_packet id p realtime s)
      ≡ publish_packet id p (forward_of realtime s)
unfolding notify_1078_packet
forward_of-notify_1078_packet id p true s = refl
forward_of-notify_1078_packet id p false s = refl

-- Notifications are of these frames.
abbrev pub Of : ℕ → List Published → List Frame → Type 0
Of id ns fs = map view ns ≡ map (sent id) fs

abbrev no_view : ℕ × (Header × Bytes) → List (ℕ × (Header × Bytes)) → ℕ × (Header × Bytes)
no_view v xs = get_or xs 0 v

pub first-Of :
    (id : ℕ) (n : Published) (ns : List Published) (f : Frame) (fs : List Frame)
    → Of id (n ∷ ns) (f ∷ fs)
    → view n ≡ sent id f
first-Of id n ns f fs same = ap (no_view (view n)) same

under-same :
    (id : ℕ) (ns : List Published) (fs : List Frame)
    → Of id ns fs
    → under id (map (λ n. n.1) ns) ≡ ns
under-same id [] fs same = refl
under-same id (n ∷ ns) [] same = absurd cc
under-same id (n ∷ ns) (f ∷ fs) same = λ i.
    (sym (ap (λ v. v.0) (first-Of id n ns f fs same)) i, n.1)
    ∷ under-same id ns fs (ap (drop 1) same) i

forward_of-notify_all :
    (id : ℕ) (ns : List Published) (fs : List Frame) (realtime : Bool) (s : Service)
    → Of id ns fs
    → forward_of realtime (notify_all ns realtime s)
      ≡ publish_all id (map (λ n. n.1) ns) (forward_of realtime s)
unfolding notify_all publish_all
forward_of-notify_all id [] fs realtime s same = refl
forward_of-notify_all id (n ∷ ns) [] realtime s same = absurd cc
forward_of-notify_all id (n ∷ ns) (f ∷ fs) realtime s same =
    forward_of-notify_all id ns fs realtime (notify_1078_packet n.0 n.1 realtime s)
      (ap (drop 1) same)
    ∙ ap (publish_all id (map (λ n. n.1) ns)) (
        forward_of-notify_1078_packet n.0 n.1 realtime s
        ∙ ap (λ i. publish_packet i n.1 (forward_of realtime s))
            (ap (λ v. v.0) (first-Of id n ns f fs same)))

timed_sim :
    (t : Timing) (h : Header) → length (timed t h).sim_card_number ≡ length h.sim_card_number
timed_sim (video stamp last_i last) h = refl
timed_sim (audio stamp) h = refl
timed_sim route h = refl

frame-Forwardable :
    (id : ℕ) (n : Published) (f : Frame) → IsFrame f → view n ≡ sent id f → Forwardable n.1
frame-Forwardable id n f fits same =
    let header = ap (λ v. v.1.0) same in
    let announced : n.1.header.body_len ≡ length f.body =
      ap (λ (h : Header). h.body_len) header ∙ sym fits.announced in
    let whole : length (payload n.1) ≡ length f.body = ap (λ v. length v.1.1) same in
    record {
      sim =
          ap (λ (h : Header). length h.sim_card_number) header
          ∙ timed_sim f.timing (header_step1 f)
          ∙ fits.six;
      stored = omega (arith, announced, whole, length-take n.1.header.body_len n.1.body);
      small = omega (arith, announced, fits.small);
    }

pub notified-AllForwardable :
    (id : ℕ) (ns : List Published) (fs : List Frame)
    → AllFrames fs
    → Of id ns fs
    → AllForwardable ns
notified-AllForwardable id [] fs all same = tt
notified-AllForwardable id (n ∷ ns) [] all same = absurd cc
notified-AllForwardable id (n ∷ ns) (f ∷ fs) (fits, all) same = (
  frame-Forwardable id n f fits (first-Of id n ns f fs same),
  notified-AllForwardable id ns fs all (ap (drop 1) same),
)

-- The task of the RTMP thread for a packet of this device.
unfoldable pub task_for : ℕ → Frame → Task
unfolding le_bytes header_bytes
task_for id f = record {
  pkt_type = jt1078_packet_type;
  data_bytes = le_bytes 8 id ++ (header_bytes (header_of f) ++ f.body);
}

tasks_same :
    (id : ℕ) (ns : List Published) (fs : List Frame)
    → Of id ns fs
    → map task_of ns ≡ map (task_for id) fs
unfolding task_for pieces
tasks_same id [] [] same = refl
tasks_same id [] (f ∷ fs) same = absurd cc
tasks_same id (n ∷ ns) [] same = absurd cc
tasks_same id (n ∷ ns) (f ∷ fs) same =
    let first = first-Of id n ns f fs same in
    λ i.
      record {
        pkt_type = jt1078_packet_type;
        data_bytes = le_bytes 8 (first i).0 ++ (header_bytes (first i).1.0 ++ (first i).1.1);
      }
      ∷ tasks_same id ns fs (ap (drop 1) same) i

-- The bytes that were sent and are pending then are the frames of what the service was notified of.
pub published_bytes :
    (alloc : Alloc) (id : ℕ) (fs : List Frame) (cs : List Bytes) (car : Car.Decoder)
    → (id == 0) ≡ false
    → AllOf id fs
    → IsIdle car
    → car.read_status ≡ read_header_step1
    → readable car.buffer ≡ []
    → AllFrames fs
    → AllSmall cs
    → concat cs ≡ concat (map wire fs)
    → (realtime : Bool) (s : Service) (u : ℕ) → Subscribed id u (forward_of realtime s)
    → (subscriber u (forward_of realtime s)).session.can_write ≡ true
    → stream (subscriber u (forward_of realtime s)).session ≡ []
    → let ns = (process (CarSession.feed alloc cs car) new_car).notified in
      let after = subscriber u (forward_of realtime (notify_all ns realtime s)) in
      after.session.can_write ≡ true
      → stream after.session
        ≡ sent_frames (subscriber u (forward_of realtime s)).last_ipc_pkt_seq_id ns
published_bytes alloc id fs cs car valid one idle status nothing all small same realtime s u member
      open_before fresh open_after =
    let ns = (process (CarSession.feed alloc cs car) new_car).notified in
    let of : Of id ns fs =
      process-feed alloc id fs cs car valid one idle status nothing all small same in
    let before = forward_of realtime s in
    let published = forward_of-notify_all id ns fs realtime s of in
    let last = (subscriber u before).last_ipc_pkt_seq_id in
    ap (λ v. stream (subscriber u v).session) published
    ∙ publish_all-Delivered id u (map (λ n. n.1) ns) before member open_before
        (sym (ap (λ v. (subscriber u v).session.can_write) published) ∙ open_after)
    ∙ (λ i. fresh i ++ sent_frames last (under-same id ns fs of i))

-- A car sends packets of one device, whose id is not 0, over a connection that cuts their bytes into
-- reads of at most 5 KB in any way, to a decoder that waits for a packet and has nothing to read, and the
-- service is notified of them. Of a session that is once in the channel of this device, was sent nothing
-- before, and can be written to before and afterwards, the bytes that were sent and are pending arrive at
-- the web server in parts of at most 510976 bytes, cut in any way, at a client that waits for a packet
-- and has nothing to read: its RTMP thread is given one task for each packet of the car, in order, with
-- the device id, the header and the payload.
pub relays :
    (alloc : Alloc) (id : ℕ) (fs : List Frame) (cs : List Bytes) (car : Car.Decoder)
    → (id == 0) ≡ false
    → AllOf id fs
    → IsIdle car
    → car.read_status ≡ read_header_step1
    → readable car.buffer ≡ []
    → AllFrames fs
    → AllSmall cs
    → concat cs ≡ concat (map wire fs)
    → (realtime : Bool) (s : Service) (u : ℕ) → Subscribed id u (forward_of realtime s)
    → (subscriber u (forward_of realtime s)).session.can_write ≡ true
    → stream (subscriber u (forward_of realtime s)).session ≡ []
    → let s' = notify_all (process (CarSession.feed alloc cs car) new_car).notified realtime s in
      (subscriber u (forward_of realtime s')).session.can_write ≡ true
      → (parts : List Bytes) (reader : Decoder) (web : Web.Server)
      → concat parts ≡ stream (subscriber u (forward_of realtime s')).session
      → AllShort parts
      → IsReady reader
      → 1024 ≤ reader.packet_capacity
      → readable reader.buffer ≡ []
      → (take_events (feed (on_message alloc) parts reader) web).tasks
        ≡ web.tasks ++ map (task_for id) fs
relays alloc id fs cs car valid one idle status nothing all small same realtime s u member
      open_before fresh open_after parts reader web arrives short ready room none_left =
    let ns = (process (CarSession.feed alloc cs car) new_car).notified in
    let of : Of id ns fs =
      process-feed alloc id fs cs car valid one idle status nothing all small same in
    feed-sent_frames alloc (subscriber u (forward_of realtime s)).last_ipc_pkt_seq_id ns parts
      reader web ready room none_left (notified-AllForwardable id ns fs all of)
      (arrives
        ∙ published_bytes alloc id fs cs car valid one idle status nothing all small same realtime s
            u member open_before fresh open_after)
      short
    ∙ ap (λ ts. web.tasks ++ ts) (tasks_same id ns fs of)
