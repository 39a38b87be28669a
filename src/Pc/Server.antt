-- ===== src/Pc/Server.antt =====
-- pc_server/PcServer.cpp and PcManager.cpp: what the PC server does when a client connects, sends a
-- packet or is lost, and when its connection to the forward server changes. The packets that it sends
-- over that connection are the list `requests`, in order. A null pointer that is used ends in `crashed`.
pub mod Watch
use multi_process_server.Base.{
  ℕ, ◌%◌, ◌==◌, Bool, true, false, not, ◌&&◌, ◌||◌, if◌then◌else◌, List, [], ◌∷◌, ◌++◌, map, Bytes,
  Map, insert, erase, is_empty_text, same_text,
}
use multi_process_server.DeviceId.{generate_device_id}
use multi_process_server.Tcp.{Session, Reply}
use multi_process_server.Forward.Server.{type_of, subscribe_device_id, unsubscribe_device_id}
use multi_process_server.Pc.Publisher.{
  PcSession, Objects, write, Channels, publish, add_subscriber, del_subscriber, size_subscriber,
  watched,
}

-- `m_client`: null, not connected, or connected.
pub data Client : Type 0 where
  absent connecting connected : Client

abbrev pub by_client : {A : Type 0} → Client → A → A → A → A
by_client absent x y z = x
by_client connecting x y z = y
by_client connected x y z = z

-- A subscription in the text of a client or, after a new connection, of a device id; its end; a heartbeat.
pub data Request : Type 0 where
  subscribes : Bytes → Request
  subscribes_again : ℕ → Request
  unsubscribes : Bytes → Request
  heartbeat : Request

pub record Server : Type 0 where
  pub client : Client
  pub sessions : Map (Unit {0})
  pub channels : Channels
  pub objects : Objects
  pub requests : List Request

pub data Done : Type 0 where
  crashed : Done
  done : Server → Done

abbrev pub and_then : Done → (Server → Done) → Done
and_then crashed f = crashed
and_then (done s) f = f s

abbrev pub request : Request → Server → Server
request r s = record s { requests = s.requests ++ r ∷ [] }

-- `m_client->SendPacket` and `m_client->IsConnected() && ...` with the request behind it.
abbrev pub send : Request → Server → Done
send r s = by_client s.client (crashed) (done (request r s)) (done (request r s))

abbrev pub send_if_connected : Request → Server → Done
send_if_connected r s = by_client s.client (crashed) (done s) (done (request r s))

abbrev pub set_device_id : ℕ → Bytes → Server → Server
set_device_id id text s = record s {
  objects = write id (record (s.objects id) { device_id = text }) s.objects;
}

abbrev pub leave : ℕ → Bytes → Server → Server
leave id text s = record s { channels = del_subscriber (generate_device_id text) id s.channels }

-- Whether nobody watches the device of the text.
abbrev pub is_unwatched : Bytes → Server → Bool
is_unwatched text s = size_subscriber (generate_device_id text) s.channels == 0

-- `TryUnsubscriberOldDeviceId`: the connection is tested first.
unfoldable pub try_unsubscribe_old : ℕ → Bytes → Server → Done
unfolding del_subscriber size_subscriber generate_device_id
try_unsubscribe_old id new s =
    let old = (s.objects id).device_id in
    if is_empty_text old || same_text old new
    then done s
    else by_client s.client (crashed) (done (leave id old s)) (
        let left = leave id old s in
        done (if is_unwatched old left then request (unsubscribes old) left else left))

-- The second half of `SubscribeDeviceId`.
unfoldable pub watch : ℕ → Bytes → Server → Done
unfolding add_subscriber size_subscriber generate_device_id
watch id text s =
    let device_id = generate_device_id text in
    let s' = record s { channels = add_subscriber device_id id s.channels } in
    if is_empty_text text
    then done s
    else if size_subscriber device_id s'.channels == 1
    then send (subscribes text) s'
    else done s'

unfoldable pub subscribe : ℕ → Bytes → Server → Done
unfolding try_unsubscribe_old watch
subscribe id text s =
    and_then (try_unsubscribe_old id text s) (λ s'. watch id text (set_device_id id text s'))

-- `UnSubscribeDeviceId`: here the connection is tested only where nobody watches the device any more.
unfoldable pub unsubscribe : ℕ → Server → Done
unfolding del_subscriber size_subscriber generate_device_id
unsubscribe id s =
    let text = (s.objects id).device_id in
    let left = leave id text s in
    if is_empty_text text
    then done (set_device_id id [] s)
    else and_then
        (if is_unwatched text left then send_if_connected (unsubscribes text) left else done left)
        (λ s'. done (set_device_id id [] s'))

-- `OnPacketError` and `ReleasePcSessionDeviceId`.
unfoldable pub on_packet_error : ℕ → Server → Done
unfolding unsubscribe erase
on_packet_error id s =
    and_then (unsubscribe id s) (λ s'. done (record s' { sessions = erase id s'.sessions }))

-- `OnPacketCompleted` for a packet of type `t` with the data `text`.
unfoldable pub on_packet_completed : ℕ → ℕ → Bytes → Server → Done
unfolding subscribe unsubscribe
on_packet_completed id t text s = by_client s.client (done s) (done s) (
    if type_of t == subscribe_device_id
    then subscribe id text s
    else if type_of t == unsubscribe_device_id
    then unsubscribe id s
    else done s)

-- `OnNewConnection`, once `Init` has succeeded.
unfoldable pub on_new_connection : ℕ → List Reply → Server → Server
unfolding insert
on_new_connection id replies s = record s {
  sessions = insert id tt s.sessions;
  objects =
      write id
        (record {
          session = record { can_write = true; pending = []; wire = []; replies = replies };
          device_id = [];
        })
        s.objects;
}

-- `OnClientConnect(client, bOk)`: the subscriptions are sent anew, for the devices that are watched.
unfoldable pub on_client_connect : Bool → Server → Server
unfolding watched
on_client_connect false s = record s { client = absent }
on_client_connect true s = record s {
  client = connected;
  requests = s.requests ++ map subscribes_again (watched s.channels);
}

unfoldable pub on_client_error : Server → Done
on_client_error s =
    by_client s.client (crashed) (done (record s { client = absent }))
      (done (record s { client = absent }))

-- `OnClientMessage` for a packet of a car: its bytes and the device id at the start of its data.
unfoldable pub on_client_packet : ℕ → Bytes → Server → Server
unfolding publish
on_client_packet device_id packet s =
    let (channels, objects) = publish device_id packet s.channels s.objects in
    record s { channels = channels; objects = objects }

unfoldable pub on_heartbeat_timer : Server → Server
on_heartbeat_timer s = by_client s.client (s) (s) (request heartbeat s)
