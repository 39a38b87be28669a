-- ===== src/WebSocket/Server.antt =====
-- new_web_server/CarWebSocketServer.cpp: the connections of browsers, and the requests to the forward
-- server. `none` is a write outside the array of the text of a device id.
use multi_process_server.Base.{
  ℕ, ◌==◌, if◌then◌else◌, Bool, true, false, List, [], ◌∷◌, ◌++◌, Bytes, length, Map, find, insert,
  erase, Option, none, some, ◌>>=◌,
}
use multi_process_server.DeviceId.{generate_device_id, generate_device_id_str_by_device_id}
use multi_process_server.WebSocket.Topics.{
  Topics, exists_topic, create_topic, subscribe_topic, remove_subscriber, empty_topics,
  remove_topics, publish_to,
}
pub mod Counts
pub mod Requests
pub mod Ledger
pub mod Crash

-- A call of `m_func_notify_subscribe`: the text of the device id, and whether it subscribes.
pub record Notice : Type 0 where
  pub text : Bytes
  pub subscribes : Bool

-- The members, the requests so far, and the connections that the server has closed.
pub record Server : Type 0 where
  pub topics : Topics
  pub subscribers : Map Bytes
  pub notices : List Notice
  pub closed : List ℕ

abbrev pub new_server : Server
new_server = record { topics = []; subscribers = []; notices = []; closed = [] }

-- "/live/".
abbrev pub live : Bytes
live = 47 ∷ 108 ∷ 105 ∷ 118 ∷ 101 ∷ 47 ∷ []

-- What stands behind the prefix.
abbrev pub behind : Bytes → Bytes → Option Bytes
behind [] uri = some uri
behind (c ∷ cs) [] = none
behind (c ∷ cs) (u ∷ us) = let rest = behind cs us in if c == u then rest else none

-- The topic is created, and the forward server is asked for the device.
abbrev pub open_topic : Bytes → Server → Server
open_topic text s = record s {
  topics = create_topic (generate_device_id text) s.topics;
  notices = s.notices ++ record { text = text; subscribes = true } ∷ [];
}

-- `AddHdlAndSubscribeCarDeviceId`.
unfoldable pub add_hdl : ℕ → Bytes → Server → Server
unfolding exists_topic create_topic subscribe_topic generate_device_id insert
add_hdl h text s =
    let id = generate_device_id text in
    let s1 : Server = record s { subscribers = insert h text s.subscribers } in
    let s2 = if exists_topic id s1.topics then s1 else open_topic text s1 in
    record s2 { topics = subscribe_topic id h s2.topics }

abbrev pub close_connection : ℕ → Server → Server
close_connection h s = record s { closed = h ∷ s.closed }

abbrev pub open_live : ℕ → Option Bytes → Server → Server
open_live h none s = close_connection h s
open_live h (some text) s = if length text == 14 then add_hdl h text s else close_connection h s

-- `onOpen` with the URI of the request.
unfoldable pub on_open : ℕ → Bytes → Server → Server
unfolding add_hdl
on_open h uri s = open_live h (behind live uri) s

-- The requests for the devices whose topics have been removed.
unfoldable pub unsubscribe_each : List ℕ → Option (List Notice)
unfolding generate_device_id_str_by_device_id
unsubscribe_each [] = some []
unsubscribe_each (id ∷ ids) = generate_device_id_str_by_device_id id >>= λ text.
    unsubscribe_each ids >>= λ ns. some (record { text = text; subscribes = false } ∷ ns)

-- `RemoveHdlAndUnSubscribeCarDeviceId`, which is `onClose`.
unfoldable pub on_close : ℕ → Server → Option Server
unfolding remove_subscriber empty_topics remove_topics unsubscribe_each erase
on_close h s =
    let left = remove_subscriber h s.topics in
    let ids = empty_topics left in
    unsubscribe_each ids >>= λ ns. some (record s {
      topics = remove_topics ids left;
      subscribers = erase h s.subscribers;
      notices = s.notices ++ ns;
    })

abbrev pub to_topic : Bytes → Option (List ℕ) → List (ℕ × Bytes)
to_topic bytes none = []
to_topic bytes (some hs) = publish_to bytes hs

-- `UpdateData`: what is sent to the web sockets.
unfoldable pub update_data : ℕ → Bytes → Server → List (ℕ × Bytes)
unfolding find
update_data device_id bytes s = to_topic bytes (find device_id s.topics)

-- What happens to the server.
pub data Happening : Type 0 where
  opens : ℕ → Bytes → Happening
  closes : ℕ → Happening

abbrev pub handle : Happening → Server → Option Server
handle (opens h uri) s = some (on_open h uri s)
handle (closes h) s = on_close h s

abbrev pub run : List Happening → Server → Option Server
run [] s = some s
run (e ∷ es) s = handle e s >>= run es
