-- ===== src/Forward/Server.antt =====
-- jt1078/forward_server/ForwardServer.cpp: what the forward server does when a subscriber connects,
-- sends a packet or is lost, and when a packet of a car is published. What it asks of the service is
-- the list `notices`, in order.
pub mod Copies
pub mod Ledger
pub mod Release
pub mod Reached
pub mod Delivery
use multi_process_server.Base.{
  ℕ, ◌+◌, ◌/◌, ◌%◌, ◌==◌, Bool, true, false, not, if◌then◌else◌, List, [], ◌∷◌, ◌++◌, Bytes, Map,
  find, insert, erase,
}
use multi_process_server.Jt1078.Header.{Packet}
use multi_process_server.Ipc.Packet as Ipc
use multi_process_server.Tcp.{Session, Reply}
use multi_process_server.Ipc.Packet.{invalid_pkt_seq_id}
use multi_process_server.Forward.Subscriber.{Subscriber}
use multi_process_server.Forward.Publisher.{
  Objects, write, Sessions, Channel, Channels, is_empty, publish, exists, create_channel, subscribe,
  unsubscribe, unsubscribe_all,
}

-- `SendCommandTo808(device, connect, is_realtime)` and `NotifyNoSubscriber(device, is_realtime)`.
pub data Notice : Type 0 where
  command : ℕ → Bool → Bool → Notice
  no_subscriber : ℕ → Bool → Notice

pub record Server : Type 0 where
  pub subscribers : Sessions
  pub channels : Channels
  pub objects : Objects
  pub notices : List Notice
  pub is_realtime : Bool

-- `m_uPktType & IPC_PKT_TYPE_MASK` and `m_uPktType & IPC_PKT_FROM_MASK`.
abbrev pub type_of : ℕ → ℕ
type_of t = t % 256

abbrev pub from_of : ℕ → ℕ
from_of t = t / 0x10000 % 16

abbrev pub subscribe_device_id : ℕ
subscribe_device_id = 2

abbrev pub unsubscribe_device_id : ℕ
unsubscribe_device_id = 3

abbrev pub from_web_server : ℕ
from_web_server = 2

-- A subscriber whose socket the kernel will answer with `replies`.
abbrev pub new_subscriber : List Reply → Subscriber
new_subscriber replies = record {
  session = record { can_write = true; pending = []; wire = []; replies = replies };
  last_ipc_pkt_seq_id = invalid_pkt_seq_id;
}

-- `OnNewConnection`, once `Init` has succeeded.
unfoldable pub on_new_connection : ℕ → List Reply → Server → Server
on_new_connection session_id replies s = record s {
  subscribers = insert session_id tt s.subscribers;
  objects = write session_id (new_subscriber replies) s.objects;
}

abbrev pub notify_open : ℕ → Server → Server
notify_open device_id s = record s {
  notices = s.notices ++ command device_id true s.is_realtime ∷ [];
}

abbrev pub closing : ℕ → Bool → List Notice
closing device_id is_realtime =
    command device_id false is_realtime ∷ no_subscriber device_id is_realtime ∷ []

-- The loop of `ReleaseChannelIfEmptySubscriber`: the channels that stay, and the notices.
unfoldable pub release_empty : Bool → Channels → Channels × List Notice
release_empty is_realtime [] = ([], [])
release_empty is_realtime ((j, c) ∷ m) =
    let (kept, notices) = release_empty is_realtime m in
    if is_empty c.subscribers
    then (kept, closing c.channel_id is_realtime ++ notices)
    else ((j, c) ∷ kept, notices)

unfoldable pub release_channels : Server → Server
unfolding release_empty
release_channels s =
    let (kept, notices) = release_empty s.is_realtime s.channels in
    record s { channels = kept; notices = s.notices ++ notices }

unfoldable pub on_packet_error : ℕ → Server → Server
unfolding release_channels erase unsubscribe_all
on_packet_error session_id s = release_channels (record s {
  subscribers = erase session_id s.subscribers;
  channels = unsubscribe_all session_id s.channels;
})

-- The channel is created, and the car is asked to connect unless a web server does that.
abbrev pub open_channel : ℕ → ℕ → Server → Server
open_channel device_id t s =
    let s' = record s { channels = create_channel device_id s.channels } in
    if from_of t == from_web_server then s' else notify_open device_id s'

-- `ProcessPacket_Subscriber` for the device of the packet.
unfoldable pub process_subscriber : ℕ → ℕ → ℕ → Server → Server
unfolding exists create_channel subscribe
process_subscriber session_id t device_id s =
    let s' = if exists device_id s.channels then s else open_channel device_id t s in
    record s' { channels = subscribe device_id session_id s'.channels }

unfoldable pub process_unsubscriber : ℕ → ℕ → Server → Server
unfolding unsubscribe release_channels
process_unsubscriber session_id device_id s =
    release_channels (record s { channels = unsubscribe device_id session_id s.channels })

-- `OnPacketCompleted` for a packet of type `t` with the device id `device_id` in its data.
unfoldable pub on_packet_completed : ℕ → ℕ → ℕ → Server → Server
unfolding process_subscriber process_unsubscriber
on_packet_completed session_id t device_id s =
    if type_of t == subscribe_device_id
    then process_subscriber session_id t device_id s
    else if type_of t == unsubscribe_device_id
    then process_unsubscriber session_id device_id s
    else s

-- `ForwardServer::Publish`.
unfoldable pub publish_packet : ℕ → Packet → Server → Server
unfolding publish
publish_packet device_id p s =
    let (channels, objects) = publish device_id p s.channels s.objects in
    record s { channels = channels; objects = objects }

-- What can happen to the server. A packet comes with its type and the device id in its data.
pub data Happening : Type 0 where
  connects : ℕ → List Reply → Happening
  sends : ℕ → ℕ → ℕ → Happening
  is_lost : ℕ → Happening
  publishes : ℕ → Packet → Happening

unfoldable pub handle : Happening → Server → Server
unfolding on_new_connection on_packet_completed on_packet_error publish_packet
handle (connects id replies) s = on_new_connection id replies s
handle (sends id t device_id) s = on_packet_completed id t device_id s
handle (is_lost id) s = on_packet_error id s
handle (publishes device_id p) s = publish_packet device_id p s

unfoldable pub run : List Happening → Server → Server
unfolding handle
run [] s = s
run (h ∷ hs) s = run hs (handle h s)

unfoldable pub new_server : Bool → Objects → Server
new_server is_realtime objects = record {
  subscribers = [];
  channels = [];
  objects = objects;
  notices = [];
  is_realtime = is_realtime;
}
