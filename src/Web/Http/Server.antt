-- ===== src/Web/Http/Server.antt =====
-- web_server/http/WebServer.cpp: the devices that are watched, the packets to the forward server, in
-- order in `requests`, the tasks for the RTMP thread, in order in `tasks`, and the connection to the
-- forward server with its timer. The packets are tasks too, a type with its data.
pub mod Wanted
use multi_process_server.Base.{
  ℕ, ◌==◌, if◌then◌else◌, Bool, true, false, List, [], ◌∷◌, ◌++◌, Bytes,
}
use multi_process_server.Pc.Server.{Client, absent, connecting, connected, by_client}
use multi_process_server.Forward.Server.{type_of}
use multi_process_server.Web.Rtmp.Thread.{Task, type_jt1078_packet}
use multi_process_server.Web.Http.Sessions.{
  SessionStat, DeviceIds, exists, add, remove, get_device_id_from_str,
}

-- `IPC_PKT_TYPE_SUBSCRIBE_DEVICE_ID | IPC_PKT_FROM_WEB_SERVER`, the same for
-- `IPC_PKT_TYPE_UNSUBSCRIBE_DEVICE_ID` and for `IPC_PKT_TYPE_HEARTBEAT`.
abbrev pub subscribe_type : ℕ
subscribe_type = 0x00020002

abbrev pub unsubscribe_type : ℕ
unsubscribe_type = 0x00020003

abbrev pub heartbeat_type : ℕ
heartbeat_type = 0x00020001

-- `client` is `m_jt1078_client`; `connect_timer` and `heartbeat_timer` say whether the timers run;
-- `sessions` is the `m_sessionStat` of the handler of sessions.
pub record Server : Type 0 where
  pub client : Client
  pub connect_timer : Bool
  pub heartbeat_timer : Bool
  pub device_ids : DeviceIds
  pub sessions : SessionStat
  pub requests : List Task
  pub tasks : List Task

-- `SendPacket`, where the client is there and connected.
abbrev pub send_if_connected : ℕ → Bytes → Server → Server
send_if_connected t text s =
    by_client s.client (s) (s)
      (record s { requests = s.requests ++ record { pkt_type = t; data_bytes = text } ∷ [] })

-- `InitIpcMovePacket` and `PostPacket`.
abbrev pub post : ℕ → Bytes → Server → Server
post t text s = record s { tasks = s.tasks ++ record { pkt_type = t; data_bytes = text } ∷ [] }

unfoldable pub notify_start : Bytes → Server → Server
unfolding exists add get_device_id_from_str
notify_start text s =
    let id = get_device_id_from_str text in
    if exists id s.device_ids
    then s
    else post subscribe_type text
        (send_if_connected subscribe_type text (record s { device_ids = add id s.device_ids }))

unfoldable pub notify_stop : Bytes → Server → Server
unfolding remove get_device_id_from_str
notify_stop text s =
    let id = get_device_id_from_str text in
    post unsubscribe_type text
      (send_if_connected unsubscribe_type text (record s { device_ids = remove id s.device_ids }))

-- `OnClientConnect(client, bOk)`.
abbrev pub on_client_connect : Bool → Server → Server
on_client_connect false s = record s { client = absent; connect_timer = true }
on_client_connect true s = record s { client = connected }

-- How `AsyncConnectServer` goes: there is no address, `AsyncConnect` fails, it waits for the answer,
-- is connected at once, or refused at once.
pub data Connecting : Type 0 where
  no_address fails in_progress at_once refused : Connecting

abbrev pub async_connect_server : Connecting → Server → Bool × Server
async_connect_server no_address s = (false, record s { client = absent })
async_connect_server fails s = (false, record s { client = connecting })
async_connect_server in_progress s = (true, record s { client = connecting })
async_connect_server at_once s = (true, on_client_connect true s)
async_connect_server refused s = (true, on_client_connect false s)

-- `OnClientMessage`: a packet with its type.
unfoldable pub on_client_message : ℕ → Bytes → Server → Server
on_client_message t xs s = if type_of t == type_jt1078_packet then post t xs s else s

unfoldable pub on_client_error : Server → Server
on_client_error s = record s { client = absent; connect_timer = true }

-- `OnConnectTimer`, once the timer has run out.
unfoldable pub on_connect_timer : Connecting → Server → Server
on_connect_timer c s = (async_connect_server c (record s { connect_timer = false })).1

unfoldable pub on_heartbeat_timer : Server → Server
on_heartbeat_timer s = record (send_if_connected heartbeat_type [] s) { heartbeat_timer = true }

-- `InitHttpHandlers` on a new server.
abbrev pub init_http_handlers : Connecting → Bool × Server
init_http_handlers c = async_connect_server c (record {
  client = absent;
  connect_timer = false;
  heartbeat_timer = true;
  device_ids = [];
  sessions = [];
  requests = [];
  tasks = [];
})
