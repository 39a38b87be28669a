-- ===== src/Web/Http/Handlers.antt =====
-- web_server/http/HttpSrsOnSessionHandler.cpp and HttpWebOnPlayHandler.cpp: what a request does, and the
-- answer. The bodies are parsed by nlohmann's library: a request comes with the result.
pub mod Watched
pub mod Answers
pub mod Silent
use multi_process_server.Base.{
  ℕ, ◌==◌, if◌then◌else◌, Bool, true, false, not, ◌&&◌, ◌||◌, List, [], ◌∷◌, Bytes, Option, none,
  some, is_empty_text, same_text, ◌>>=◌,
}
use multi_process_server.DeviceId.{check_device_id_str_fmt}
use multi_process_server.Web.Http.Sessions.{
  empty_client_id, add_client_id, del_client_id, release_stream,
}
use multi_process_server.Web.Http.Server.{
  Server, Connecting, notify_start, notify_stop, on_client_connect, on_client_message,
  on_client_error, on_connect_timer, on_heartbeat_timer,
}

-- The value under "client_id": a number, as `std::to_string` writes the `int` that it is, a text,
-- another value, or none.
pub data ClientId : Type 0 where
  number : Bytes → ClientId
  text : Bytes → ClientId
  other_value : ClientId
  no_value : ClientId

-- What a body holds under the names that are read; `none` where `at` or the conversion to a text
-- throws.
pub record Json : Type 0 where
  pub action : Option Bytes
  pub stream : Option Bytes
  pub app : Option Bytes
  pub client_id : ClientId
  pub device_id : Option Bytes

-- A request: whether its method is POST, how long its body is, and what it parses to.
pub record Request : Type 0 where
  pub is_post : Bool
  pub post_len : ℕ
  pub json : Option Json

-- `SendReply_BadMethod`, `SendReply_BadRequest`, `ReturnSrsOK`, `ReturnSrsError` and `SendReply_OK`.
pub data Reply : Type 0 where
  bad_method bad_request srs_ok srs_error plain_ok : Reply

-- `aborted` where the assertion of the library's `operator[]` fails.
pub data Answer : Type 0 where
  aborted : Answer
  answered : Reply → Server → Answer

abbrev pub on_play : Bytes
on_play = 111 ∷ 110 ∷ 95 ∷ 112 ∷ 108 ∷ 97 ∷ 121 ∷ []

abbrev pub on_stop : Bytes
on_stop = 111 ∷ 110 ∷ 95 ∷ 115 ∷ 116 ∷ 111 ∷ 112 ∷ []

abbrev pub live : Bytes
live = 108 ∷ 105 ∷ 118 ∷ 101 ∷ []

abbrev pub replay : Bytes
replay = 114 ∷ 101 ∷ 112 ∷ 108 ∷ 97 ∷ 121 ∷ []

-- `SessionStop`.
unfoldable pub session_stop : Bytes → Bytes → Server → Server
session_stop stream client s =
    let (empty, m) = empty_client_id stream (del_client_id stream client s.sessions) in
    let s' : Server = record s { sessions = m } in
    if empty then record (notify_stop stream s') { sessions = release_stream stream m } else s'

-- `SessionPlay`.
unfoldable pub session_play : Bytes → Bytes → Server → Server
session_play stream client s =
    let (empty, m) = empty_client_id stream s.sessions in
    let s' : Server = record s { sessions = m } in
    record (if empty then notify_start stream s' else s') {
      sessions = add_client_id stream client m;
    }

-- `GetActionAndStream` and the first half of `HandlerJsonData`: what it goes on with.
pub record Callback : Type 0 where
  pub action : Bytes
  pub stream : Bytes
  pub app : Bytes
  pub client : Bytes

pub data Got : Type 0 where
  assertion : Got
  failed : Got
  got : Callback → Got

abbrev pub with_client : Bytes → Bytes → Bytes → ClientId → Got
with_client action stream app (number c) =
    got (record { action = action; stream = stream; app = app; client = c })
with_client action stream app (text c) =
    got (record { action = action; stream = stream; app = app; client = c })
with_client action stream app other_value = failed
with_client action stream app no_value = assertion

abbrev pub with_app : Bytes → Bytes → Option Bytes → ClientId → Got
with_app action stream none c = failed
with_app action stream (some app) c = with_client action stream app c

abbrev pub with_stream : Bytes → Option Bytes → Option Bytes → ClientId → Got
with_stream action none app c = failed
with_stream action (some stream) app c = with_app action stream app c

abbrev pub with_action : Option Bytes → Option Bytes → Option Bytes → ClientId → Got
with_action none stream app c = failed
with_action (some action) stream app c = with_stream action stream app c

abbrev pub get_action_and_stream : Json → Got
get_action_and_stream j = with_action j.action j.stream j.app j.client_id

-- The tests of `HandlerJsonData` and what follows them.
unfoldable pub dispatch : Callback → Server → Answer
unfolding session_stop session_play
dispatch c s =
    if is_empty_text c.stream
      || (not (same_text c.action on_stop) && not (same_text c.action on_play))
      || is_empty_text c.app
    then answered bad_request s
    else if not (check_device_id_str_fmt c.stream)
    then answered srs_error s
    else if not (same_text c.app live) && not (same_text c.app replay)
    then answered srs_error s
    else if same_text c.action on_stop
    then answered srs_ok (session_stop c.stream c.client s)
    else answered srs_ok (session_play c.stream c.client s)

abbrev pub handle_got : Got → Server → Answer
handle_got assertion s = aborted
handle_got failed s = answered bad_request s
handle_got (got c) s = dispatch c s

abbrev pub srs_json : Option Json → Server → Answer
srs_json none s = answered bad_request s
srs_json (some j) s = handle_got (get_action_and_stream j) s

-- `HttpSrsOnSessionHandler::HandlerRequest`.
unfoldable pub on_session : Request → Server → Answer
unfolding dispatch
on_session r s =
    if not r.is_post
    then answered bad_method s
    else if r.post_len == 0
    then answered bad_request s
    else srs_json r.json s

abbrev pub start_device : Option Bytes → Server → Answer
start_device none s = answered bad_request s
start_device (some device) s =
    if not (check_device_id_str_fmt device)
    then answered bad_request s
    else answered plain_ok (notify_start device s)

abbrev pub play_json : Option Json → Server → Answer
play_json none s = answered bad_request s
play_json (some j) s = start_device j.device_id s

-- `HttpWebOnPlayHandler::HandlerRequest`.
unfoldable pub on_web_play : Request → Server → Answer
unfolding notify_start
on_web_play r s = if not r.is_post then answered bad_method s else play_json r.json s

-- What happens to the server.
pub data Happening : Type 0 where
  session_request : Request → Happening
  play_request : Request → Happening
  connects : Bool → Happening
  receives : ℕ → Bytes → Happening
  loses : Happening
  connect_time : Connecting → Happening
  heartbeat_time : Happening

-- The server afterwards, unless it was aborted.
abbrev pub server_of : Answer → Option Server
server_of aborted = none
server_of (answered r s) = some s

unfoldable pub handle : Happening → Server → Option Server
unfolding on_session on_web_play on_client_message on_client_error on_connect_timer
    on_heartbeat_timer
handle (session_request r) s = server_of (on_session r s)
handle (play_request r) s = server_of (on_web_play r s)
handle (connects ok) s = some (on_client_connect ok s)
handle (receives t xs) s = some (on_client_message t xs s)
handle loses s = some (on_client_error s)
handle (connect_time c) s = some (on_connect_timer c s)
handle heartbeat_time s = some (on_heartbeat_timer s)

unfoldable pub run : List Happening → Server → Option Server
unfolding handle
run [] s = some s
run (h ∷ hs) s = handle h s >>= run hs
