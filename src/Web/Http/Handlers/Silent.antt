-- ===== src/Web/Http/Handlers/Silent.antt =====
-- HttpSrsOnSessionHandler.cpp and WebServer.cpp: what is asked of the forward server for a stream that is
-- watched already, and which bodies abort the server.
use multi_process_server.Base.{
  ℕ, ◌≡◌, refl, ap, ◌∙◌, ◌==◌, if◌then◌else◌, if_elim, if_then, if_else, true, false, [], ◌∷◌, List,
  Bytes, Option, some,
}
use multi_process_server.DeviceId.{generate_device_id}
use multi_process_server.Pc.Server.{connected}
use multi_process_server.Web.Http.Sessions.{exists, get_device_id_from_str, empty_client_id}
use multi_process_server.Web.Http.Server.{Server, notify_start, on_client_connect, on_client_error}
use multi_process_server.Web.Http.Handlers.{no_value, aborted, on_session, session_play}

-- A device that is in the set is not asked for again.
pub notify_start-again :
    (text : Bytes) (s : Server)
    → exists (generate_device_id text) s.device_ids ≡ true
    → notify_start text s ≡ s
unfolding notify_start get_device_id_from_str
notify_start-again text s h = if_then (exists (generate_device_id text) s.device_ids) s _ h

-- The clients that begin to watch a stream, one after the other.
unfoldable pub play_all : Bytes → List Bytes → Server → Server
unfolding session_play
play_all stream [] s = s
play_all stream (c ∷ cs) s = play_all stream cs (session_play stream c s)

session_play-again :
    (stream c : Bytes) (s : Server)
    → exists (generate_device_id stream) s.device_ids ≡ true
    → ((session_play stream c s).requests ≡ s.requests)
      × ((session_play stream c s).device_ids ≡ s.device_ids)
unfolding session_play
session_play-again stream c s h =
    let s1 : Server = record s { sessions = (empty_client_id stream s.sessions).1 } in
    let same : (if (empty_client_id stream s.sessions).0 then notify_start stream s1 else s1) ≡ s1 =
      if_elim (λ s'. s' ≡ s1) (empty_client_id stream s.sessions).0
        (λ _. notify_start-again stream s1 h) (λ _. refl) in
    (ap (λ (s' : Server). s'.requests) same, ap (λ (s' : Server). s'.device_ids) same)

play_all-again :
    (stream : Bytes) (cs : List Bytes) (s : Server)
    → exists (generate_device_id stream) s.device_ids ≡ true
    → (play_all stream cs s).requests ≡ s.requests
unfolding play_all
play_all-again stream [] s h = refl
play_all-again stream (c ∷ cs) s h =
    let (requests, ids) = session_play-again stream c s h in
    play_all-again stream cs (session_play stream c s)
      (ap (exists (generate_device_id stream)) ids ∙ h)
    ∙ requests

-- A stream whose device is in the set when the connection to the forward server is lost: once there is
-- a new connection, nothing has been asked for over it, and nothing is, however many clients begin to
-- watch the stream.
pub reconnect-silent :
    (stream : Bytes) (cs : List Bytes) (s : Server)
    → exists (generate_device_id stream) s.device_ids ≡ true
    → let again = on_client_connect true (on_client_error s) in
      (again.client ≡ connected)
      × (again.requests ≡ s.requests)
      × ((play_all stream cs again).requests ≡ s.requests)
unfolding on_client_error
reconnect-silent stream cs s h =
    (refl, refl, play_all-again stream cs (on_client_connect true (on_client_error s)) h)

-- A body with an action, a stream and an app, but without "client_id", aborts the server.
pub on_session-aborted :
    (action stream app : Bytes) (device_id : Option Bytes) (n : ℕ) (s : Server)
    → (n == 0) ≡ false
    → on_session
        (record {
          is_post = true;
          post_len = n;
          json = some (record {
            action = some action;
            stream = some stream;
            app = some app;
            client_id = no_value;
            device_id = device_id;
          });
        })
        s
      ≡ aborted
unfolding on_session
on_session-aborted action stream app device_id n s h = if_else (n == 0) _ _ h
