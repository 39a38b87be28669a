-- ===== src/Web/Http/Handlers/Answers.antt =====
-- HttpSrsOnSessionHandler.cpp and HttpWebOnPlayHandler.cpp: whatever is asked for, the streams that have
-- clients are watched, and which requests abort the server.
use multi_process_server.Base.{
  ℕ, ◌≡◌, ◌≢◌, refl, ◌==◌, if_elim, Bool, true, false, not, ◌&&◌, ◌||◌, [], ◌∷◌, List, Bytes,
  is_empty_text, same_text, Option, none, some, ◌>>=◌,
}
use multi_process_server.DeviceId.{check_device_id_str_fmt}
use multi_process_server.DeviceId.{generate_device_id}
use multi_process_server.Pc.Server.{Client, absent, connecting, connected, by_client}
use multi_process_server.Forward.Server.{type_of}
use multi_process_server.Web.Rtmp.Thread.{type_jt1078_packet}
use multi_process_server.Web.Http.Sessions.{clients_of, exists}
use multi_process_server.Web.Http.Server.{
  Server, Connecting, no_address, fails, in_progress, at_once, refused, on_client_connect,
  on_client_message, on_connect_timer, on_heartbeat_timer, init_http_handlers, async_connect_server,
}
use multi_process_server.Web.Http.Server.Wanted.{wanted, on_client_message-IsTold}
use multi_process_server.Web.Http.Handlers.{
  Json, Request, Reply, Answer, answered, on_play, on_stop, live, replay, Callback, Got, assertion,
  failed, got, get_action_and_stream, dispatch, handle_got, srs_json, on_session, start_device,
  play_json, on_web_play, Happening, session_request, play_request, connects, receives, loses,
  connect_time, heartbeat_time, server_of, handle, run,
}
use multi_process_server.Web.Http.Handlers.Watched.{
  AllWatched, IsWatched, notify_start-IsWatched, session_play-IsWatched, session_stop-IsWatched,
}

-- The server answers, and is watched afterwards.
pub data Answers : Answer → Type 0 where
  answers : (r : Reply) {s : Server} → IsWatched s → Answers (answered r s)

not-false : (b : Bool) → not b ≡ false → b ≡ true
not-false true e = refl
not-false false e = cc

dispatch-Answers : (c : Callback) (s : Server) → IsWatched s → Answers (dispatch c s)
unfolding dispatch
dispatch-Answers c s w =
    if_elim Answers
      (is_empty_text c.stream
        || (not (same_text c.action on_stop) && not (same_text c.action on_play))
        || is_empty_text c.app)
      (λ _. answers Reply.bad_request w)
      λ _.
        if_elim Answers (not (check_device_id_str_fmt c.stream)) (λ _. answers Reply.srs_error w)
          λ digits.
            if_elim Answers (not (same_text c.app live) && not (same_text c.app replay))
              (λ _. answers Reply.srs_error w)
              λ _.
                let ok = not-false (check_device_id_str_fmt c.stream) digits in
                if_elim Answers (same_text c.action on_stop)
                  (λ _. answers Reply.srs_ok (session_stop-IsWatched c.stream c.client s ok w))
                  (λ _. answers Reply.srs_ok (session_play-IsWatched c.stream c.client s ok w))

-- A body has something under "client_id", or is refused before that is read.
abbrev pub IsSafe : Option Json → Type 0
IsSafe none = Unit
IsSafe (some j) = get_action_and_stream j ≢ assertion

srs_json-Answers : (o : Option Json) (s : Server) → IsSafe o → IsWatched s → Answers (srs_json o s)
srs_json-Answers none s safe w = answers Reply.bad_request w
srs_json-Answers (some j) s safe w = go (get_action_and_stream j) safe
  where
    go : (g : Got) → g ≢ assertion → Answers (handle_got g s)
    go assertion h = absurd (h refl)
    go failed h = answers Reply.bad_request w
    go (got c) h = dispatch-Answers c s w

on_session-Answers :
    (r : Request) (s : Server) → IsSafe r.json → IsWatched s → Answers (on_session r s)
unfolding on_session
on_session-Answers r s safe w =
    if_elim Answers (not r.is_post) (λ _. answers Reply.bad_method w)
      λ _.
        if_elim Answers (r.post_len == 0) (λ _. answers Reply.bad_request w)
          (λ _. srs_json-Answers r.json s safe w)

start_device-Answers : (o : Option Bytes) (s : Server) → IsWatched s → Answers (start_device o s)
start_device-Answers none s w = answers Reply.bad_request w
start_device-Answers (some device) s w =
    if_elim Answers (not (check_device_id_str_fmt device)) (λ _. answers Reply.bad_request w)
      (λ _. answers Reply.plain_ok (notify_start-IsWatched device s w))

play_json-Answers : (o : Option Json) (s : Server) → IsWatched s → Answers (play_json o s)
play_json-Answers none s w = answers Reply.bad_request w
play_json-Answers (some j) s w = start_device-Answers j.device_id s w

on_web_play-Answers : (r : Request) (s : Server) → IsWatched s → Answers (on_web_play r s)
unfolding on_web_play
on_web_play-Answers r s w =
    if_elim Answers (not r.is_post) (λ _. answers Reply.bad_method w)
      (λ _. play_json-Answers r.json s w)

connects-IsWatched : (ok : Bool) (s : Server) → IsWatched s → IsWatched (on_client_connect ok s)
connects-IsWatched true s w = record { all_watched = w.all_watched; told = w.told }
connects-IsWatched false s w = record { all_watched = w.all_watched; told = w.told }

connecting-IsWatched :
    (c : Connecting) (s : Server) → IsWatched s → IsWatched (async_connect_server c s).1
connecting-IsWatched no_address s w = record { all_watched = w.all_watched; told = w.told }
connecting-IsWatched fails s w = record { all_watched = w.all_watched; told = w.told }
connecting-IsWatched in_progress s w = record { all_watched = w.all_watched; told = w.told }
connecting-IsWatched at_once s w = connects-IsWatched true s w
connecting-IsWatched refused s w = connects-IsWatched false s w

message-IsWatched :
    (t : ℕ) (xs : Bytes) (s : Server) → IsWatched s → IsWatched (on_client_message t xs s)
unfolding on_client_message
message-IsWatched t xs s w = record {
  all_watched =
      if_elim (λ (s' : Server). AllWatched s'.sessions s'.device_ids)
        (type_of t == type_jt1078_packet) (λ _. w.all_watched) (λ _. w.all_watched);
  told = on_client_message-IsTold t xs s w.told;
}

-- One server or another, by the state of the client, and its heartbeat timer running.
by_client-IsWatched :
    (c : Client) (s s' : Server)
    → IsWatched s
    → IsWatched s'
    → IsWatched (record (by_client c s s s') { heartbeat_timer = true })
by_client-IsWatched absent s s' w w' = record { all_watched = w.all_watched; told = w.told }
by_client-IsWatched connecting s s' w w' = record { all_watched = w.all_watched; told = w.told }
by_client-IsWatched connected s s' w w' = record { all_watched = w'.all_watched; told = w'.told }

heartbeat-IsWatched : (s : Server) → IsWatched s → IsWatched (on_heartbeat_timer s)
unfolding on_heartbeat_timer
heartbeat-IsWatched s w =
    by_client-IsWatched s.client s _ w (record { all_watched = w.all_watched; told = w.told })

-- A request of a client whose body, if it is one, can be read.
abbrev pub IsHarmless : Happening → Type 0
IsHarmless (session_request r) = IsSafe r.json
IsHarmless _ = Unit

abbrev pub AllHarmless : List Happening → Type 0
AllHarmless [] = Unit
AllHarmless (h ∷ hs) = IsHarmless h × AllHarmless hs

-- The server goes on and is watched.
pub data GoesOn : Option Server → Type 0 where
  goes_on : {s : Server} → IsWatched s → GoesOn (some s)

answer-GoesOn : {a : Answer} → Answers a → GoesOn (server_of a)
answer-GoesOn (answers r w) = goes_on w

handle-GoesOn : (h : Happening) (s : Server) → IsHarmless h → IsWatched s → GoesOn (handle h s)
unfolding handle on_connect_timer
handle-GoesOn (session_request r) s safe w = answer-GoesOn (on_session-Answers r s safe w)
handle-GoesOn (play_request r) s safe w = answer-GoesOn (on_web_play-Answers r s w)
handle-GoesOn (connects ok) s safe w = goes_on (connects-IsWatched ok s w)
handle-GoesOn (receives t xs) s safe w = goes_on (message-IsWatched t xs s w)
handle-GoesOn loses s safe w = goes_on (record { all_watched = w.all_watched; told = w.told })
handle-GoesOn (connect_time c) s safe w = goes_on (
    connecting-IsWatched c (record s { connect_timer = false })
      (record { all_watched = w.all_watched; told = w.told }))
handle-GoesOn heartbeat_time s safe w = goes_on (heartbeat-IsWatched s w)

pub run-GoesOn :
    (hs : List Happening) (s : Server) → AllHarmless hs → IsWatched s → GoesOn (run hs s)
unfolding run
run-GoesOn [] s safe w = goes_on w
run-GoesOn (h ∷ hs) s (safe, all) w = go (handle-GoesOn h s safe w) (λ s' v. run-GoesOn hs s' all v)
  where
    go :
        {o : Option Server}
        → GoesOn o
        → ((s' : Server) → IsWatched s' → GoesOn (run hs s'))
        → GoesOn (o >>= run hs)
    go (goes_on {s = s'} v) later = later s' v

init-IsWatched : (c : Connecting) → IsWatched (init_http_handlers c).1
unfolding clients_of exists wanted
init-IsWatched c =
    connecting-IsWatched c _
      (record { all_watched = λ stream some_client. absurd (some_client refl); told = λ id. refl })

-- Whatever happens to a new web server, where each body of a session request that can be read has a
-- "client_id": no assertion fails; the device of each stream that has a client is in the set of
-- devices, and a device is in the set exactly where the last task that the RTMP thread was given to
-- subscribe or to unsubscribe it was one to subscribe.
pub run-watched :
    (c : Connecting) (hs : List Happening)
    → AllHarmless hs
    → (s : Server) × (run hs (init_http_handlers c).1 ≡ some s)
      × ((stream : Bytes)
          → clients_of stream s.sessions ≢ []
          → exists (generate_device_id stream) s.device_ids ≡ true)
      × ((id : ℕ) → wanted id s.tasks false ≡ exists id s.device_ids)
run-watched c hs safe = go (run-GoesOn hs (init_http_handlers c).1 safe (init-IsWatched c))
  where
    go :
        {o : Option Server}
        → GoesOn o
        → (s : Server) × (o ≡ some s)
          × ((stream : Bytes)
              → clients_of stream s.sessions ≢ []
              → exists (generate_device_id stream) s.device_ids ≡ true)
          × ((id : ℕ) → wanted id s.tasks false ≡ exists id s.device_ids)
    go (goes_on {s} w) =
        (s, refl, λ stream some_client. (w.all_watched stream some_client).1, w.told)
