-- ===== src/Tests/WebRequests.antt =====
-- A web server that is asked to play and to stop a stream, and loses its connection.
use multi_process_server.Base.{
  ℕ, ◌<◌, ◌^◌, ◌≡◌, ◌≢◌, refl, true, false, List, [], ◌∷◌, Bytes, none, some, find, insert, erase,
  find_text, insert_text, erase_text,
}
use multi_process_server.DeviceId.{
  generate_device_id, generate_device_id_str_by_device_id, is_space, digits, hex_digit,
}
use multi_process_server.DeviceId.Digits.{generate_device_id_str_by_device_id-generate_device_id}
use multi_process_server.Pc.Server.{connected}
use multi_process_server.Web.Http.Sessions.{
  clients_of, exists, add, remove, get_device_id_from_str, with_entry, size, empty_client_id,
  add_id, del_id, add_client_id, del_client_id, release_stream,
}
use multi_process_server.Web.Http.Server.{
  Server, in_progress, init_http_handlers, notify_start, notify_stop, on_client_connect,
  on_client_error,
}
use multi_process_server.Web.Http.Server.Wanted.{wanted}
use multi_process_server.Web.Http.Handlers.{
  Request, ClientId, Happening, session_request, connects, on_play, on_stop, live, run,
  session_play, session_stop,
}
use multi_process_server.Web.Http.Handlers.Answers.{run-watched}
use multi_process_server.Web.Http.Handlers.Silent.{play_all, reconnect-silent}

-- "01395221031201".
abbrev stream : Bytes
stream = 48 ∷ 49 ∷ 51 ∷ 57 ∷ 53 ∷ 50 ∷ 50 ∷ 49 ∷ 48 ∷ 51 ∷ 49 ∷ 50 ∷ 48 ∷ 49 ∷ []

abbrev request : Bytes → Bytes → Request
request action client = record {
  is_post = true;
  post_len = 90;
  json = some (record {
    action = some action;
    stream = some stream;
    app = some live;
    client_id = ClientId.text client;
    device_id = none;
  });
}

abbrev evening : List Happening
evening =
    connects true
    ∷ session_request (request on_play (97 ∷ []))
    ∷ session_request (request on_play (98 ∷ []))
    ∷ session_request (request on_stop (97 ∷ []))
    ∷ []

run-watched_example :
    (s : Server) × (run evening (init_http_handlers in_progress).1 ≡ some s)
    × ((stream : Bytes)
        → clients_of stream s.sessions ≢ []
        → exists (generate_device_id stream) s.device_ids ≡ true)
    × ((id : ℕ) → wanted id s.tasks false ≡ exists id s.device_ids)
run-watched_example =
    run-watched in_progress evening (tt, ((λ e. cc), ((λ e. cc), ((λ e. cc), tt))))

-- The stream is subscribed once, and unsubscribed only when its last client has stopped.
abbrev fresh : Server
fresh = on_client_connect true (init_http_handlers in_progress).1

abbrev watched : Server
watched = session_play stream (98 ∷ []) (session_play stream (97 ∷ []) fresh)

ends : (session_stop stream (97 ∷ []) (session_stop stream (98 ∷ []) watched)).device_ids ≡ []
unfolding session_play session_stop empty_client_id size with_entry clients_of find_text insert_text
    erase_text add_client_id del_client_id add_id del_id release_stream notify_start notify_stop
    exists add remove get_device_id_from_str generate_device_id is_space digits hex_digit find
    insert erase
ends = refl

reconnect-silent_example :
    let again = on_client_connect true (on_client_error watched) in
    (again.client ≡ connected)
    × (again.requests ≡ watched.requests)
    × ((play_all stream ((99 ∷ []) ∷ []) again).requests ≡ watched.requests)
unfolding session_play empty_client_id size with_entry clients_of find_text insert_text
    add_client_id add_id notify_start exists add get_device_id_from_str generate_device_id is_space
    digits hex_digit find insert
reconnect-silent_example = reconnect-silent stream ((99 ∷ []) ∷ []) watched refl

generate_device_id_str_by_device_id-generate_device_id_example :
    (generate_device_id stream < 2 ^ 56)
    × (generate_device_id_str_by_device_id (generate_device_id stream) ≡ some stream)
generate_device_id_str_by_device_id-generate_device_id_example =
    generate_device_id_str_by_device_id-generate_device_id stream refl
