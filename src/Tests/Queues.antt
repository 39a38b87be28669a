-- ===== src/Tests/Queues.antt =====
-- A connection to Redis.
use multi_process_server.Base.{◌≡◌, refl, arith, Bool, true, false, [], ◌∷◌, ◌++◌}
use multi_process_server.Redis.{
  Server, no_context, live, opened, fault, done, bad_context, connects, disconnects, pushes,
  reconnect_time, rpush_list, rpush_word, run, handle, on_reconnect_timer, on_connect, select, line,
  decimal,
}
use multi_process_server.Redis.Lost.{Reach, here, next, Reach-push}

abbrev unconnected : Server
unconnected = record {
  passport = [];
  index = 0;
  client = record { context = no_context; connected = false; sent = [] };
  timer = true;
}

-- With a context, and with the database selected.
abbrev opening : Server
opening = record unconnected {
  client = record { context = live; connected = false; sent = [] };
  timer = false;
}

abbrev selected : Server
selected = record opening {
  client = record {
    context = live;
    connected = true;
    sent = (115 ∷ 101 ∷ 108 ∷ 101 ∷ 99 ∷ 116 ∷ 32 ∷ 48 ∷ []) ∷ [];
  };
}

selected-Reach : Reach unconnected selected
unfolding handle on_reconnect_timer on_connect select line decimal
selected-Reach = next (connects true) (next (reconnect_time opened) here tt refl) refl refl

Reach-push_example :
    (true ≡ true
      → (s' : Server) × (rpush_list (113 ∷ []) (1 ∷ 2 ∷ []) selected ≡ done s')
        × (s'.client.sent ≡ selected.client.sent ++ (rpush_word ++ (113 ∷ 32 ∷ 1 ∷ 2 ∷ [])) ∷ []))
    × ((ok : Bool)
        → run (disconnects ok ∷ pushes (113 ∷ []) (1 ∷ 2 ∷ []) ∷ []) selected ≡ fault bad_context)
Reach-push_example =
    Reach-push unconnected selected (113 ∷ []) (1 ∷ 2 ∷ []) refl selected-Reach (omega arith)
