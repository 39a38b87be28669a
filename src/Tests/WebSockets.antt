-- ===== src/Tests/WebSockets.antt =====
-- new_web_server with two connections for one device.
use multi_process_server.Base.{
  ℕ, ◌+◌, ◌≡◌, refl, arith, if◌then◌else◌, true, false, List, [], ◌∷◌, ◌++◌, Bytes, none, some,
}
use multi_process_server.DeviceId.{generate_device_id, is_space, digits}
use multi_process_server.WebSocket.Topics.{exists_topic}
use multi_process_server.WebSocket.Server.{
  Server, new_server, live, Happening, opens, closes, run, on_open, on_close,
}
use multi_process_server.WebSocket.Server.Requests.{tally}
use multi_process_server.WebSocket.Server.Crash.{on_close-overrun}
use multi_process_server.WebSocket.Server.Ledger.{run-even}

-- "01381234567802".
abbrev device : Bytes
device = 48 ∷ 49 ∷ 51 ∷ 56 ∷ 49 ∷ 50 ∷ 51 ∷ 52 ∷ 53 ∷ 54 ∷ 55 ∷ 56 ∷ 48 ∷ 50 ∷ []

abbrev two_browsers : List Happening
two_browsers = opens 1 (live ++ device) ∷ opens 2 (live ++ device) ∷ closes 1 ∷ []

run-even_example :
    (s : Server) × (run two_browsers new_server ≡ some s)
    × ((k : ℕ)
        → tally k true s.notices
          ≡ tally k false s.notices + (if exists_topic k s.topics then 1 else 0))
unfolding generate_device_id is_space digits
run-even_example = run-even two_browsers ((λ _. omega arith), ((λ _. omega arith), tt))

-- "-0000000000001".
abbrev minus_one : Bytes
minus_one = 45 ∷ 48 ∷ 48 ∷ 48 ∷ 48 ∷ 48 ∷ 48 ∷ 48 ∷ 48 ∷ 48 ∷ 48 ∷ 48 ∷ 48 ∷ 49 ∷ []

on_close-overrun_example :
    on_close 5 (on_open 5 (live ++ minus_one) (record new_server { topics = [] })) ≡ none
unfolding generate_device_id is_space digits
on_close-overrun_example = on_close-overrun 5 minus_one new_server refl (omega arith)
