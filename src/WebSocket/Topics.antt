-- ===== src/WebSocket/Topics.antt =====
-- new_web_server/CarTopicManager.h: the topics, one for each device, with the handles of their
-- subscribers. A handle of a connection is a number.
use multi_process_server.Base.{
  ℕ, ◌==◌, if◌then◌else◌, Bool, true, false, List, [], ◌∷◌, map, Bytes, Map, find, insert, erase,
  Option, none, some,
}

-- `std::set`: what is inserted twice is there once.
unfoldable pub add_handle : ℕ → List ℕ → List ℕ
add_handle h [] = h ∷ []
add_handle h (g ∷ gs) = let rest = add_handle h gs in if g == h then g ∷ gs else g ∷ rest

unfoldable pub remove_handle : ℕ → List ℕ → List ℕ
remove_handle h [] = []
remove_handle h (g ∷ gs) = let rest = remove_handle h gs in if g == h then rest else g ∷ rest

abbrev pub no_handles : List ℕ → Bool
no_handles [] = true
no_handles (g ∷ gs) = false

abbrev pub Topics : Type 0
Topics = Map (List ℕ)

abbrev pub is_some : {A : Type 0} → Option A → Bool
is_some none = false
is_some (some a) = true

unfoldable pub exists_topic : ℕ → Topics → Bool
unfolding find
exists_topic device_id m = is_some (find device_id m)

-- `GetTopic` with `bCreateIfNotExists`, where there is none.
unfoldable pub create_topic : ℕ → Topics → Topics
unfolding insert
create_topic device_id m = insert device_id [] m

-- `GetTopic` and `AddSubscriber` of the topic.
unfoldable pub subscribe_topic : ℕ → ℕ → Topics → Topics
unfolding add_handle
subscribe_topic device_id h [] = []
subscribe_topic device_id h ((j, hs) ∷ m) =
    let rest = subscribe_topic device_id h m in
    if j == device_id then (j, add_handle h hs) ∷ m else (j, hs) ∷ rest

unfoldable pub remove_subscriber : ℕ → Topics → Topics
unfolding remove_handle
remove_subscriber h [] = []
remove_subscriber h ((j, hs) ∷ m) = (j, remove_handle h hs) ∷ remove_subscriber h m

unfoldable pub empty_topics : Topics → List ℕ
empty_topics [] = []
empty_topics ((j, hs) ∷ m) = let rest = empty_topics m in if no_handles hs then j ∷ rest else rest

unfoldable pub remove_topics : List ℕ → Topics → Topics
unfolding erase
remove_topics [] m = m
remove_topics (j ∷ js) m = remove_topics js (erase j m)

-- `Publish`: what is sent, and to whom.
abbrev pub publish_to : Bytes → List ℕ → List (ℕ × Bytes)
publish_to bytes hs = map (λ h. (h, bytes)) hs
