-- ===== src/Forward/Publisher.antt =====
-- jt1078/forward_server/Channel.h, Channel.cpp, Publisher.h and Publisher.cpp: the channels and their
-- subscribers. A subscriber is an object that the maps share: they hold its session id, and `Objects`
-- what it is now.
use multi_process_server.Base.{
  ℕ, ◌==◌, Bool, true, false, if◌then◌else◌, [], ◌∷◌, Option, none, some, Map, find, insert, erase,
}
use multi_process_server.Jt1078.Header.{Packet}
use multi_process_server.Forward.Subscriber.{Subscriber, send_msg}

abbrev pub Objects : Type 0
Objects = ℕ → Subscriber

abbrev pub write : ℕ → Subscriber → Objects → Objects
write id s objects j = if j == id then s else objects j

-- The sessions of a `m_mapSubscriber`.
abbrev pub Sessions : Type 0
Sessions = Map (Unit {0})

pub record Channel : Type 0 where
  pub channel_id : ℕ
  pub subscribers : Sessions

abbrev pub Channels : Type 0
Channels = Map Channel

abbrev pub add_subscriber : ℕ → Channel → Channel
add_subscriber session_id c = record c { subscribers = insert session_id tt c.subscribers }

abbrev pub del_subscriber : ℕ → Channel → Channel
del_subscriber session_id c = record c { subscribers = erase session_id c.subscribers }

abbrev pub is_empty : Sessions → Bool
is_empty [] = true
is_empty (_ ∷ _) = false

-- What the loop of `Channel::SendMsg` does to one subscriber.
abbrev pub send_one : Packet → ℕ → Subscriber → Subscriber
send_one p device_id s = if s.session.can_write then (send_msg p device_id s).1 else s

-- `Channel::SendMsg`: a subscriber that cannot be written to any more is taken out.
unfoldable pub send_each : Packet → ℕ → Sessions → Objects → Sessions × Objects
unfolding send_msg
send_each p device_id [] objects = ([], objects)
send_each p device_id ((id, u) ∷ rest) objects =
    let s = send_one p device_id (objects id) in
    let (kept, objects') = send_each p device_id rest (write id s objects) in
    (if s.session.can_write then (id, u) ∷ kept else kept, objects')

-- A change to the channel that a map holds under a key, if there is one.
unfoldable pub alter : ℕ → (Channel → Channel) → Channels → Channels
alter k f [] = []
alter k f ((j, c) ∷ m) = let rest = alter k f m in if j == k then (j, f c) ∷ m else (j, c) ∷ rest

-- `Publisher::Publish` with the channel that it finds.
abbrev pub publish_in : Packet → ℕ → Channels → Objects → Option Channel → Channels × Objects
publish_in p channel_id m objects none = (m, objects)
publish_in p channel_id m objects (some c) =
    let (kept, objects') = send_each p channel_id c.subscribers objects in
    (alter channel_id (λ c. record c { subscribers = kept }) m, objects')

unfoldable pub publish : ℕ → Packet → Channels → Objects → Channels × Objects
unfolding send_each alter find
publish channel_id p m objects = publish_in p channel_id m objects (find channel_id m)

abbrev pub found : {A : Type 0} → Option A → Bool
found none = false
found (some _) = true

-- `Exists`.
unfoldable pub exists : ℕ → Channels → Bool
unfolding find
exists channel_id m = found (find channel_id m)

unfoldable pub create_channel : ℕ → Channels → Channels
unfolding insert
create_channel channel_id m =
    insert channel_id (record { channel_id = channel_id; subscribers = [] }) m

-- `AddSubscriber` and the two forms of `DelSubscriber`: with a channel, and for all of them.
unfoldable pub subscribe : ℕ → ℕ → Channels → Channels
unfolding alter
subscribe channel_id session_id m = alter channel_id (add_subscriber session_id) m

unfoldable pub unsubscribe : ℕ → ℕ → Channels → Channels
unfolding alter
unsubscribe channel_id session_id m = alter channel_id (del_subscriber session_id) m

unfoldable pub unsubscribe_all : ℕ → Channels → Channels
unsubscribe_all session_id [] = []
unsubscribe_all session_id ((j, c) ∷ m) =
    (j, del_subscriber session_id c) ∷ unsubscribe_all session_id m
