-- ===== src/Pc/Publisher.antt =====
-- pc_server/PcPublisher.cpp: who watches which device. The maps hold the session ids of the shared
-- objects, and `Objects` what these are now.
use multi_process_server.Base.{
  ℕ, ◌==◌, if◌then◌else◌, List, [], ◌∷◌, Bytes, Option, none, some, Map, find, insert, erase, size,
}
use multi_process_server.Tcp.{Session}
use multi_process_server.Pc.Session.{send_packet}

-- A `PcSession`: its connection, and `m_strDeviceId`.
pub record PcSession : Type 0 where
  pub session : Session
  pub device_id : Bytes

abbrev pub Objects : Type 0
Objects = ℕ → PcSession

abbrev pub write : ℕ → PcSession → Objects → Objects
write id pc objects j = if j == id then pc else objects j

abbrev pub Channel : Type 0
Channel = Map (Unit {0})

abbrev pub Channels : Type 0
Channels = Map Channel

abbrev pub send_one : Bytes → PcSession → PcSession
send_one packet pc =
    if pc.session.can_write then record pc { session = (send_packet packet pc.session).1 } else pc

-- The loop of `Publish`: a session that cannot be written to any more is taken out.
unfoldable pub send_each : Bytes → Channel → Objects → Channel × Objects
unfolding send_packet
send_each packet [] objects = ([], objects)
send_each packet ((id, u) ∷ rest) objects =
    let pc = send_one packet (objects id) in
    let (kept, objects') = send_each packet rest (write id pc objects) in
    (if pc.session.can_write then (id, u) ∷ kept else kept, objects')

-- A change to the channel that stands under a device, if there is one.
unfoldable pub alter : ℕ → (Channel → Channel) → Channels → Channels
alter k f [] = []
alter k f ((j, c) ∷ m) = let rest = alter k f m in if j == k then (j, f c) ∷ m else (j, c) ∷ rest

abbrev pub publish_in : Bytes → ℕ → Channels → Objects → Option Channel → Channels × Objects
publish_in packet device_id m objects none = (m, objects)
publish_in packet device_id m objects (some c) =
    let (kept, objects') = send_each packet c objects in (alter device_id (λ c. kept) m, objects')

unfoldable pub publish : ℕ → Bytes → Channels → Objects → Channels × Objects
unfolding find send_each alter
publish device_id packet m objects = publish_in packet device_id m objects (find device_id m)

-- `insert` of a map keeps what is there.
abbrev pub add_in : ℕ → ℕ → Channels → Option Channel → Channels
add_in device_id id m none = insert device_id ((id, tt) ∷ []) m
add_in device_id id m (some c) = alter device_id (insert id tt) m

unfoldable pub add_subscriber : ℕ → ℕ → Channels → Channels
unfolding find insert alter
add_subscriber device_id id m = add_in device_id id m (find device_id m)

unfoldable pub del_subscriber : ℕ → ℕ → Channels → Channels
unfolding alter erase
del_subscriber device_id id m = alter device_id (erase id) m

abbrev pub size_in : Option Channel → ℕ
size_in none = 0
size_in (some c) = size c

unfoldable pub size_subscriber : ℕ → Channels → ℕ
unfolding find size
size_subscriber device_id m = size_in (find device_id m)

-- `GetAllDeviceId(true)`: the devices that someone watches, in order.
unfoldable pub watched : Channels → List ℕ
watched [] = []
watched ((j, []) ∷ m) = watched m
watched ((j, _ ∷ _) ∷ m) = j ∷ watched m
