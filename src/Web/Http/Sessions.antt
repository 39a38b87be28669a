-- ===== src/Web/Http/Sessions.antt =====
-- web_server/http/HttpSrsOnSessionHandler.h: `HttpSessionStat`, the client ids of each stream, and
-- DeviceIdMgr.h and DeviceIdMgr.cpp, the set of the device ids.
pub mod Entries
use multi_process_server.Base.{
  ℕ, ◌==◌, if◌then◌else◌, Bool, true, false, List, [], ◌∷◌, Bytes, length, Map, find, insert, erase,
  Option, none, some, same_text, find_text, insert_text, erase_text,
}
use multi_process_server.DeviceId.{generate_device_id}

-- `m_mapClients`.
abbrev pub SessionStat : Type 0
SessionStat = List (Bytes × List Bytes)

abbrev pub or_none : Option (List Bytes) → List Bytes
or_none none = []
or_none (some ids) = ids

-- `m_mapClients[strStream]`: the ids, and the map, which has an entry for the stream now.
unfoldable pub clients_of : Bytes → SessionStat → List Bytes
unfolding find_text
clients_of stream m = or_none (find_text stream m)

unfoldable pub with_entry : Bytes → SessionStat → SessionStat
unfolding insert_text clients_of
with_entry stream m = insert_text stream (clients_of stream m) m

-- `Size` and `EmptyClientId`, with the map afterwards.
unfoldable pub size : Bytes → SessionStat → ℕ × SessionStat
unfolding with_entry clients_of
size stream m = (length (clients_of stream m), with_entry stream m)

unfoldable pub empty_client_id : Bytes → SessionStat → Bool × SessionStat
unfolding size
empty_client_id stream m = let (n, m') = size stream m in (n == 0, m')

-- `insert` and `erase` of a `std::set` of texts.
unfoldable pub add_id : Bytes → List Bytes → List Bytes
add_id c [] = c ∷ []
add_id c (d ∷ ds) = let rest = add_id c ds in if same_text d c then d ∷ ds else d ∷ rest

unfoldable pub del_id : Bytes → List Bytes → List Bytes
del_id c [] = []
del_id c (d ∷ ds) = let rest = del_id c ds in if same_text d c then rest else d ∷ rest

unfoldable pub add_client_id : Bytes → Bytes → SessionStat → SessionStat
unfolding insert_text clients_of add_id
add_client_id stream client m = insert_text stream (add_id client (clients_of stream m)) m

unfoldable pub del_client_id : Bytes → Bytes → SessionStat → SessionStat
unfolding insert_text clients_of del_id
del_client_id stream client m = insert_text stream (del_id client (clients_of stream m)) m

unfoldable pub release_stream : Bytes → SessionStat → SessionStat
unfolding erase_text
release_stream stream m = erase_text stream m

-- `m_setDeviceId`.
abbrev pub DeviceIds : Type 0
DeviceIds = Map (Unit {0})

abbrev pub is_in : Option (Unit {0}) → Bool
is_in none = false
is_in (some u) = true

-- `Exists`, `Insert` and `Remove` of `DeviceIdMgr`.
unfoldable pub exists : ℕ → DeviceIds → Bool
unfolding find
exists id m = is_in (find id m)

unfoldable pub add : ℕ → DeviceIds → DeviceIds
unfolding insert
add id m = insert id tt m

unfoldable pub remove : ℕ → DeviceIds → DeviceIds
unfolding erase
remove id m = erase id m

-- The overloads that take a text.
unfoldable pub get_device_id_from_str : Bytes → ℕ
unfolding generate_device_id
get_device_id_from_str text = generate_device_id text

abbrev pub exists_text : Bytes → DeviceIds → Bool
exists_text text m = exists (get_device_id_from_str text) m

abbrev pub add_text : Bytes → DeviceIds → DeviceIds
add_text text m = add (get_device_id_from_str text) m

abbrev pub remove_text : Bytes → DeviceIds → DeviceIds
remove_text text m = remove (get_device_id_from_str text) m
