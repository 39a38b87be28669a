-- ===== src/Tests/Watching.antt =====
-- A PC server with one client, that asks for the device 13800138000001 and is lost.
use multi_process_server.Base.{◌≡◌, refl, true, [], ◌∷◌, Bytes, find, some}
use multi_process_server.DeviceId.{
  generate_device_id, generate_device_id_str, is_space, digits, hex_digit, hex_char,
}
use multi_process_server.Pc.Publisher.{Objects}
use multi_process_server.Pc.Server.{
  Server, absent, connected, crashed, done, on_packet_completed, on_packet_error,
}
use multi_process_server.Pc.Server.Watch.{
  is_watching, on_packet_completed-Through, on_packet_error-crash,
}

abbrev sim : Bytes
sim = 0x13 ∷ 0x80 ∷ 0x01 ∷ 0x38 ∷ 0x00 ∷ 0x00 ∷ []

text_of_sim : generate_device_id (generate_device_id_str sim 1) ≡ 0x13800138000001
unfolding generate_device_id generate_device_id_str is_space digits hex_digit hex_char
text_of_sim = refl

abbrev text : Bytes
text = 49 ∷ 51 ∷ []

abbrev client_of : Bytes → Objects
client_of wanted id = record {
  session = record { can_write = true; pending = []; wire = []; replies = [] };
  device_id = wanted;
}

abbrev fresh : Server
fresh = record {
  client = connected;
  sessions = (5, tt) ∷ [];
  channels = [];
  objects = client_of [];
  requests = [];
}

on_packet_completed-Through_example :
    (s' : Server) × (on_packet_completed 5 0x40002 text fresh ≡ done s')
    × (s'.client ≡ connected)
    × (is_watching 5 text s' ≡ true)
on_packet_completed-Through_example =
    on_packet_completed-Through 5 0x40002 text fresh refl refl refl

abbrev cut_off : Server
cut_off = record {
  client = absent;
  sessions = (5, tt) ∷ [];
  channels = (0x13, (5, tt) ∷ []) ∷ [];
  objects = client_of text;
  requests = [];
}

alone_there :
    find (generate_device_id (cut_off.objects 5).device_id) cut_off.channels ≡ some ((5, tt) ∷ [])
unfolding find generate_device_id is_space digits hex_digit
alone_there = refl

on_packet_error-crash_example : on_packet_error 5 cut_off ≡ crashed
on_packet_error-crash_example = on_packet_error-crash 5 cut_off refl refl alone_there
