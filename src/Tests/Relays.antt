-- ===== src/Tests/Relays.antt =====
-- What a subscriber sends to the forward server, clients that wait for packets, and notices to the service.
use multi_process_server.Base.{ℕ, ◌≡◌, refl, arith, Bool, true, false, List, [], ◌∷◌, some}
use multi_process_server.Ipc.Packet.{packet_size, invalid_pkt_seq_id, packet_bytes, le_bytes}
use multi_process_server.Ipc.Packet as Ipc
use multi_process_server.Ipc.Decoder.{Decoder, read_header}
use multi_process_server.Ipc.Decoder.Start.{IsReady}
use multi_process_server.Ipc.Reader.Ends.{IsReading, Finishes}
use multi_process_server.Jt1078.Server.{new_car}
use multi_process_server.Jt1078.Server.Kick.{AllOther}
use multi_process_server.Forward.Server.{new_server, Notice, command, no_subscriber}
use multi_process_server.Forward.Subscriber.Reading.{on_message-Finishes}
use multi_process_server.Forward.Subscriber.Reading as Subscriber
use multi_process_server.Web.Http.Server.{Server}
use multi_process_server.Pc.Server.{connected}
use multi_process_server.Service.{Service, serve_notices}
use multi_process_server.Service.Released.{cars_of, Tells, serve_notices-AllOther}
use multi_process_server.Tests.Cars.{exact}
use multi_process_server.Tests.Sending.{objects}

abbrev pub idle : Decoder
idle = record {
  buffer = record { buffer = []; read_index = 0; capacity = 100 };
  packet = Ipc.cleared;
  body = [];
  packet_capacity = 1024;
  howmuch = packet_size;
  read_status = read_header;
}

pub idle-IsReady : IsReady idle
idle-IsReady = record { sound = omega arith; at_header = refl; wants_header = refl }

idle-IsReading : IsReading idle
idle-IsReading = record { sound = omega arith; header = λ _. refl }

abbrev pub web : Server
web = record {
  client = connected;
  connect_timer = false;
  heartbeat_timer = true;
  device_ids = [];
  sessions = [];
  requests = [];
  tasks = [];
}

on_message-Finishes_example : Finishes (Subscriber.on_message exact (1 ∷ 2 ∷ 3 ∷ []) idle)
on_message-Finishes_example = on_message-Finishes exact (1 ∷ 2 ∷ 3 ∷ []) idle idle-IsReading

abbrev service : Service
service = record {
  realtime = record {
    cars = (1, record new_car { device_id = 0x55 }) ∷ (2, record new_car { device_id = 0x66 }) ∷ [];
    service = [];
  };
  history = record { cars = []; service = [] };
  forward_realtime = new_server true objects;
  forward_history = new_server false objects;
  commands = [];
}

abbrev notices : List Notice
notices = command 0x55 false true ∷ no_subscriber 0x55 true ∷ []

serve_notices-AllOther_example :
    (s' : Service) × (serve_notices ([], []) ([], []) notices service ≡ some s')
    × ((id : ℕ) (realtime : Bool) → Tells id realtime notices → AllOther id (cars_of realtime s'))
serve_notices-AllOther_example =
    serve_notices-AllOther ([], []) ([], []) notices service (omega arith, (omega arith, tt))
