-- ===== src/Jt1078/Server.antt =====
-- jt1078/jt1078_server: Jt1078Server.cpp, CarManager.cpp and the device id of CarSession.cpp. The cars
-- stand under their session ids.
use multi_process_server.Base.{
  ℕ, ◌==◌, if◌then◌else◌, Bool, true, false, ◌||◌, List, [], ◌∷◌, ◌++◌, Bytes, length, Map, find,
  insert, erase, Option, none, some,
}
use multi_process_server.DeviceId.{generate_device_id, generate_device_id_str}
use multi_process_server.Jt1078.Header.{Header, Packet}
use multi_process_server.Jt1078.CarSession.{
  Event, packet_complete, packet_error, TcpErrorType, disconnect, net_error, user_buffer_full,
  invalid_packet,
}
pub mod Relay
pub mod Kick

pub data CarDisconnectCause : Type 0 where
  unknown_cause remote_close read_error invalid_jt1078_pkt invalid_device_id : CarDisconnectCause
  first_receive_timeout handler_error web_close srs_publish_error kick_car : CarDisconnectCause
  no_subscriber other_cause : CarDisconnectCause

-- The members of `CarSession` besides its decoder.
pub record Car : Type 0 where
  pub device_id : ℕ
  pub device_text : Bytes
  pub cause : CarDisconnectCause

abbrev pub invalid_device_id_number : ℕ
invalid_device_id_number = 0

abbrev pub new_car : Car
new_car = record { device_id = invalid_device_id_number; device_text = []; cause = unknown_cause }

-- `UpdateDeviceIdIfEmpty` with the fields of the header of a packet.
unfoldable pub update_device_id_if_empty : Header → Car → Car
unfolding generate_device_id generate_device_id_str
update_device_id_if_empty h c =
    let text = generate_device_id_str h.sim_card_number h.logic_channel_number in
    if c.device_id == invalid_device_id_number || length c.device_text == 0
    then record c { device_text = text; device_id = generate_device_id text }
    else c

-- `OnPacketCompleted`: what the service is notified of.
abbrev pub on_packet_completed : Packet → Car → Car × (ℕ × Packet)
on_packet_completed p c = let c' = update_device_id_if_empty p.header c in (c', (c'.device_id, p))

-- The cause that `OnPacketError` keeps; from a read error it goes on to the default case.
abbrev pub cause_of : TcpErrorType → CarDisconnectCause
cause_of disconnect = remote_close
cause_of invalid_packet = invalid_jt1078_pkt
cause_of net_error = read_error
cause_of user_buffer_full = read_error

-- The events of a connection, with the notifications; `true` where the car is removed.
pub record Served : Type 0 where
  pub car : Car
  pub notified : List (ℕ × Packet)
  pub removed : Bool

abbrev pub put_front : ℕ × Packet → Served → Served
put_front n r = record r { notified = n ∷ r.notified }

unfoldable pub process : List Event → Car → Served
unfolding update_device_id_if_empty
process [] c = record { car = c; notified = []; removed = false }
process (packet_complete p ∷ es) c =
    let (c', n) = on_packet_completed p c in put_front n (process es c')
process (packet_error e ∷ es) c = record (process es (record c { cause = cause_of e })) {
  removed = true;
}

pub record Server : Type 0 where
  pub cars : Map Car
  pub service : List (ℕ × Packet)

-- `OnNewConnection`, where `Init` succeeds.
unfoldable pub on_new_connection : ℕ → Server → Server
unfolding insert
on_new_connection id s = record s { cars = insert id new_car s.cars }

-- The car afterwards, where the manager has it.
abbrev pub update_car : ℕ → Car → Map Car → Option Car → Map Car
update_car id c m none = m
update_car id c m (some old) = insert id c m

-- The handlers of the events of a car, which is removed at an error (`DelCar`).
unfoldable pub serve : ℕ → List Event → Car → Server → Server
unfolding find insert erase process
serve id es c s =
    let r = process es c in
    record s {
      cars = if r.removed then erase id s.cars else update_car id r.car s.cars (find id s.cars);
      service = s.service ++ r.notified;
    }

-- `DelCarByDeviceId`: the cars that stay.
unfoldable pub del_car_by_device_id : ℕ → Map Car → Map Car
del_car_by_device_id device_id [] = []
del_car_by_device_id device_id ((j, c) ∷ m) =
    let rest = del_car_by_device_id device_id m in
    if c.device_id == device_id then rest else (j, c) ∷ rest

unfoldable pub disconnect_car : Bytes → Server → Server
unfolding del_car_by_device_id generate_device_id
disconnect_car text s = record s { cars = del_car_by_device_id (generate_device_id text) s.cars }
