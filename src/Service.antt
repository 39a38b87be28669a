-- ===== src/Service.antt =====
-- jt1078/Jt1078Service.cpp: the service that joins the servers of the cars and the forward servers, each
-- for live and for recorded video, and the commands to the 808 server, the list `commands`, in order.
pub mod Released
pub mod Path
use multi_process_server.Base.{
  ℕ, ◌==◌, if◌then◌else◌, Bool, true, false, not, List, [], ◌∷◌, ◌++◌, Bytes, length, take, drop,
  Option, none, some, ◌>>=◌,
}
use multi_process_server.DeviceId.{generate_device_id_str_by_device_id}
use multi_process_server.Jt1078.Header.{Packet}
use multi_process_server.Jt1078.Server as Cars
use multi_process_server.Jt1078.Server.{disconnect_car}
use multi_process_server.Forward.Server as Forward
use multi_process_server.Forward.Server.{Notice, command, no_subscriber, publish_packet}

-- The numbers of the commands, as in their JSON.
pub data CommandId : Type 0 where
  open_live close_live close_replay : CommandId

-- The JSON of a command. The commands for live video have the address of the server, and "0" and "1" for
-- the kind of the data and of the stream.
pub record Command : Type 0 where
  pub address : Option (Bytes × Bytes)
  pub iccid : Bytes
  pub channel_no : Bytes
  pub command_id : CommandId

pub record Service : Type 0 where
  pub realtime : Cars.Server
  pub history : Cars.Server
  pub forward_realtime : Forward.Server
  pub forward_history : Forward.Server
  pub commands : List Command

-- `Notify1078Packet`.
unfoldable pub notify_1078_packet : ℕ → Packet → Bool → Service → Service
unfolding publish_packet
notify_1078_packet device_id p true s = record s {
  forward_realtime = publish_packet device_id p s.forward_realtime;
}
notify_1078_packet device_id p false s = record s {
  forward_history = publish_packet device_id p s.forward_history;
}

-- The channel without a zero in front.
abbrev pub without_zero : Bytes → Bytes
without_zero [] = []
without_zero (c ∷ []) = c ∷ []
without_zero (c ∷ d ∷ rest) = if c == 48 then d ∷ [] else c ∷ d ∷ rest

abbrev pub command_for : Bool → Bool → Bytes → Bytes → Bytes × Bytes → List Command
command_for true true sim channel address =
    record { address = some address; iccid = sim; channel_no = channel; command_id = open_live }
    ∷ []
command_for true false sim channel address =
    record { address = some address; iccid = sim; channel_no = channel; command_id = close_live }
    ∷ []
command_for false true sim channel address = []
command_for false false sim channel address =
    record { address = none; iccid = sim; channel_no = channel; command_id = close_replay } ∷ []

-- The domain and the port of a server, as texts.
module _ (live_address replay_address : Bytes × Bytes) where
  -- `SendCommandTo808`.
  unfoldable pub send_command_to_808 : Bytes → Bool → Bool → Service → Service
  send_command_to_808 text connect realtime s =
      let address = if realtime then live_address else replay_address in
      if not (length text == 14) then s else record s {
        commands =
            s.commands
            ++ command_for realtime connect (take 12 text) (without_zero (drop 12 text)) address;
      }

  -- `NotifyNoSubscriber`.
  unfoldable pub notify_no_subscriber : Bytes → Bool → Service → Service
  unfolding disconnect_car
  notify_no_subscriber text true s = record s { realtime = disconnect_car text s.realtime }
  notify_no_subscriber text false s = record s { history = disconnect_car text s.history }

  -- What a forward server asks for, with the text of the device id (`NotifyOpenCarTerminal` and
  -- `NotifyCloseCarTerminal`); `none` is a write outside the array of this text.
  abbrev pub with_text : Notice → Option Bytes → Service → Option Service
  with_text n none s = none
  with_text (command id connect realtime) (some text) s =
      some (send_command_to_808 text connect realtime s)
  with_text (no_subscriber id realtime) (some text) s = some (notify_no_subscriber text realtime s)

  abbrev pub device_of : Notice → ℕ
  device_of (command id connect realtime) = id
  device_of (no_subscriber id realtime) = id

  unfoldable pub serve_notice : Notice → Service → Option Service
  unfolding send_command_to_808 notify_no_subscriber generate_device_id_str_by_device_id
  serve_notice n s = with_text n (generate_device_id_str_by_device_id (device_of n)) s

  unfoldable pub serve_notices : List Notice → Service → Option Service
  unfolding serve_notice
  serve_notices [] s = some s
  serve_notices (n ∷ ns) s = serve_notice n s >>= serve_notices ns
