-- ===== src/Tests/Packets.antt =====
-- A connection of a car on which one packet of audio arrives in three reads.
use multi_process_server.Base.{ℕ, ◌≡◌, refl, arith, [], ◌∷◌, map, big_endian}
use multi_process_server.Buffer.{empty, reserve}
use multi_process_server.Jt1078.Decoder.{new_decoder, is_support_coding_type}
use multi_process_server.Jt1078.Decoder.Timing.{Timing}
use multi_process_server.Jt1078.Decoder.Frame.{Frame, IsFrame}
use multi_process_server.Jt1078.CarSession.{feed}
use multi_process_server.Jt1078.CarSession.Frames.{shown, expected, feed-frames}
use multi_process_server.DeviceId.{
  generate_device_id, generate_device_id_str, is_space, digits, hex_digit,
}
use multi_process_server.Jt1078.Server.{Server, new_car, process}
use multi_process_server.Jt1078.Server.Relay.{view, sent, process-feed}
use multi_process_server.Tests.Cars.{exact, fresh, fresh-IsIdle, in_parts}

abbrev pub sent_frame : Frame
sent_frame = record {
  octet = 0x86;
  hi = 0;
  lo = 7;
  sim = 1 ∷ 0x38 ∷ 0x12 ∷ 0x34 ∷ 0x56 ∷ 0x78 ∷ [];
  channel = 2;
  kinds = 0x30;
  timing = Timing.audio (0 ∷ 0 ∷ 0 ∷ 0 ∷ 0 ∷ 0 ∷ 1 ∷ 0 ∷ []);
  length_hi = 0;
  length_lo = 3;
  body = 9 ∷ 8 ∷ 7 ∷ [];
}

pub sent_frame-IsFrame : IsFrame sent_frame
unfolding is_support_coding_type big_endian
sent_frame-IsFrame = record {
  coding = refl;
  six = refl;
  kind = refl;
  mark = omega arith;
  has_timing = (refl, refl);
  announced = refl;
  small = omega arith;
}

feed-frames_example : map shown (feed exact in_parts fresh) ≡ map expected (sent_frame ∷ [])
unfolding new_decoder empty reserve
feed-frames_example =
    feed-frames exact (sent_frame ∷ []) in_parts fresh fresh-IsIdle refl refl
      (sent_frame-IsFrame, tt) (omega arith, (omega arith, (omega arith, tt))) refl

-- "01381234567802" as a hexadecimal number.
abbrev pub device : ℕ
device = 0x01381234567802

process-feed_example :
    map view (process (feed exact in_parts fresh) new_car).notified
    ≡ map (sent device) (sent_frame ∷ [])
unfolding new_decoder empty reserve generate_device_id generate_device_id_str is_space digits
    hex_digit big_endian
process-feed_example =
    process-feed exact device (sent_frame ∷ []) in_parts fresh refl (refl, tt) fresh-IsIdle refl
      refl (sent_frame-IsFrame, tt) (omega arith, (omega arith, (omega arith, tt))) refl

abbrev two_cars : Server
two_cars = record {
  cars = (1, record new_car { device_id = 5 }) ∷ (2, record new_car { device_id = 6 }) ∷ [];
  service = [];
}
