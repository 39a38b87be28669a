-- ===== src/Tests/Rtmp.antt =====
-- web_server/rtmp with a muxer that keeps what it is handed.
use multi_process_server.Base.{
  ℕ, ◌≤◌, ◌<◌, signed, ◌≡◌, refl, arith, true, List, [], ◌∷◌, ◌++◌, map, concat, Bytes, replicate,
  some, ◌>>=◌, pos,
}
use multi_process_server.DeviceId.{generate_device_id, generate_device_id_str_by_device_id}
use multi_process_server.DeviceId.Text.{generate_device_id-generate_device_id_str_by_device_id}
use multi_process_server.Jt1078.Header.{Header, cleared, payload}
use multi_process_server.Jt1078.Header as Car
use multi_process_server.Ipc.Packet.{le_bytes}
use multi_process_server.Forward.Subscriber.{header_bytes}
use multi_process_server.Web.Audio.Codec.{new_codec, look, behind_header, have_hai_si_header}
use multi_process_server.Web.Rtmp.Stream.{
  Packet, Media, Stream, new_stream, opened, got_packet, is_idr_frame1, is_idr_frame2, video,
}
use multi_process_server.Web.Rtmp.Stream.Observed.{Observer, Collected, Encoded}
use multi_process_server.Web.Rtmp.Stream.Frames.{all_bytes, write_all, write_all-Encoded}
use multi_process_server.Web.Rtmp.Stream.Key.{any_key, is_idr_frame1-any_key}
use multi_process_server.Web.Rtmp.Client.{
  Client, new_client, process_packet, process_audio, process_jt1078_packet,
}
use multi_process_server.Web.Rtmp.Client.Whole.{IsOpen, run, settle, without_parts, run-frame}
use multi_process_server.Web.Rtmp.Stream.Video.{handed}
use multi_process_server.Web.Rtmp.Client.Memory.{
  Settled, Survived, process_packet-Survived, process_audio-Settled,
}
use multi_process_server.Web.Rtmp.Thread.{Task, device_id_at, packet_behind, handler_task}
use multi_process_server.Web.Rtmp.Thread.Layout.{IsHeader, packet_behind-relayed}
use multi_process_server.Web.Rtmp.Thread.Devices.{Kept, handler_task-Kept}
use multi_process_server.Tests.Audio.{coders, coders-Fills}

abbrev media : Media
media = record {
  State = List Packet;
  connect = λ url s. (opened, s);
  raw_buff_size = 2048;
  nb_samples = 1024;
  swr_convert = λ frame s. (true, s);
  encode_audio = λ n s. (got_packet, s);
  write_frame = λ p s. (true, s ++ p ∷ []);
}

abbrev two_pieces : List (Bytes × ℕ)
two_pieces = (replicate 1500 7, 100) ∷ (replicate 1500 8, 140) ∷ []

-- A converter that keeps its bytes, and an encoder that keeps its numbers.
abbrev keeping : Media
keeping = record {
  State = Bytes × List ℕ;
  connect = λ url s. (opened, s);
  raw_buff_size = 2048;
  nb_samples = 1024;
  swr_convert = λ frame s. (true, (s.0 ++ frame, s.1));
  encode_audio = λ n s. (got_packet, (s.0, s.1 ++ n ∷ []));
  write_frame = λ p s. (true, s);
}

abbrev keeper : Observer keeping
keeper = record {
  taken = λ s. s.0;
  encoded = λ s. s.1;
  converts = λ frame s. refl;
  convert-taken = λ frame s. refl;
  convert-encoded = λ frame s. refl;
  encode-taken = λ n s. refl;
  encode-encoded = λ n s. refl;
  write-taken = λ p s. refl;
  write-encoded = λ p s. refl;
}

write_all-Encoded_example :
    (frames : ℕ) × (after : Stream (Bytes × List ℕ)) × Collected keeping frames after
      (all_bytes keeping two_pieces)
      (new_stream keeping ([], []))
      (write_all keeping two_pieces (new_stream keeping ([], [])))
    × Encoded keeping keeper frames after
        (all_bytes keeping two_pieces)
        (new_stream keeping ([], []))
write_all-Encoded_example =
    write_all-Encoded keeping (omega arith) keeper two_pieces (new_stream keeping ([], []))
      (omega arith) (omega arith, (omega arith, tt))

abbrev key_frame : Bytes
key_frame = 0 ∷ 0 ∷ 0 ∷ 1 ∷ 0x67 ∷ 0 ∷ 0 ∷ 1 ∷ 0x65 ∷ []

is_idr_frame1-any_key_example : is_idr_frame1 key_frame ≡ any_key key_frame 7 2
is_idr_frame1-any_key_example = is_idr_frame1-any_key key_frame

abbrev first_part : Car.Packet
first_part = record {
  header = record cleared { subpackage_handle_mark4 = 1; time_stamp = 500; body_len = 2 };
  body = 0 ∷ 0 ∷ 9 ∷ [];
}

abbrev last_part : Car.Packet
last_part = record {
  header = record cleared { subpackage_handle_mark4 = 2; time_stamp = 500; body_len = 3 };
  body = 1 ∷ 0x65 ∷ 4 ∷ [];
}

abbrev client : Client coders media
client = record (new_client coders media 7 (114 ∷ []) []) {
  stream = record (new_stream media []) { connected = true };
}

client-IsOpen : IsOpen coders media client
unfolding new_client
client-IsOpen = record { has_prefix = refl; connected = refl }

abbrev whole_frame : Bytes
whole_frame = concat (map payload (first_part ∷ last_part ∷ []))

run-frame_example :
    let result = run coders media (first_part ∷ []) client >>= λ (n, c).
    process_jt1078_packet coders media last_part c in
    (0 ≤ 500
      → result
        ≡ settle coders media 500
            (without_parts coders media client (handed media whole_frame 500 client.stream)))
    × (500 < 0 → result ≡ settle coders media 500 (true, record client { video_buffer = [] }))
unfolding new_client
run-frame_example =
    run-frame coders media (first_part ∷ []) last_part client client-IsOpen refl (refl, refl, tt)
      refl refl

-- The muxer is handed the frame as a key frame of the time 0.
handed_to_muxer :
    (handed media whole_frame 500 client.stream).1.media
    ≡ video (pos 0) 500 true (0 ∷ 0 ∷ 1 ∷ 0x65 ∷ 4 ∷ []) ∷ []
unfolding new_client is_idr_frame2 signed
handed_to_muxer = refl

abbrev silence : Car.Packet
silence = record {
  header = record cleared { data_type4 = 3; pt7 = 6; time_stamp = 520; body_len = 2 };
  body = 213 ∷ 213 ∷ [];
}

process_packet-Survived_example :
    Survived coders coders-Fills media refl (process_packet coders media silence client)
unfolding new_client new_codec look behind_header have_hai_si_header
process_packet-Survived_example =
    process_packet-Survived coders coders-Fills media refl silence client (omega arith)
      (λ _. (tt, omega arith))

process_audio-Settled_example :
    (c : Client coders media) × (process_audio coders media silence client ≡ some (pos 0, c))
    × Settled coders coders-Fills media refl c
unfolding new_client new_codec look behind_header have_hai_si_header
process_audio-Settled_example =
    process_audio-Settled coders coders-Fills media refl silence client (omega arith)
      (tt, omega arith)

abbrev header : Header
header = record cleared { data_type4 = 3; pt7 = 6; time_stamp = 520; body_len = 2 }

header-IsHeader : IsHeader header
header-IsHeader = record {
  mark_fits = omega arith;
  v2_fits = omega arith;
  p1_fits = omega arith;
  x1_fits = omega arith;
  cc4_fits = omega arith;
  m1_fits = omega arith;
  pt7_fits = omega arith;
  sequence_fits = omega arith;
  data_type_fits = omega arith;
  subpackage_fits = omega arith;
  time_fits = omega arith;
  last_i_fits = omega arith;
  last_fits = omega arith;
  body_len_fits = omega arith;
  a = 0;
  b = 0;
  c = 0;
  d = 0;
  e = 0;
  f = 0;
  sim = refl;
}

packet_behind-relayed_example :
    let relayed = le_bytes 8 77 ++ (header_bytes header ++ 5 ∷ 6 ∷ []) in
    (device_id_at relayed ≡ 77)
    × (packet_behind relayed ≡ some (record { header = header; body = 5 ∷ 6 ∷ [] }))
packet_behind-relayed_example =
    packet_behind-relayed 77 header (5 ∷ 6 ∷ []) (omega arith) header-IsHeader refl

-- The forward server asks to open the stream of the device 0x12.
abbrev task : Task
task = record { pkt_type = 2; data_bytes = 49 ∷ 50 ∷ [] }

handler_task-Kept_example :
    Kept coders media
      (114 ∷ [])
      []
      7
      ((7, client) ∷ [])
      (handler_task coders media (114 ∷ []) [] task ((7, client) ∷ []))
unfolding generate_device_id
handler_task-Kept_example =
    handler_task-Kept coders media (114 ∷ []) [] 7 ((7, client) ∷ []) task refl

generate_device_id-generate_device_id_str_by_device_id_example :
    (text : Bytes) × (generate_device_id_str_by_device_id 77 ≡ some text)
    × (generate_device_id text ≡ 77)
generate_device_id-generate_device_id_str_by_device_id_example =
    generate_device_id-generate_device_id_str_by_device_id 77 (omega arith)
