-- ===== src/Jt1078/Decoder.antt =====
-- jt1078/jt1078_server/Jt1078Decoder.h and Jt1078Decoder.cpp: the decoder of the packets that a
-- car sends. `decode` takes one packet from the buffer in three steps, and keeps its place
-- between two calls where bytes are missing.
pub mod Steps
pub mod Invariant
pub mod Ahead
pub mod Prefix
pub mod Resume
pub mod Wire
pub mod Timing
pub mod Frame
use multi_process_server.Base.{
  ℕ, zero, suc, ◌+◌, ◌*◌, ◌/◌, ◌%◌, ◌≤◌, Bool, true, false, ◌||◌, not, List, [], ◌∷◌, ◌++◌, Option,
  none, some, Bytes, length, take, drop, replicate, ltb, leb, ◌==◌, if◌then◌else◌,
}
use multi_process_server.Buffer.{
  Alloc, Buffer, empty, reserve, readable_bytes, get_buffer, read_buffer,
}
use multi_process_server.Buffer.Push.{push}
use multi_process_server.Jt1078.Header.{
  Header, Packet, cleared, clear, jt1078_max_length, jt_1078_head_mark, data_type_video_i,
  data_type_video_p, data_type_video_b, data_type_audio, data_type_route,
}
use multi_process_server.Jt1078.Scan.{
  ErrorType, no_error, need_more_data, buffer_full, invalid_header, body_length_invalid, Reader,
  Scanned, abort, stop, next, Scan, ◌>>=◌, ◌>>◌, pure, current, update, require, need, integer,
  bytes,
}

abbrev pub max_buffer_size : ℕ
max_buffer_size = 500 * 1024

abbrev pub read_size_for_header_first : ℕ
read_size_for_header_first = 16

abbrev pub read_min_size_for_header_second : ℕ
read_min_size_for_header_second = 2

abbrev pub read_video_size_for_header_second : ℕ
read_video_size_for_header_second = 14

abbrev pub read_audio_size_for_header_second : ℕ
read_audio_size_for_header_second = 10

-- `max(JT1078_MAX_LENGTH + 1, 1024)` bytes for the body.
abbrev pub body_capacity : ℕ
body_capacity = 1024

pub data ReadStatus : Type 0 where
  read_header_step1 read_header_step2 read_body : ReadStatus

pub record Decoder : Type 0 where
  pub buffer : Buffer
  pub packet : Packet
  pub howmuch : ℕ
  pub read_status : ReadStatus

unfoldable pub is_support_coding_type : ℕ → Bool
is_support_coding_type t = t == 6 || t == 7 || t == 8 || t == 26 || t == 91 || t == 98

abbrev pub is_video_type : ℕ → Bool
is_video_type t = t == data_type_video_i || t == data_type_video_p || t == data_type_video_b

-- Bytes 0 to 4: the mark, and the four fields that have one value only.
unfoldable pub fixed_fields : Scan (Unit {0})
fixed_fields = do
  mark ← integer 4
  update (λ h. record h { frame_head_mark = mark })
  require (mark == jt_1078_head_mark)
  octet ← integer 1
  update (λ h. record h { v2 = octet / 64 % 4 })
  require (octet / 64 % 4 == 2)
  update (λ h. record h { p1 = octet / 32 % 2 })
  require (octet / 32 % 2 == 0)
  update (λ h. record h { x1 = octet / 16 % 2 })
  require (octet / 16 % 2 == 0)
  update (λ h. record h { cc4 = octet % 16 })
  require (octet % 16 == 1)

-- Bytes 5 to 15.
unfoldable pub describing_fields : Scan (Unit {0})
unfolding is_support_coding_type
describing_fields = do
  octet ← integer 1
  update (λ h. record h { m1 = octet / 128 % 2; pt7 = octet % 128 })
  require (is_support_coding_type (octet % 128))
  sequence ← integer 2
  update (λ h. record h { package_sequence = sequence })
  sim ← bytes 6
  update (λ h. record h { sim_card_number = sim })
  channel ← integer 1
  update (λ h. record h { logic_channel_number = channel })
  kinds ← integer 1
  update (λ h. record h { data_type4 = kinds / 16 % 16 })
  require (
      is_video_type (kinds / 16 % 16)
      || kinds / 16 % 16 == data_type_audio
      || kinds / 16 % 16 == data_type_route)
  update (λ h. record h { subpackage_handle_mark4 = kinds % 16 })
  require (leb (kinds % 16) 3)

unfoldable pub parse_header_step1 : ℕ → Scan (Unit {0})
unfolding fixed_fields describing_fields
parse_header_step1 howmuch = do need howmuch; fixed_fields; describing_fields

unfoldable pub video_fields : Scan (Unit {0})
video_fields = do
  stamp ← integer 8
  update (λ h. record h { time_stamp = stamp })
  last_i ← integer 2
  update (λ h. record h { last_i_frame_interval = last_i })
  last ← integer 2
  update (λ h. record h { last_frame_interval = last })

unfoldable pub audio_fields : Scan (Unit {0})
audio_fields = do stamp ← integer 8; update (λ h. record h { time_stamp = stamp })

unfoldable pub body_length : Scan (Unit {0})
body_length = do
  len ← integer 2
  update (λ h. record h { body_len = len })
  require (leb len jt1078_max_length)

-- The fields in front of the body length, which depend on the data type.
unfoldable pub timing_fields : ℕ → Scan (Unit {0})
unfolding video_fields audio_fields
timing_fields t =
    if is_video_type t
    then (do need read_video_size_for_header_second; video_fields)
    else if t == data_type_audio
    then (do need read_audio_size_for_header_second; audio_fields)
    else require (t == data_type_route)

unfoldable pub parse_header_step2 : ℕ → Scan (Unit {0})
unfolding timing_fields body_length
parse_header_step2 howmuch = do need howmuch; h ← current; timing_fields h.data_type4; body_length

-- How one round of the loop in `Decode` ends. A write past the end of the body aborts.
pub data Turn : Type 0 where
  crash : Turn
  again : Decoder → Turn
  leave : ErrorType → Decoder → Turn

abbrev pub reader : Decoder → Header → Reader
reader d h = record { header = h; input = d.buffer }

abbrev pub store : Decoder → Reader → Decoder
store d r = record d { buffer = r.input; packet = record d.packet { header = r.header } }

-- `store` and the next step of the header, or the end of the loop.
abbrev pub proceed : Decoder → (Header → ℕ) → ReadStatus → Scanned (Unit {0}) → Turn
proceed d howmuch status abort = crash
proceed d howmuch status (stop e r) = leave e (store d r)
proceed d howmuch status (next _ r) =
    again (record (store d r) { howmuch = howmuch r.header; read_status = status })

-- The array after `ReadBuffer` into it and the zero behind what was read.
abbrev pub overwrite : Bytes → Bytes → Bytes
overwrite new old = new ++ 0 ∷ drop (length new + 1) old

-- The body is there: `ReadBuffer` into the array, and the terminating zero.
abbrev pub store_body : Decoder → Option (Bytes × Buffer) → Turn
store_body d none = crash
store_body d (some (body, b)) = leave no_error (record d {
  buffer = b;
  packet = record d.packet { body = overwrite body d.packet.body };
  howmuch = read_size_for_header_first;
  read_status = read_header_step1;
})

unfoldable pub parse_body : Decoder → Turn
parse_body d =
    if ltb (readable_bytes d.buffer) d.howmuch
    then leave need_more_data d
    else if ltb d.howmuch (length d.packet.body)
    then store_body d (read_buffer d.howmuch d.buffer)
    else crash

abbrev pub turn_in : ReadStatus → Decoder → Turn
turn_in read_header_step1 d =
    let d' = record d { packet = clear d.packet } in
    proceed d' (λ h. read_min_size_for_header_second) read_header_step2
      (parse_header_step1 d.howmuch (reader d' d'.packet.header))
turn_in read_header_step2 d =
    proceed d (λ h. h.body_len) read_body (parse_header_step2 d.howmuch (reader d d.packet.header))
turn_in read_body d = parse_body d

-- The result of a loop: `out_of_fuel` stands for a loop that goes on.
pub data Ran (S : Type 0) : Type 0 where
  crashed : Ran S
  out_of_fuel : Ran S
  returned : ErrorType → S → Ran S

-- The loop goes on with `rest`, or returns.
abbrev pub follow : (Decoder → Ran Decoder) → Turn → Ran Decoder
follow rest crash = crashed
follow rest (again d) = rest d
follow rest (leave e d) = returned e d

unfoldable pub decode_loop : ℕ → Decoder → Ran Decoder
unfolding parse_header_step1 parse_header_step2 parse_body clear
decode_loop zero d = out_of_fuel
decode_loop (suc fuel) d = follow (decode_loop fuel) (turn_in d.read_status d)

-- Three rounds are enough: each but the last goes one status on.
unfoldable pub decode : Decoder → Ran Decoder
unfolding decode_loop
decode d = decode_loop 3 d

abbrev pub pushed : Decoder → Option Buffer → ErrorType × Decoder
pushed d none = (buffer_full, d)
pushed d (some b) = (no_error, record d { buffer = b })

module _ (alloc : Alloc) where
  unfoldable pub new_decoder : Decoder
  unfolding empty reserve
  new_decoder = record {
    buffer = reserve alloc (max_buffer_size / 4) (empty alloc);
    packet = record { header = cleared; body = replicate body_capacity 0 };
    howmuch = read_size_for_header_first;
    read_status = read_header_step1;
  }

  -- `PushBuffer`: the error code, and the decoder with the new bytes unless it is full.
  unfoldable pub push_buffer : Bytes → Decoder → ErrorType × Decoder
  unfolding push
  push_buffer new d = pushed d (push alloc max_buffer_size new d.buffer)
