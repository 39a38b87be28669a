-- ===== src/Ipc/Decoder.antt =====
-- core/ipc_packet/IpcPktDecoder.h and IpcPktDecoder.cpp: the decoder of the packets between the
-- servers. `m_packet_buffer` is a std::string that stays empty and is written to behind its back:
-- the header that stands there is `packet`, the data behind it `body`, and of its allocation only
-- `packet_capacity` counts. Outside the capacity, and through a reference that a reallocation has
-- left dangling, the behaviour is undefined: the model stops with a fault.
pub mod Start
pub mod Safety
use multi_process_server.Base.{
  ℕ, ◌+◌, ◌*◌, ◌/◌, ◌≤◌, min, Bool, true, false, not, List, [], ◌∷◌, ◌++◌, Option, none, some,
  Bytes, length, take, ltb, leb, ◌==◌, if◌then◌else◌,
}
use multi_process_server.Buffer.{Alloc, Buffer, empty, reserve, readable_bytes, get_buffer, skip}
use multi_process_server.Buffer.Push.{push}
use multi_process_server.Ipc.Packet.{Packet, cleared, packet_size, packet_at}

pub data ErrorType : Type 0 where
  no_error need_more_data buffer_full invalid_header : ErrorType

pub data ReadStatus : Type 0 where
  read_header read_body : ReadStatus

abbrev pub max_buffer_size : ℕ
max_buffer_size = 500 * 1024

pub record Decoder : Type 0 where
  pub buffer : Buffer
  pub packet : Packet
  pub body : Bytes
  pub packet_capacity : ℕ
  pub howmuch : ℕ
  pub read_status : ReadStatus

pub data Fault : Type 0 where
  use_after_free out_of_bounds : Fault

pub data Ran : Type 0 where
  fault : Fault → Ran
  returned : ErrorType → Decoder → Ran

-- `ParseBody`: the data and a zero behind it, at 16 bytes from the start of the packet buffer,
-- whose allocation has one byte more than its capacity.
unfoldable pub parse_body : Decoder → Ran
parse_body d =
    if ltb (readable_bytes d.buffer) d.howmuch
    then returned need_more_data d
    else if ltb d.packet_capacity (packet_size + d.howmuch)
    then fault out_of_bounds
    else returned no_error
        (record d { body = take d.howmuch (get_buffer d.buffer); buffer = skip d.howmuch d.buffer })

-- The second half of `Decode`.
abbrev pub finish : Ran → Ran
finish (returned no_error d) =
    returned no_error (record d { read_status = read_header; howmuch = packet_size })
finish r = r

module _ (alloc : Alloc) where
  -- `ParseHeader` from the header that it has found on: the error code, whether the packet buffer
  -- was reallocated, and the decoder.
  unfoldable pub take_header : Decoder → Packet → ErrorType × Bool × Decoder
  take_header d packet =
      let grows = ltb d.packet_capacity packet.data_length in
      let wanted = min packet.data_length (d.packet_capacity * 2) in
      if not (packet.head_length == packet_size) then (invalid_header, false, d) else (
        no_error,
        grows,
        record d {
          packet = packet;
          buffer = skip d.howmuch d.buffer;
          packet_capacity =
              if grows then Alloc.reserved alloc d.packet_capacity wanted else d.packet_capacity;
        },
      )

  unfoldable pub parse_header : Decoder → ErrorType × Bool × Decoder
  unfolding take_header packet_at
  parse_header d =
      if ltb (readable_bytes d.buffer) d.howmuch
      then (need_more_data, false, d)
      else take_header d (packet_at (get_buffer d.buffer))

  -- `m_howmuch = packet.m_uDataLength`, through the reference from before `ParseHeader`.
  abbrev pub header_done : ErrorType × Bool × Decoder → Ran
  header_done (no_error, true, d) = fault use_after_free
  header_done (no_error, false, d) =
      finish (parse_body (record d { read_status = read_body; howmuch = d.packet.data_length }))
  header_done (need_more_data, _, d) = returned need_more_data d
  header_done (buffer_full, _, d) = returned buffer_full d
  header_done (invalid_header, _, d) = returned invalid_header d

  abbrev pub decode_in : ReadStatus → Decoder → Ran
  decode_in read_header d = header_done (parse_header (record d { packet = cleared }))
  decode_in read_body d = finish (parse_body d)

  unfoldable pub decode : Decoder → Ran
  unfolding parse_header parse_body
  decode d = decode_in d.read_status d

  -- The constructor. `packet_capacity` is what the library allocates for `reserve(1024)`.
  unfoldable pub new_decoder : Decoder
  unfolding empty reserve
  new_decoder = record {
    buffer = reserve alloc (max_buffer_size / 4) (empty alloc);
    packet = cleared;
    body = [];
    packet_capacity = Alloc.reserved alloc 0 1024;
    howmuch = packet_size;
    read_status = read_header;
  }

  abbrev pub pushed : Decoder → Option Buffer → ErrorType × Decoder
  pushed d none = (buffer_full, d)
  pushed d (some b) = (no_error, record d { buffer = b })

  unfoldable pub push_buffer : Bytes → Decoder → ErrorType × Decoder
  unfolding push
  push_buffer new d = pushed d (push alloc max_buffer_size new d.buffer)
