-- ===== src/Ipc/Decoder/Start.antt =====
-- IpcPktDecoder.cpp: the header and the data of a packet, each of which stands in the buffer as a whole.
use multi_process_server.Base.{
  ◌+◌, ◌*◌, ◌≤◌, ◌<◌, min, ◌≡◌, refl, sym, ap, ◌∙◌, ltb, if◌then◌else◌, lt→ltb, le→ltb, ==_iff,
  arith, ◌++◌, Bytes, length, drop, length-append, take-length, drop-length,
}
use multi_process_server.Buffer.{Alloc, Buffer, get_buffer, skip}
use multi_process_server.Buffer.Contents.{
  IsReadable, readable, readable_bytes-length, readable-skip,
}
use multi_process_server.Ipc.Packet.{
  Packet, cleared, packet_size, packet_bytes, packet_at, IsPacket, packet_at-packet_bytes,
  length-packet_bytes,
}
use multi_process_server.Ipc.Decoder.{
  no_error, Decoder, read_header, read_body, fault, returned, out_of_bounds, parse_body, finish,
  parse_header, take_header, header_done, decode_in, decode,
}

pub get_buffer_lem : (b : Buffer) → get_buffer b ≡ readable b
unfolding get_buffer
get_buffer_lem b = refl

module _ (d : Decoder) (sound : IsReadable d.buffer) where
  pub parse_body_whole :
      (data_bytes rest : Bytes)
      → readable d.buffer ≡ data_bytes ++ rest
      → length data_bytes ≡ d.howmuch
      → packet_size + d.howmuch ≤ d.packet_capacity
      → parse_body d
        ≡ returned no_error (record d { body = data_bytes; buffer = skip d.howmuch d.buffer })
  unfolding parse_body
  parse_body_whole data_bytes rest e size room = rw (
    readable_bytes-length d.buffer sound,
    le→ltb (length (readable d.buffer)) d.howmuch
        (omega (arith, ap length e, length-append data_bytes rest, size)),
    le→ltb d.packet_capacity (packet_size + d.howmuch) room,
    get_buffer_lem d.buffer,
    e,
    ← size,
    take-length data_bytes rest,
  )

  pub parse_body_outside :
      d.howmuch ≤ length (readable d.buffer)
      → d.packet_capacity < packet_size + d.howmuch
      → parse_body d ≡ fault out_of_bounds
  unfolding parse_body
  parse_body_outside whole small = rw (
    readable_bytes-length d.buffer sound,
    le→ltb (length (readable d.buffer)) d.howmuch whole,
    lt→ltb d.packet_capacity (packet_size + d.howmuch) small,
  )

-- The decoder waits for the header of a packet.
pub record IsReady (d : Decoder) : Type 0 where
  pub sound : IsReadable d.buffer
  pub at_header : d.read_status ≡ read_header
  pub wants_header : d.howmuch ≡ packet_size

module _ (alloc : Alloc) (d : Decoder) (p : Packet) where
  -- The decoder that has taken `p` from the buffer.
  unfoldable pub taken : Decoder
  taken = record d {
    packet = p;
    buffer = skip d.howmuch d.buffer;
    packet_capacity =
        if ltb d.packet_capacity p.data_length
        then Alloc.reserved alloc d.packet_capacity (min p.data_length (d.packet_capacity * 2))
        else d.packet_capacity;
  }

  take_header_lem :
      p.head_length ≡ packet_size
      → take_header alloc d p ≡ (no_error, ltb d.packet_capacity p.data_length, taken)
  unfolding take_header taken
  take_header_lem head = rw ((==_iff p.head_length packet_size).1 head)

  pub parse_header_whole :
      (rest : Bytes)
      → IsReadable d.buffer
      → d.howmuch ≡ packet_size
      → IsPacket p
      → p.head_length ≡ packet_size
      → readable d.buffer ≡ packet_bytes p ++ rest
      → parse_header alloc d ≡ (no_error, ltb d.packet_capacity p.data_length, taken)
  unfolding parse_header
  parse_header_whole rest sound size v head e =
      let room : packet_size ≤ length (readable d.buffer) =
        omega (arith, ap length e, length-append (packet_bytes p) rest, length-packet_bytes p) in
      let found : packet_at (get_buffer d.buffer) ≡ p =
        ap packet_at (get_buffer_lem d.buffer ∙ e) ∙ packet_at-packet_bytes p rest v in
      rw
        (
          readable_bytes-length d.buffer sound,
          le→ltb (length (readable d.buffer)) d.howmuch (omega (arith, room, size)),
        )
        (ap (take_header alloc d) found ∙ take_header_lem head)

  pub behind_header :
      (rest : Bytes)
      → d.howmuch ≡ packet_size
      → readable d.buffer ≡ packet_bytes p ++ rest
      → readable (skip d.howmuch d.buffer) ≡ rest
  behind_header rest size e =
      readable-skip d.howmuch d.buffer
      ∙ ap (λ n. drop n (readable d.buffer)) (size ∙ sym (length-packet_bytes p))
      ∙ ap (drop (length (packet_bytes p))) e
      ∙ drop-length (packet_bytes p) rest

-- The decoder between the header of `p` and its body, where the packet buffer has not grown.
unfoldable pub between : Decoder → Packet → Decoder
between d p = record d {
  packet = p;
  buffer = skip d.howmuch d.buffer;
  howmuch = p.data_length;
  read_status = read_body;
}

-- A decoder that waits for a header, and has one in front of it whose data fits, goes on to its data.
pub header_fitting :
    (alloc : Alloc) (d : Decoder) (p : Packet) (rest : Bytes)
    → IsReady d
    → IsPacket p
    → p.head_length ≡ packet_size
    → readable d.buffer ≡ packet_bytes p ++ rest
    → p.data_length ≤ d.packet_capacity
    → decode alloc d ≡ finish (parse_body (between d p))
unfolding decode taken between
header_fitting alloc d p rest ready v head e room =
    let started = record d { packet = cleared } in
    ap (λ s. decode_in alloc s d) ready.at_header
    ∙ ap (header_done alloc)
        (parse_header_whole alloc started p rest ready.sound ready.wants_header v head e)
    ∙ rw (le→ltb d.packet_capacity p.data_length room, taken) refl
