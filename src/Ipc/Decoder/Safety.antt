-- ===== src/Ipc/Decoder/Safety.antt =====
-- IpcPktDecoder.cpp: which packets the decoder takes in, and which make it leave its allocation.
use multi_process_server.Base.{
  ◌+◌, ◌≤◌, ◌<◌, ◌≡◌, refl, sym, ap, ◌∙◌, inl, inr, ltb, Bool-cases, ltb→le, arith, ◌++◌, Bytes,
  length, drop, length-append, drop-length,
}
use multi_process_server.Buffer.{Alloc, skip}
use multi_process_server.Buffer.Contents.{IsReadable, readable, readable-skip, skip-IsReadable}
use multi_process_server.Ipc.Packet.{
  Packet, cleared, packet_size, packet_bytes, IsPacket, length-packet_bytes,
}
use multi_process_server.Ipc.Decoder.{
  no_error, Decoder, read_header, fault, returned, Fault, use_after_free, out_of_bounds, parse_body,
  finish, header_done, decode_in, decode,
}
use multi_process_server.Ipc.Decoder.Start.{
  parse_body_whole, parse_body_outside, IsReady, taken, parse_header_whole, behind_header, between,
  header_fitting,
}

module _ (alloc : Alloc) (d : Decoder) (p : Packet) (data_bytes rest : Bytes) where
  -- `d` reads a packet of its own layout and the data that the packet announces.
  pub record Incoming : Type 0 where
    pub ready : IsReady d
    pub packet_fits : IsPacket p
    pub head : p.head_length ≡ packet_size
    pub announced : length data_bytes ≡ p.data_length
    pub content : readable d.buffer ≡ packet_bytes p ++ (data_bytes ++ rest)

  abbrev started : Decoder
  started = record d { packet = cleared }

  decode_header :
      Incoming
      → decode alloc d
        ≡ header_done alloc (no_error, ltb d.packet_capacity p.data_length, taken alloc started p)
  unfolding decode
  decode_header i =
      ap (λ s. decode_in alloc s d) i.ready.at_header
      ∙ ap (header_done alloc) (
          parse_header_whole alloc started p (data_bytes ++ rest) i.ready.sound i.ready.wants_header
            i.packet_fits i.head i.content)

  header_of_fitting :
      Incoming
      → p.data_length ≤ d.packet_capacity
      → decode alloc d ≡ finish (parse_body (between d p))
  header_of_fitting i room =
      header_fitting alloc d p (data_bytes ++ rest) i.ready i.packet_fits i.head i.content room

  between_content : Incoming → readable (skip d.howmuch d.buffer) ≡ data_bytes ++ rest
  between_content i = behind_header alloc d p (data_bytes ++ rest) i.ready.wants_header i.content

  header_enough : Incoming → d.howmuch ≤ length (readable d.buffer)
  header_enough i = omega (
    arith,
    i.ready.wants_header,
    ap length i.content,
    length-append (packet_bytes p) (data_bytes ++ rest),
    length-packet_bytes p,
  )

  between_sound : Incoming → IsReadable (skip d.howmuch d.buffer)
  between_sound i = skip-IsReadable d.howmuch d.buffer i.ready.sound (header_enough i)

  between_enough : Incoming → p.data_length ≤ length (readable (skip d.howmuch d.buffer))
  between_enough i =
      omega (arith, ap length (between_content i), length-append data_bytes rest, i.announced)

  -- The decoder that has taken in the packet and its data.
  delivered : Decoder
  unfolding between
  delivered = record (between d p) {
    body = data_bytes;
    buffer = skip p.data_length (skip d.howmuch d.buffer);
    read_status = read_header;
    howmuch = packet_size;
  }

  decode_delivers :
      Incoming
      → packet_size + p.data_length ≤ d.packet_capacity
      → decode alloc d ≡ returned no_error delivered
  unfolding between delivered
  decode_delivers i room =
      header_of_fitting i (omega arith)
      ∙ ap finish (
          parse_body_whole (between d p) (between_sound i) data_bytes rest (between_content i)
            i.announced room)

  -- A packet with its data, in front of a decoder that waits for a header, that fits into the packet
  -- buffer with its header is taken in as it was sent, what follows it is left, and the decoder is
  -- ready for it, with the same packet buffer.
  pub decode_fitting :
      Incoming
      → packet_size + p.data_length ≤ d.packet_capacity
      → (d' : Decoder) × (decode alloc d ≡ returned no_error d')
        × (d'.packet ≡ p)
        × (d'.body ≡ data_bytes)
        × (readable d'.buffer ≡ rest)
        × (d'.packet_capacity ≡ d.packet_capacity)
        × IsReady d'
  unfolding delivered
  decode_fitting i room = (
    delivered,
    decode_delivers i room,
    refl,
    refl,
    left_over,
    refl,
    record {
      sound =
          skip-IsReadable p.data_length (skip d.howmuch d.buffer) (between_sound i)
            (between_enough i);
      at_header = refl;
      wants_header = refl;
    },
  )
    where
      left_over : readable (skip p.data_length (skip d.howmuch d.buffer)) ≡ rest
      left_over =
          readable-skip p.data_length (skip d.howmuch d.buffer)
          ∙ ap (drop p.data_length) (between_content i)
          ∙ ap (λ n. drop n (data_bytes ++ rest)) (sym i.announced)
          ∙ drop-length data_bytes rest

  -- Any larger packet there ends in a fault.
  pub decode_overflows :
      Incoming
      → d.packet_capacity < packet_size + p.data_length
      → (f : Fault) × (decode alloc d ≡ fault f)
  unfolding between
  decode_overflows i small = elim (Bool-cases (ltb d.packet_capacity p.data_length)) [
    | inl grows ↦ (
      use_after_free,
      decode_header i ∙ ap (λ g. header_done alloc (no_error, g, taken alloc started p)) grows,
    )
    | inr fits ↦ (
      out_of_bounds,
      header_of_fitting i (ltb→le d.packet_capacity p.data_length fits)
          ∙ ap finish (parse_body_outside (between d p) (between_sound i) (between_enough i) small),
    )
  ]
