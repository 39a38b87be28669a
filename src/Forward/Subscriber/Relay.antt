-- ===== src/Forward/Subscriber/Relay.antt =====
-- Subscriber.cpp and IpcPktDecoder.cpp: what the forward server sends, the decoder of a client reads.
use multi_process_server.Base.{
  ℕ, ◌+◌, ◌^◌, ◌≤◌, ◌<◌, ◌≡◌, refl, ◌∙◌, arith, List, [], ◌∷◌, ◌++◌, append_assoc, Bytes, length,
  length-append, length-take,
}
use multi_process_server.Buffer.{Alloc}
use multi_process_server.Buffer.Contents.{readable}
use multi_process_server.Jt1078.Header.{Header, Packet, payload, jt1078_max_length}
use multi_process_server.Ipc.Packet.{le_bytes, length-le_bytes, packet_bytes, next_seq_id}
use multi_process_server.Ipc.Decoder.{Decoder, no_error, returned, decode}
use multi_process_server.Ipc.Decoder.Safety.{Incoming, decode_fitting}
use multi_process_server.Ipc.Decoder.Start.{IsReady}
use multi_process_server.Forward.Subscriber.{
  device_id_size, header_size, header_bytes, header_front, header_back, ipc_header, pieces, frame,
}

length-header_front : (h : Header) → length (header_front h) ≡ 8
unfolding header_front
length-header_front h = refl

length-header_back : (h : Header) → length (header_back h) ≡ 16
unfolding header_back
length-header_back h = refl

length-header_bytes :
    (h : Header) → length h.sim_card_number ≡ 6 → length (header_bytes h) ≡ header_size
unfolding header_bytes
length-header_bytes h six = omega (
  arith,
  six,
  length-append (header_front h) (h.sim_card_number ++ header_back h),
  length-append h.sim_card_number (header_back h),
  length-header_front h,
  length-header_back h,
)

pub length-pieces :
    (device_id : ℕ) (p : Packet)
    → length p.header.sim_card_number ≡ 6
    → p.header.body_len ≤ length p.body
    → length (pieces device_id p) ≡ device_id_size + header_size + p.header.body_len
unfolding pieces
length-pieces device_id p six room = omega (
  arith,
  length-append (le_bytes 8 device_id) (header_bytes p.header ++ payload p),
  length-append (header_bytes p.header) (payload p),
  length-le_bytes 8 device_id,
  length-header_bytes p.header six,
  length-take p.header.body_len p.body,
  room,
)

pub next_seq_id-bound : (last : ℕ) → next_seq_id last < 2 ^ 32
unfolding next_seq_id
next_seq_id-bound last = ground arith

-- A packet as the decoder of the cars hands it over.
pub record Forwardable (p : Packet) : Type 0 where
  pub sim : length p.header.sim_card_number ≡ 6
  pub stored : p.header.body_len ≤ length p.body
  pub small : p.header.body_len ≤ jt1078_max_length

-- A packet of a car, with the device id under which it is published.
abbrev pub Published : Type 0
Published = ℕ × Packet

-- What `SendMsg` sends for each, behind the sequence number `last`.
unfoldable pub sent_frames : ℕ → List Published → Bytes
unfolding frame
sent_frames last [] = []
sent_frames last (p ∷ ps) = frame (next_seq_id last) p.0 p.1 ++ sent_frames (next_seq_id last) ps

module _ (alloc : Alloc) (d : Decoder) (last device_id : ℕ) (p : Packet) (rest : Bytes) where
  abbrev seq : ℕ
  seq = next_seq_id last

  frame-Incoming :
      IsReady d
      → Forwardable p
      → readable d.buffer ≡ frame seq device_id p ++ rest
      → Incoming alloc d (ipc_header seq p) (pieces device_id p) rest
  unfolding frame
  frame-Incoming ready ok e = record {
    ready = ready;
    packet_fits = record {
      head_fits = omega arith;
      data_fits = omega (arith, ok.small);
      seq_fits = next_seq_id-bound last;
      type_fits = omega arith;
    };
    head = refl;
    announced = length-pieces device_id p ok.sim ok.stored;
    content = e ∙ append_assoc (packet_bytes (ipc_header seq p)) (pieces device_id p) rest;
  }

  -- A decoder that waits for a header and has the 1024 bytes of its constructor reads what `SendMsg`
  -- sends for a packet of a car, of at most 950 bytes: the IPC header with the next sequence number,
  -- and behind it the device id, the header and the payload; it is ready for what follows,
  -- with the same packet buffer.
  pub frame-decode :
      IsReady d
      → 1024 ≤ d.packet_capacity
      → Forwardable p
      → readable d.buffer ≡ frame seq device_id p ++ rest
      → (d' : Decoder) × (decode alloc d ≡ returned no_error d')
        × (d'.packet ≡ ipc_header seq p)
        × (d'.body ≡ le_bytes 8 device_id ++ (header_bytes p.header ++ payload p))
        × (readable d'.buffer ≡ rest)
        × (d'.packet_capacity ≡ d.packet_capacity)
        × IsReady d'
  unfolding pieces
  frame-decode ready room ok e =
      decode_fitting alloc d (ipc_header seq p) (pieces device_id p) rest
        (frame-Incoming ready ok e) (omega (arith, room, ok.small))
