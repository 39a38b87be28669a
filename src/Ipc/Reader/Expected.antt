-- ===== src/Ipc/Reader/Expected.antt =====
-- What a stream of packets that has arrived in part expects of a decoder.
use multi_process_server.Base.{
  ℕ, ◌+◌, ◌≤◌, ◌<◌, ◌≡◌, refl, arith, List, [], ◌∷◌, ◌++◌, map, concat, Bytes, length,
  length-append,
}
use multi_process_server.Buffer.Contents.{IsReadable, readable}
use multi_process_server.Ipc.Packet.{packet_size, packet_bytes, IsPacket, length-packet_bytes}
use multi_process_server.Ipc.Decoder.{
  Decoder, ReadStatus, read_header, read_body, Ran, returned, no_error, need_more_data,
}
use multi_process_server.Ipc.Decoder.Start.{IsReady}
use multi_process_server.Ipc.Reader.{Message}

-- A packet that fits into the 1024 bytes of a new decoder.
pub record Fits (m : Message) : Type 0 where
  pub fields : IsPacket m.0
  pub head : m.0.head_length ≡ packet_size
  pub announced : length m.1 ≡ m.0.data_length
  pub small : packet_size + m.0.data_length ≤ 1024

abbrev pub AllFit : List Message → Type 0
AllFit [] = Unit
AllFit (m ∷ ms) = Fits m × AllFit ms

unfoldable pub frame : Message → Bytes
frame m = packet_bytes m.0 ++ m.1

abbrev pub frames : List Message → Bytes
frames ms = concat (map frame ms)

pub frames_small : (ms : List Message) → length (frames ms) < packet_size → ms ≡ []
unfolding frame
frames_small [] h = refl
frames_small (m ∷ ms) h = absurd (
    omega (
      arith,
      length-append (packet_bytes m.0 ++ m.1) (frames ms),
      length-append (packet_bytes m.0) m.1,
      length-packet_bytes m.0,
    ))

-- What is unread and what is still to come are the frames of `ms`, from the header of the first, or
-- from its data.
pub data Expects (d : Decoder) (future : Bytes) : List Message → Type 0 where
  at_header :
      {ms : List Message}
      → IsReady d
      → 1024 ≤ d.packet_capacity
      → AllFit ms
      → readable d.buffer ++ future ≡ frames ms
      → Expects d future ms
  at_body :
      {m : Message} {ms : List Message}
      → IsReadable d.buffer
      → d.read_status ≡ read_body
      → d.packet ≡ m.0
      → d.howmuch ≡ m.0.data_length
      → 1024 ≤ d.packet_capacity
      → Fits m
      → AllFit ms
      → readable d.buffer ++ future ≡ m.1 ++ frames ms
      → Expects d future (m ∷ ms)

abbrev pub owed : ReadStatus → ℕ
owed read_header = 0
owed read_body = 1

abbrev pub weight : Decoder → ℕ
weight d = length (readable d.buffer) + owed d.read_status

-- What a call of `Decode` does there: it waits with less than a frame, and only where more is to come or
-- nothing is expected, or has the first packet.
pub data Step (d : Decoder) (future : Bytes) : List Message → Ran → Type 0 where
  waits :
      {ms : List Message} {d' : Decoder}
      → Expects d' future ms
      → (future ≡ [] → ms ≡ [])
      → length (readable d'.buffer) ≤ 1024
      → Step d future ms (returned need_more_data d')
  delivers :
      {m : Message} {ms : List Message} {d' : Decoder}
      → d'.packet ≡ m.0
      → d'.body ≡ m.1
      → Expects d' future ms
      → weight d' < weight d
      → Step d future (m ∷ ms) (returned no_error d')
