-- ===== src/Pipe/Arrivals.antt =====
-- PipeChannel.cpp: a pipe between its read events, and what a channel expects of it.
use multi_process_server.Base.{
  ℕ, ◌^◌, ◌<◌, ◌≡◌, refl, ◌∙◌, arith, ◌==◌, if◌then◌else◌, List, [], ◌∷◌, ◌++◌, append_assoc, Bytes,
  length, drop,
}
use multi_process_server.Ipc.Packet.{le_bytes}
use multi_process_server.Pipe.{
  asks_for, Channel, read_header, read_data, new_channel, pipe_packet_size, write_buffer, on_read,
  then_run,
}

-- A packet: its type and its data.
abbrev pub Packet : Type 0
Packet = ℕ × Bytes

-- Read events of a pipe that holds some bytes: before each some more, or none, have been written.
unfoldable pub read_all : List Bytes → Bytes → Channel → Channel × List Packet
unfolding on_read
read_all [] held c = (c, [])
read_all (new ∷ more) held c =
    let now = held ++ new in then_run (read_all more (drop (asks_for c) now)) (on_read now c)

-- What is written for packets.
abbrev pub written : List Packet → Bytes
written [] = []
written (p ∷ ps) = write_buffer p.0 p.1 ++ written ps

-- The type and the length have 32 bits, and there is data.
abbrev pub AllSent : List Packet → Type 0
AllSent [] = Unit {0}
AllSent (p ∷ ps) = ((p.0 < 2 ^ 32) × (0 < length p.1) × (length p.1 < 2 ^ 32)) × AllSent ps

unfoldable pub header : Packet → Bytes
unfolding le_bytes
header p = le_bytes 4 pipe_packet_size ++ (le_bytes 4 (length p.1) ++ le_bytes 4 p.0)

pub length-header : (p : Packet) → length (header p) ≡ pipe_packet_size
unfolding header le_bytes
length-header p = refl

-- The bytes that the channel still waits for.
abbrev pub todo : Channel → ℕ
todo c = if c.left_to_read == 0 then c.howmuch else c.left_to_read

-- The channel has read `seen` of the header, or of the data behind it, and waits for `rest`; `future` is
-- what comes.
pub data Expects (future : Bytes) : Channel → List Packet → Type 0 where
  at_end : future ≡ [] → Expects future new_channel []
  at_header :
      {c : Channel} (p : Packet) (ps : List Packet) (seen rest : Bytes)
      → AllSent (p ∷ ps)
      → seen ++ rest ≡ header p
      → 0 < length rest
      → c.read_status ≡ read_header
      → c.howmuch ≡ pipe_packet_size
      → todo c ≡ length rest
      → c.read_buffer ≡ seen
      → future ≡ rest ++ (p.1 ++ written ps)
      → Expects future c (p ∷ ps)
  at_data :
      {c : Channel} (p : Packet) (ps : List Packet) (seen rest : Bytes)
      → AllSent (p ∷ ps)
      → seen ++ rest ≡ p.1
      → 0 < length rest
      → c.read_status ≡ read_data
      → c.howmuch ≡ length p.1
      → todo c ≡ length rest
      → c.read_buffer ≡ header p ++ seen
      → future ≡ rest ++ written ps
      → Expects future c (p ∷ ps)

pub start :
    (future : Bytes) (ps : List Packet)
    → AllSent ps
    → future ≡ written ps
    → Expects future new_channel ps
unfolding write_buffer header le_bytes
start future [] all e = at_end e
start future (p ∷ ps) all e =
    at_header p ps [] (header p) all refl (omega arith) refl refl refl refl
      (e ∙ append_assoc (header p) p.1 (written ps))
