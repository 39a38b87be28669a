-- ===== src/Pipe.antt =====
-- core/pipe/PipeChannel.cpp: packets through a pipe. The bytes of `m_read_buffer`, of which nothing is
-- skipped, are a list, and what the pipe holds at each read event is an argument.
use multi_process_server.Base.{
  ℕ, ◌+◌, ◌-◌, ◌==◌, min, if◌then◌else◌, Bool, List, [], ◌∷◌, ◌++◌, Bytes, length, take, drop,
  little_endian,
}
use multi_process_server.Ipc.Packet.{le_bytes}
pub mod Reads
pub mod Arrivals
pub mod Parts
pub mod Whole

-- `sizeof(PipePacket)` and `READ_BUFF_SIZE`.
abbrev pub pipe_packet_size : ℕ
pipe_packet_size = 12

abbrev pub read_buff_size : ℕ
read_buff_size = 1024

-- What `WriteBuffer` writes: the length of the header, the length of the data, the type, the data.
unfoldable pub write_buffer : ℕ → Bytes → Bytes
unfolding le_bytes
write_buffer t bytes =
    (le_bytes 4 pipe_packet_size ++ (le_bytes 4 (length bytes) ++ le_bytes 4 t)) ++ bytes

pub data ReadStatus : Type 0 where
  read_header : ReadStatus
  read_data : ReadStatus

pub record Channel : Type 0 where
  pub read_status : ReadStatus
  pub howmuch : ℕ
  pub left_to_read : ℕ
  pub read_buffer : Bytes

abbrev pub new_channel : Channel
new_channel = record {
  read_status = read_header;
  howmuch = pipe_packet_size;
  left_to_read = 0;
  read_buffer = [];
}

-- How many bytes `OnRead` asks for.
abbrev pub asks_for : Channel → ℕ
asks_for c =
    let n = min c.howmuch read_buff_size in if c.left_to_read == 0 then n else min c.left_to_read n

abbrev pub data_length_at : Bytes → ℕ
data_length_at xs = little_endian (take 4 (drop 4 xs))

abbrev pub pkt_type_at : Bytes → ℕ
pkt_type_at xs = little_endian (take 4 (drop 8 xs))

-- A header or the data is whole: the channel goes on, with the packets that are handled, as their types
-- and data.
unfoldable pub complete : ReadStatus → Channel → Channel × List (ℕ × Bytes)
unfolding little_endian
complete read_header c =
    (record c { howmuch = data_length_at c.read_buffer; read_status = read_data }, [])
complete read_data c =
    let bytes = take (data_length_at c.read_buffer) (drop pipe_packet_size c.read_buffer) in
    (new_channel, (pkt_type_at c.read_buffer, bytes) ∷ [])

-- `OnRead`, of a pipe that holds these bytes: without any there is nothing to do.
unfoldable pub on_read : Bytes → Channel → Channel × List (ℕ × Bytes)
unfolding complete
on_read held c =
    let got = take (asks_for c) held in
    let n = length got in
    let left = if c.left_to_read == 0 then c.howmuch - n else c.left_to_read - n in
    let c' : Channel = record c { left_to_read = left; read_buffer = c.read_buffer ++ got } in
    if n == 0 then (c, []) else if left == 0 then complete c.read_status c' else (c', [])

-- Read events one after the other.
abbrev pub then_run :
    (Channel → Channel × List (ℕ × Bytes)) → Channel × List (ℕ × Bytes) → Channel × List (ℕ × Bytes)
then_run rest (c, ps) = let (c', qs) = rest c in (c', ps ++ qs)

unfoldable pub run : List Bytes → Channel → Channel × List (ℕ × Bytes)
unfolding on_read
run [] c = (c, [])
run (held ∷ more) c = then_run (run more) (on_read held c)
