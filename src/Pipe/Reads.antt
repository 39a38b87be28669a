-- ===== src/Pipe/Reads.antt =====
-- PipeChannel.cpp: a channel that waits for data of which there is none.
use multi_process_server.Base.{
  ℕ, ◌^◌, ◌<◌, ◌≡◌, refl, ap, ◌∙◌, arith, ◌==◌, if_then, List, [], ◌∷◌, ◌++◌, Bytes, length, take,
  little_endian,
}
use multi_process_server.Ipc.Packet.{le_bytes}
use multi_process_server.Pipe.{
  asks_for, Channel, read_data, new_channel, pipe_packet_size, write_buffer, complete, on_read,
  then_run, run,
}

-- A channel that waits for data of which there is none.
abbrev pub Blocked : Channel → Type 0
Blocked c = (c.howmuch ≡ 0) × (c.left_to_read ≡ 0)

asks_none : (c : Channel) → Blocked c → asks_for c ≡ 0
asks_none c (e, f) = ground (arith, e, f)

on_read-Blocked : (held : Bytes) (c : Channel) → Blocked c → on_read held c ≡ (c, [])
unfolding on_read
on_read-Blocked held c blocked =
    if_then (length (take (asks_for c) held) == 0) _ _
      (ap (λ n. length (take n held) == 0) (asks_none c blocked))

run-Blocked : (reads : List Bytes) (c : Channel) → Blocked c → run reads c ≡ (c, [])
unfolding run
run-Blocked [] c blocked = refl
run-Blocked (held ∷ reads) c blocked =
    ap (then_run (run reads)) (on_read-Blocked held c blocked) ∙ run-Blocked reads c blocked

-- The header of a packet has been read.
abbrev awaiting : ℕ → ℕ → ℕ → Channel
awaiting t n k = record {
  read_status = read_data;
  howmuch = k;
  left_to_read = 0;
  read_buffer = le_bytes 4 pipe_packet_size ++ (le_bytes 4 n ++ le_bytes 4 t);
}

-- Behind a packet without data nothing that arrives is ever handled.
pub run-empty : (t : ℕ) (reads : List Bytes) → (run (write_buffer t [] ∷ reads) new_channel).1 ≡ []
unfolding run on_read complete write_buffer le_bytes little_endian
run-empty t reads = ap (λ r. r.1) (run-Blocked reads (awaiting t 0 0) (refl, refl))

pub four_bytes : (v : ℕ) → v < 2 ^ 32 → little_endian (le_bytes 4 v) ≡ v
unfolding little_endian le_bytes
four_bytes v h = omega arith
