-- ===== src/Tests/Pipes.antt =====
-- core/pipe with two packets in parts, and with one without data.
use multi_process_server.Base.{◌≡◌, refl, arith, List, [], ◌∷◌, ◌++◌, Bytes, take, drop, replicate}
use multi_process_server.Ipc.Packet.{le_bytes}
use multi_process_server.Pipe.{new_channel, write_buffer, run}
use multi_process_server.Pipe.Reads.{run-empty}
use multi_process_server.Pipe.Arrivals.{Packet, written, read_all}
use multi_process_server.Pipe.Whole.{read_all-written}

abbrev packets : List Packet
packets = (5, 7 ∷ 8 ∷ 9 ∷ []) ∷ (6, 1 ∷ []) ∷ []

-- The first part ends in the header, the second in the data.
abbrev parts : List Bytes
parts =
    take 5 (written packets) ∷ take 9 (drop 5 (written packets)) ∷ drop 14 (written packets) ∷ []

read_all-written_example :
    read_all (parts ++ replicate 30 []) [] new_channel ≡ (new_channel, packets)
unfolding write_buffer le_bytes
read_all-written_example =
    read_all-written packets parts 30
      ((omega arith, omega arith, omega arith), ((omega arith, omega arith, omega arith), tt)) refl
      (omega arith)

run-empty_example :
    (run (write_buffer 5 [] ∷ write_buffer 6 (7 ∷ []) ∷ (7 ∷ []) ∷ []) new_channel).1 ≡ []
run-empty_example = run-empty 5 (write_buffer 6 (7 ∷ []) ∷ (7 ∷ []) ∷ [])
