-- ===== src/Tests/Cars.antt =====
-- The decoder of jt1078/jt1078_server and its buffer on an audio packet of three bytes.
use multi_process_server.Base.{ℕ, ◌≡◌, refl, arith, List, [], ◌∷◌, Bytes, take, map, big_endian}
use native.Mathlib.Nat.{le_refl}
use multi_process_server.Buffer.{
  Alloc, Buffer, empty, reserve, append, readable_bytes, get_left_capacity, auto_remove,
  read_buffer, read_integer, skip, get_buffer,
}
use multi_process_server.Jt1078.Header.{payload, clear}
use multi_process_server.Jt1078.Scan.{integer, bytes, update, require, need}
use multi_process_server.Jt1078.Decoder.{Decoder, new_decoder, decode}
use multi_process_server.Jt1078.Decoder.Invariant.{Decoded, decode-Decoded}
use multi_process_server.Jt1078.CarSession.{
  Event, packet_complete, packet_error, parse_buffer, feed, drain,
}
use multi_process_server.Jt1078.CarSession.Total.{
  Returns, parse_buffer-Returns, new_decoder-IsValid,
}
use multi_process_server.Jt1078.CarSession.Chunks.{feed-concat, IsIdle}

-- A library that allocates what is asked for.
abbrev pub exact : Alloc
exact = record {
  grown = λ c n. n;
  reserved = λ c n. n;
  grown_fits = λ c n. le_refl n;
  reserved_fits = λ c n. le_refl n;
}

abbrev audio : Bytes
audio =
    0x30 ∷ 0x31 ∷ 0x63 ∷ 0x64 ∷ 0x81 ∷ 0x86 ∷ 0 ∷ 7 ∷ 1 ∷ 0x38 ∷ 0x12 ∷ 0x34 ∷ 0x56 ∷ 0x78 ∷ 2
    ∷ 0x30 ∷ 0 ∷ 0 ∷ 0 ∷ 0 ∷ 0 ∷ 0 ∷ 1 ∷ 0 ∷ 0 ∷ 3 ∷ 9 ∷ 8 ∷ 7 ∷ []

abbrev pub fresh : Decoder
fresh = new_decoder exact

-- What the tests see of an event: the sequence number, the time and the payload.
abbrev seen : Event → ℕ × ℕ × Bytes
seen (packet_complete p) = (p.header.package_sequence, p.header.time_stamp, payload p)
seen (packet_error e) = (0, 0, [])

one_packet : map seen (feed exact (audio ∷ []) fresh) ≡ (7, 256, 9 ∷ 8 ∷ 7 ∷ []) ∷ []
unfolding feed drain decode new_decoder empty reserve append readable_bytes get_left_capacity
    auto_remove read_buffer read_integer skip integer bytes update require need big_endian
    get_buffer
one_packet = refl

pub fresh-IsIdle : IsIdle fresh
unfolding decode new_decoder empty reserve readable_bytes need clear
fresh-IsIdle = record {
  valid = new_decoder-IsValid exact;
  few = omega arith;
  waits = (record fresh { packet = clear fresh.packet }, refl);
}

abbrev pub in_parts : List Bytes
in_parts =
    take 5 audio
    ∷ take 13 (0x86 ∷ 0 ∷ 7 ∷ 1 ∷ 0x38 ∷ 0x12 ∷ 0x34 ∷ 0x56 ∷ 0x78 ∷ 2 ∷ 0x30 ∷ 0 ∷ 0 ∷ [])
    ∷ (0 ∷ 0 ∷ 0 ∷ 0 ∷ 1 ∷ 0 ∷ 0 ∷ 3 ∷ 9 ∷ 8 ∷ 7 ∷ [])
    ∷ []

feed-concat_example : feed exact in_parts fresh ≡ feed exact (audio ∷ []) fresh
feed-concat_example =
    feed-concat exact in_parts (audio ∷ []) fresh refl (omega arith) (omega arith) fresh-IsIdle

parse_buffer-Returns_example : Returns (parse_buffer exact audio fresh)
parse_buffer-Returns_example = parse_buffer-Returns exact audio fresh (new_decoder-IsValid exact)

decode-Decoded_example : Decoded fresh (decode fresh)
decode-Decoded_example = decode-Decoded fresh (new_decoder-IsValid exact)

abbrev half_read : Buffer
half_read = record { buffer = 1 ∷ 2 ∷ 3 ∷ 4 ∷ []; read_index = 2; capacity = 6 }
