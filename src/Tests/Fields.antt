-- ===== src/Tests/Fields.antt =====
-- The first header parser of jt1078/jt1078_server on the audio packet.
use multi_process_server.Base.{◌%◌, ◌≡◌, refl, [], ◌∷◌, ◌++◌, Bytes, true}
use multi_process_server.Jt1078.Header.{cleared}
use multi_process_server.Jt1078.Scan.{Reader}
use multi_process_server.Jt1078.Decoder.{is_support_coding_type}
use multi_process_server.Jt1078.Decoder.Wire.{front_bytes}

abbrev sim : Bytes
sim = 1 ∷ 0x38 ∷ 0x12 ∷ 0x34 ∷ 0x56 ∷ 0x78 ∷ []

abbrev rest : Bytes
rest = 0 ∷ 0 ∷ 0 ∷ 0 ∷ 0 ∷ 0 ∷ 1 ∷ 0 ∷ 0 ∷ 3 ∷ 9 ∷ 8 ∷ 7 ∷ []

abbrev begun : Reader
begun = record {
  header = cleared;
  input = record {
    buffer = front_bytes 0x86 0 7 sim 2 0x30 ++ rest;
    read_index = 0;
    capacity = 64;
  };
}

g711a : is_support_coding_type (0x86 % 128) ≡ true
unfolding is_support_coding_type
g711a = refl
