-- ===== src/Ipc/Packet.antt =====
-- core/ipc_packet/IpcPacket.h and IpcPktType.h: the packet of four numbers and the data behind
-- them, and its layout in memory, least significant byte first as on the program's machines.
use multi_process_server.Base.{
  ℕ, suc, zero, ◌+◌, ◌/◌, ◌%◌, ◌^◌, ◌<◌, ◌≡◌, refl, ap, arith, [], ◌∷◌, ◌++◌, Bytes, length, take,
  drop, little_endian, ◌==◌, if◌then◌else◌,
}

-- `INVALID_PKT_SEQ_ID`, which is -1 as a uint32_t.
abbrev pub invalid_pkt_seq_id : ℕ
invalid_pkt_seq_id = 0xffffffff

abbrev pub ipc_pkt_invalid_packet : ℕ
ipc_pkt_invalid_packet = 0

-- `packet_t` without its data.
pub record Packet : Type 0 where
  pub head_length : ℕ
  pub data_length : ℕ
  pub pkt_seq_id : ℕ
  pub pkt_type : ℕ

-- `sizeof(packet_t)`.
abbrev pub packet_size : ℕ
packet_size = 16

-- `packet_t::Clear`.
abbrev pub cleared : Packet
cleared = record {
  head_length = packet_size;
  data_length = 0;
  pkt_seq_id = invalid_pkt_seq_id;
  pkt_type = ipc_pkt_invalid_packet;
}

-- The `n` bytes of a number, least significant first.
unfoldable pub le_bytes : ℕ → ℕ → Bytes
le_bytes zero v = []
le_bytes (suc n) v = v % 256 ∷ le_bytes n (v / 256)

pub length-le_bytes : (n v : ℕ) → length (le_bytes n v) ≡ n
unfolding le_bytes
length-le_bytes zero v = refl
length-le_bytes (suc n) v = ap suc (length-le_bytes n (v / 256))

-- The bytes that a `packet_t` occupies.
unfoldable pub packet_bytes : Packet → Bytes
unfolding le_bytes
packet_bytes p =
    le_bytes 4 p.head_length
    ++ (le_bytes 4 p.data_length ++ (le_bytes 4 p.pkt_seq_id ++ le_bytes 4 p.pkt_type))

-- The `packet_t` that a pointer to these bytes points to.
unfoldable pub packet_at : Bytes → Packet
unfolding little_endian
packet_at xs = record {
  head_length = little_endian (take 4 xs);
  data_length = little_endian (take 4 (drop 4 xs));
  pkt_seq_id = little_endian (take 4 (drop 8 xs));
  pkt_type = little_endian (take 4 (drop 12 xs));
}

-- Every field is a uint32_t.
pub record IsPacket (p : Packet) : Type 0 where
  pub head_fits : p.head_length < 2 ^ 32
  pub data_fits : p.data_length < 2 ^ 32
  pub seq_fits : p.pkt_seq_id < 2 ^ 32
  pub type_fits : p.pkt_type < 2 ^ 32

four_bytes : (v : ℕ) → v < 2 ^ 32 → little_endian (le_bytes 4 v) ≡ v
unfolding little_endian le_bytes
four_bytes v h = omega arith

-- Of a packet whose fields are below 2 ^ 32, what is laid out is what is read, whatever stands
-- behind it.
pub packet_at-packet_bytes :
    (p : Packet) (rest : Bytes) → IsPacket p → packet_at (packet_bytes p ++ rest) ≡ p
unfolding packet_at packet_bytes
packet_at-packet_bytes p rest v = λ i. record {
  head_length = four_bytes p.head_length v.head_fits i;
  data_length = four_bytes p.data_length v.data_fits i;
  pkt_seq_id = four_bytes p.pkt_seq_id v.seq_fits i;
  pkt_type = four_bytes p.pkt_type v.type_fits i;
}

-- The next sequence number of a sender: 0 at first, and then one more each time.
unfoldable pub next_seq_id : ℕ → ℕ
next_seq_id last = if last == invalid_pkt_seq_id then 0 else (last + 1) % 2 ^ 32

pub length-packet_bytes : (p : Packet) → length (packet_bytes p) ≡ packet_size
unfolding packet_bytes
length-packet_bytes p = refl
