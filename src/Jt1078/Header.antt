-- ===== src/Jt1078/Header.antt =====
-- jt1078/jt1078_server/Jt1078Header.h and Jt1078Packet.h: the header of a JT/T 1078 packet, with
-- the bit fields as numbers of their own, and the packet that the decoder fills in.
use multi_process_server.Base.{ℕ, [], ◌∷◌, ◌++◌, Bytes, take, drop, replicate}

-- `JT1078_MAX_LENGTH` and `JT_1078_HEAD_MARK`.
abbrev pub jt1078_max_length : ℕ
jt1078_max_length = 950

abbrev pub jt_1078_head_mark : ℕ
jt_1078_head_mark = 0x30316364

abbrev pub data_type_video_i : ℕ
data_type_video_i = 0

abbrev pub data_type_video_p : ℕ
data_type_video_p = 1

abbrev pub data_type_video_b : ℕ
data_type_video_b = 2

abbrev pub data_type_audio : ℕ
data_type_audio = 3

abbrev pub data_type_route : ℕ
data_type_route = 4

pub record Header : Type 0 where
  pub frame_head_mark : ℕ
  pub v2 : ℕ
  pub p1 : ℕ
  pub x1 : ℕ
  pub cc4 : ℕ
  pub m1 : ℕ
  pub pt7 : ℕ
  pub package_sequence : ℕ
  pub sim_card_number : Bytes
  pub logic_channel_number : ℕ
  pub data_type4 : ℕ
  pub subpackage_handle_mark4 : ℕ
  pub time_stamp : ℕ
  pub last_i_frame_interval : ℕ
  pub last_frame_interval : ℕ
  pub body_len : ℕ

-- `header_t::Clear`.
abbrev pub cleared : Header
cleared = record {
  frame_head_mark = 0;
  v2 = 0;
  p1 = 0;
  x1 = 0;
  cc4 = 0;
  m1 = 0;
  pt7 = 0;
  package_sequence = 0;
  sim_card_number = replicate 6 0;
  logic_channel_number = 0;
  data_type4 = 0;
  subpackage_handle_mark4 = 0;
  time_stamp = 0;
  last_i_frame_interval = 0;
  last_frame_interval = 0;
  body_len = 0;
}

-- `packet_t`: the header, and the whole array that `m_body` points to.
pub record Packet : Type 0 where
  pub header : Header
  pub body : Bytes

-- `packet_t::Clear`: the header is zeroed, and the first byte of the body.
unfoldable pub clear : Packet → Packet
clear p = record { header = cleared; body = 0 ∷ drop 1 p.body }

-- The bytes of the array that belong to the packet.
abbrev pub payload : Packet → Bytes
payload p = take p.header.body_len p.body

-- The copy constructor: the header, and `WdBodyLen` bytes of the body behind which it puts a zero.
unfoldable pub copy : Packet → Packet
copy p = record { header = p.header; body = payload p ++ 0 ∷ [] }
