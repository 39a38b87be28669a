-- ===== src/Web/Rtmp/Thread/Layout.antt =====
-- RtmpThread.cpp: what the forward server sends of a packet of a car is what the thread reads.
use multi_process_server.Base.{
  ℕ, ◌+◌, ◌*◌, ◌/◌, ◌%◌, ◌^◌, ◌<◌, ◌≡◌, sym, ap, ◌∙◌, arith, drop, [], ◌∷◌, ◌++◌, Bytes, length,
  little_endian, some, ltb, le→ltb, if_else,
}
use multi_process_server.Jt1078.Header.{Header}
use multi_process_server.Ipc.Packet.{le_bytes}
use multi_process_server.Forward.Subscriber.{header_bytes, header_front, header_back}
use multi_process_server.Web.Rtmp.Thread.{header_at, device_id_at, packet_behind}

-- The fields are as wide as those of the struct; the SIM card number is these six bytes.
pub record IsHeader (h : Header) : Type 0 where
  pub mark_fits : h.frame_head_mark < 2 ^ 32
  pub v2_fits : h.v2 < 4
  pub p1_fits : h.p1 < 2
  pub x1_fits : h.x1 < 2
  pub cc4_fits : h.cc4 < 16
  pub m1_fits : h.m1 < 2
  pub pt7_fits : h.pt7 < 128
  pub sequence_fits : h.package_sequence < 2 ^ 16
  pub data_type_fits : h.data_type4 < 16
  pub subpackage_fits : h.subpackage_handle_mark4 < 16
  pub time_fits : h.time_stamp < 2 ^ 64
  pub last_i_fits : h.last_i_frame_interval < 2 ^ 16
  pub last_fits : h.last_frame_interval < 2 ^ 16
  pub body_len_fits : h.body_len < 2 ^ 16
  pub a : ℕ
  pub b : ℕ
  pub c : ℕ
  pub d : ℕ
  pub e : ℕ
  pub f : ℕ
  pub sim : h.sim_card_number ≡ a ∷ b ∷ c ∷ d ∷ e ∷ f ∷ []

two_bytes : (v : ℕ) → v < 2 ^ 16 → little_endian (le_bytes 2 v) ≡ v
unfolding little_endian le_bytes
two_bytes v h = omega arith

four_bytes : (v : ℕ) → v < 2 ^ 32 → little_endian (le_bytes 4 v) ≡ v
unfolding little_endian le_bytes
four_bytes v h = omega arith

pub eight_bytes : (v : ℕ) → v < 2 ^ 64 → little_endian (le_bytes 8 v) ≡ v
unfolding little_endian le_bytes
eight_bytes v h = omega arith

-- The first octet of bit fields, and the second.
first_octet :
    (v p x cc : ℕ)
    → v < 4
    → p < 2
    → x < 2
    → ((v + 4 * p + 8 * x + 16 * cc) % 4 ≡ v)
      × ((v + 4 * p + 8 * x + 16 * cc) / 4 % 2 ≡ p)
      × ((v + 4 * p + 8 * x + 16 * cc) / 8 % 2 ≡ x)
      × ((v + 4 * p + 8 * x + 16 * cc) / 16 ≡ cc)
first_octet v p x cc hv hp hx = (omega arith, omega arith, omega arith, omega arith)

header_at-header_bytes :
    (h : Header) (rest : Bytes) → IsHeader h → header_at (header_bytes h ++ rest) ≡ h
unfolding header_at header_bytes header_front header_back
header_at-header_bytes h rest v =
    let (v2, p1, x1, cc4) = first_octet h.v2 h.p1 h.x1 h.cc4 v.v2_fits v.p1_fits v.x1_fits in
    let m1 : (h.m1 + 2 * h.pt7) % 2 ≡ h.m1 = omega (arith, v.m1_fits) in
    let pt7 : (h.m1 + 2 * h.pt7) / 2 ≡ h.pt7 = omega (arith, v.m1_fits) in
    let kind : (h.data_type4 + 16 * h.subpackage_handle_mark4) % 16 ≡ h.data_type4 =
      omega (arith, v.data_type_fits) in
    let mark : (h.data_type4 + 16 * h.subpackage_handle_mark4) / 16 ≡ h.subpackage_handle_mark4 =
      omega (arith, v.data_type_fits) in
    ap (λ sim. header_at ((header_front h ++ (sim ++ header_back h)) ++ rest)) v.sim ∙ λ i. record {
      frame_head_mark = four_bytes h.frame_head_mark v.mark_fits i;
      v2 = v2 i;
      p1 = p1 i;
      x1 = x1 i;
      cc4 = cc4 i;
      m1 = m1 i;
      pt7 = pt7 i;
      package_sequence = two_bytes h.package_sequence v.sequence_fits i;
      sim_card_number = sym v.sim i;
      logic_channel_number = h.logic_channel_number;
      data_type4 = kind i;
      subpackage_handle_mark4 = mark i;
      time_stamp = eight_bytes h.time_stamp v.time_fits i;
      last_i_frame_interval = two_bytes h.last_i_frame_interval v.last_i_fits i;
      last_frame_interval = two_bytes h.last_frame_interval v.last_fits i;
      body_len = two_bytes h.body_len v.body_len_fits i;
    }

-- The data of an IPC packet that `SendMsg` sends for a packet of a car, the device id, the header as it
-- lies in memory and the payload, is read as this device id, this header and this payload.
pub packet_behind-relayed :
    (id : ℕ) (h : Header) (body : Bytes)
    → id < 2 ^ 64
    → IsHeader h
    → length body ≡ h.body_len
    → let relayed = le_bytes 8 id ++ (header_bytes h ++ body) in
      (device_id_at relayed ≡ id)
      × (packet_behind relayed ≡ some (record { header = h; body = body }))
unfolding packet_behind le_bytes header_bytes header_front header_back
packet_behind-relayed id h body small v same =
    let relayed : Bytes → Bytes =
      λ sim. le_bytes 8 id ++ ((header_front h ++ (sim ++ header_back h)) ++ body) in
    let r = relayed h.sim_card_number in
    let header : header_at (drop 8 r) ≡ h = header_at-header_bytes h body v in
    let behind : drop 38 r ≡ body = ap (λ sim. drop 38 (relayed sim)) v.sim in
    let size : length r ≡ 38 + length body = ap (λ sim. length (relayed sim)) v.sim ∙ omega arith in
    let says : (header_at (drop 8 r)).body_len ≡ h.body_len = ap (λ h. h.body_len) header in
    (
      eight_bytes id small,
      if_else (ltb (length r) 38) _ _ (le→ltb (length r) 38 (omega (arith, size)))
          ∙ if_else (ltb (length (drop 38 r)) (header_at (drop 8 r)).body_len) _ _ (
              le→ltb (length (drop 38 r)) (header_at (drop 8 r)).body_len
                (omega (arith, ap length behind, says, same)))
          ∙ λ i. some (record { header = header i; body = behind i }),
    )
