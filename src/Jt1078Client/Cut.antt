-- ===== src/Jt1078Client/Cut.antt =====
-- Jt1078Client.cpp: a packet of which the kernel accepts a part.
use multi_process_server.Base.{ℕ, min, ◌≡◌, ap, List, ◌∷◌, ◌++◌, Bytes, take, length}
use multi_process_server.Ipc.Packet.{packet_bytes, next_seq_id}
use multi_process_server.Tcp.{Session, Reply, accepts, Sent, send_buffer, send_to}
use multi_process_server.Jt1078Client.{Client, sent_header, send_packet}

-- What `SendPacket` sends as the packet behind `c.last_send`.
abbrev pub packet_of : ℕ → Bytes → Client → Bytes
packet_of mask text c = packet_bytes (sent_header (next_seq_id c.last_send) mask text) ++ text

-- Where the kernel accepts a part of a packet, that part is on the wire and the rest is nowhere: nothing
-- is pending that was not before, and the next packet follows directly.
pub send_packet-cut :
    (n mask : ℕ) (text : Bytes) (rs : List Reply) (c : Client)
    → c.session.replies ≡ accepts n ∷ rs
    → let c' = (send_packet mask text c).1 in
      (c'.session.wire
        ≡ c.session.wire ++ take (min n (length (packet_of mask text c))) (packet_of mask text c))
      × (c'.session.pending ≡ c.session.pending)
      × (c'.session.replies ≡ rs)
unfolding send_packet send_buffer send_to
send_packet-cut n mask text rs c e =
    let sent : send_buffer (packet_of mask text c) c.session
        ≡ send_to (packet_of mask text c) (accepts n ∷ rs) c.session =
      ap (λ r. send_to (packet_of mask text c) r c.session) e in
    (
      ap (λ (p : Sent × Session). p.1.wire) sent,
      ap (λ (p : Sent × Session). p.1.pending) sent,
      ap (λ (p : Sent × Session). p.1.replies) sent,
    )
