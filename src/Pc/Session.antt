-- ===== src/Pc/Session.antt =====
-- pc_server/PcSession.cpp: sending a packet to a PC client. A packet is its bytes, header and data.
pub mod Reading
use multi_process_server.Base.{
  ◌≡◌, refl, ap, ◌∙◌, Bool, true, false, ◌++◌, [], ◌∷◌, List, Bytes, length, drop, ltb, ltb→le,
  if◌then◌else◌, if_elim,
}
use multi_process_server.Tcp.{
  Session, Sent, written, again, broken, send_buffer, send_pending, push_back,
}
use multi_process_server.Tcp.Stream.{
  stream, Accepted, part, later, never, send_buffer-Accepted, send_pending-stream, push_back-stream,
  same-stream, rest-stream, whole-stream,
}
use multi_process_server.Tcp.Sender.{Posted, taken, refused, Posted-from, Sender}

abbrev pub keep_unless_closed : Bytes → Session → Bool × Session
keep_unless_closed xs s = if s.can_write then (true, push_back xs s) else (false, s)

-- The end of `SendPacket`, from the value of `SendBuffer` on.
abbrev pub after_send : Bytes → Sent × Session → Bool × Session
after_send xs (written n, s) =
    if ltb n (length xs) then (true, push_back (drop n xs) s) else (true, s)
after_send xs (again, s) = keep_unless_closed xs s
after_send xs (broken, s) = keep_unless_closed xs s

-- After `SendPendingBuffer`: the packet is sent if nothing is pending now.
abbrev pub send_behind : List Bytes → Bytes → Session → Bool × Session
send_behind [] xs s = after_send xs (send_buffer xs s)
send_behind (_ ∷ _) xs s = keep_unless_closed xs s

abbrev pub send_after : List Bytes → Bytes → Session → Bool × Session
send_after [] xs s = after_send xs (send_buffer xs s)
send_after (_ ∷ _) xs s = let s' = send_pending s in send_behind s'.pending xs s'

unfoldable pub send_packet : Bytes → Session → Bool × Session
unfolding send_buffer send_pending
send_packet xs s = send_after s.pending xs s

keep-Posted :
    (xs : Bytes) (s s' : Session) → stream s' ≡ stream s → Posted xs s (keep_unless_closed xs s')
keep-Posted xs s s' e =
    if_elim (Posted xs s) s'.can_write (λ _. taken (push_back-stream xs s' ∙ ap (λ v. v ++ xs) e))
      (λ closed. refused e closed)

after_send-Posted :
    (xs : Bytes) (s : Session) {r : Sent × Session}
    → s.pending ≡ []
    → Accepted xs s r
    → Posted xs s (after_send xs r)
after_send-Posted xs s none (part {n} {s'} h w e) =
    if_elim (Posted xs s) (ltb n (length xs)) (λ less. taken (rest-stream n xs s s' none w e))
      λ enough. taken (whole-stream n xs s s' none w e (ltb→le n (length xs) enough))
after_send-Posted xs s none (later {s'} w e) = keep-Posted xs s s' (same-stream s s' w e)
after_send-Posted xs s none (never {s'} w e c) = keep-Posted xs s s' (same-stream s s' w e)

send_behind-Posted :
    (xs : Bytes) (s s' : Session) (ps : List Bytes)
    → s'.pending ≡ ps
    → stream s' ≡ stream s
    → Posted xs s (send_behind ps xs s')
send_behind-Posted xs s s' [] none e =
    Posted-from xs s s' e (after_send-Posted xs s' none (send_buffer-Accepted xs s'))
send_behind-Posted xs s s' (p ∷ ps) some e = keep-Posted xs s s' e

send_after-Posted :
    (xs : Bytes) (s : Session) (ps : List Bytes) → s.pending ≡ ps → Posted xs s (send_after ps xs s)
send_after-Posted xs s [] none = after_send-Posted xs s none (send_buffer-Accepted xs s)
send_after-Posted xs s (p ∷ ps) some =
    send_behind-Posted xs s (send_pending s) (send_pending s).pending refl (send_pending-stream s)

-- `SendPacket` says true where the stream of what was sent and what is pending has the whole packet at
-- its end, and false where that stream is the one before and the socket cannot be written to.
pub send_packet-Posted : (xs : Bytes) (s : Session) → Posted xs s (send_packet xs s)
unfolding send_packet
send_packet-Posted xs s = send_after-Posted xs s s.pending refl

-- The sessions of pc_server send whole packets.
abbrev pub pc_sender : Sender
pc_sender = record { post = send_packet; post-Posted = send_packet-Posted }
