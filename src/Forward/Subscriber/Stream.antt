-- ===== src/Forward/Subscriber/Stream.antt =====
-- Subscriber.cpp: `SendMsg` sends a packet whole or not at all.
use multi_process_server.Base.{
  ◌≡◌, refl, ap, ◌∙◌, Bool, true, false, List, [], ◌∷◌, ◌++◌, Bytes, length, ltb, ltb→le, if_elim,
}
use multi_process_server.Buffer.{Count, count, minus_one}
use multi_process_server.Tcp.{Session, Sent, send_pending}
use multi_process_server.Tcp.Stream.{
  stream, Accepted, part, later, never, send_buffer-Accepted, send_pending-stream, push_back-stream,
  same-stream, rest-stream, whole-stream,
}
use multi_process_server.Tcp.Sender.{Posted, taken, refused, Posted-from, Sender}
use multi_process_server.Forward.Subscriber.{after_send, send_behind, send_after, send_bytes}

-- Whether the value is not -1.
abbrev pub answered : Count × Session → Bool × Session
answered (count n, s) = (true, s)
answered (minus_one, s) = (false, s)

after_send-Posted :
    (xs : Bytes) (s : Session) {r : Sent × Session}
    → s.pending ≡ []
    → Accepted xs s r
    → Posted xs s (answered (after_send xs r))
after_send-Posted xs s none (part {n} {s'} h w e) =
    if_elim (λ r. Posted xs s (answered r)) (ltb n (length xs))
      (λ less. taken (rest-stream n xs s s' none w e))
      λ enough. taken (whole-stream n xs s s' none w e (ltb→le n (length xs) enough))
after_send-Posted xs s none (later {s'} w e) =
    taken (push_back-stream xs s' ∙ ap (λ v. v ++ xs) (same-stream s s' w e))
after_send-Posted xs s none (never {s'} w e c) = refused (same-stream s s' w e) c

send_behind-Posted :
    (xs : Bytes) (s s' : Session) (ps : List Bytes)
    → s'.pending ≡ ps
    → stream s' ≡ stream s
    → Posted xs s (answered (send_behind ps xs s'))
send_behind-Posted xs s s' [] none e =
    Posted-from xs s s' e (after_send-Posted xs s' none (send_buffer-Accepted xs s'))
send_behind-Posted xs s s' (p ∷ ps) some e =
    if_elim (λ r. Posted xs s (answered r)) s'.can_write
      (λ _. taken (push_back-stream xs s' ∙ ap (λ v. v ++ xs) e)) (λ closed. refused e closed)

send_after-Posted :
    (xs : Bytes) (s : Session) (ps : List Bytes)
    → s.pending ≡ ps
    → Posted xs s (answered (send_after ps xs s))
send_after-Posted xs s [] none = after_send-Posted xs s none (send_buffer-Accepted xs s)
send_after-Posted xs s (p ∷ ps) some =
    send_behind-Posted xs s (send_pending s) (send_pending s).pending refl (send_pending-stream s)

-- `SendMsg` says other than -1 where the stream of what was sent and what is pending has the whole
-- packet at its end, and -1 where that stream is the one before and the socket cannot be written to.
pub send_bytes-Posted : (xs : Bytes) (s : Session) → Posted xs s (answered (send_bytes xs s))
unfolding send_bytes
send_bytes-Posted xs s = send_after-Posted xs s s.pending refl

-- The sessions of the forward server send whole packets.
abbrev pub forward_sender : Sender
forward_sender = record {
  post = λ xs s. answered (send_bytes xs s);
  post-Posted = send_bytes-Posted;
}
