-- ===== src/Tcp/Stream.antt =====
-- TcpSession.cpp: sending keeps the stream of bytes. What the kernel accepted and what is pending,
-- one behind the other, is `stream`.
use multi_process_server.Base.{
  ℕ, ◌≤◌, ◌≡◌, refl, sym, ap, ◌∙◌, arith, false, List, [], ◌∷◌, ◌++◌, append_assoc, append-nil,
  Bytes, length, take, take-append-drop, take-whole, drop, concat, concat-last, ltb, if_elim,
  ltb→le,
}
use multi_process_server.Tcp.{
  Reply, interrupted, accepts, would_block, fails, Session, Sent, written, again, broken, send_to,
  send_buffer, after_front, send_list, send_pending, push_back,
}

abbrev pub stream : Session → Bytes
stream s = s.wire ++ concat s.pending

-- A call of send: some first bytes were accepted, or none.
pub data Accepted (xs : Bytes) (s : Session) : Sent × Session → Type 0 where
  part :
      {n : ℕ} {s' : Session}
      → n ≤ length xs
      → s'.wire ≡ s.wire ++ take n xs
      → s'.pending ≡ s.pending
      → Accepted xs s (written n, s')
  later : {s' : Session} → s'.wire ≡ s.wire → s'.pending ≡ s.pending → Accepted xs s (again, s')
  never :
      {s' : Session}
      → s'.wire ≡ s.wire
      → s'.pending ≡ s.pending
      → s'.can_write ≡ false
      → Accepted xs s (broken, s')

send_to-Accepted : (xs : Bytes) (rs : List Reply) (s : Session) → Accepted xs s (send_to xs rs s)
unfolding send_to
send_to-Accepted xs [] s = later refl refl
send_to-Accepted xs (interrupted ∷ rs) s = send_to-Accepted xs rs s
send_to-Accepted xs (accepts n ∷ rs) s = part (omega arith) refl refl
send_to-Accepted xs (would_block ∷ rs) s = later refl refl
send_to-Accepted xs (fails ∷ rs) s = never refl refl refl

pub send_buffer-Accepted : (xs : Bytes) (s : Session) → Accepted xs s (send_buffer xs s)
unfolding send_buffer
send_buffer-Accepted xs s = send_to-Accepted xs s.replies s

-- `SendPendingBuffer` and what follows it neither lose nor double a byte.
module _ (xs : Bytes) (rest : List Bytes) (follow : Session → Session) (s : Session) where
  after_front-stream :
      {r : Sent × Session}
      → Accepted xs s r
      → ((t : Session) → stream (follow t) ≡ t.wire ++ concat rest)
      → stream (after_front xs rest follow r) ≡ s.wire ++ (xs ++ concat rest)
  after_front-stream (part {n} {s'} h w e) goes_on =
      if_elim (λ t. stream t ≡ s.wire ++ (xs ++ concat rest)) (ltb n (length xs))
        (λ less.
          ap (λ v. v ++ (drop n xs ++ concat rest)) w
          ∙ append_assoc s.wire (take n xs) (drop n xs ++ concat rest)
          ∙ ap (◌++◌ s.wire) (
              sym (append_assoc (take n xs) (drop n xs) (concat rest))
              ∙ ap (λ v. v ++ concat rest) (take-append-drop n xs)))
        λ enough.
          goes_on s'
          ∙ ap (λ v. v ++ concat rest)
              (w ∙ ap (◌++◌ s.wire) (take-whole n xs (ltb→le n (length xs) enough)))
          ∙ append_assoc s.wire xs (concat rest)
  after_front-stream (later w e) goes_on = ap (λ v. v ++ (xs ++ concat rest)) w
  after_front-stream (never w e c) goes_on = ap (λ v. v ++ (xs ++ concat rest)) w

send_list-stream : (ps : List Bytes) (s : Session) → stream (send_list ps s) ≡ s.wire ++ concat ps
unfolding send_list
send_list-stream [] s = refl
send_list-stream (xs ∷ rest) s =
    after_front-stream xs rest (send_list rest) s (send_buffer-Accepted xs s)
      (send_list-stream rest)

pub send_pending-stream : (s : Session) → stream (send_pending s) ≡ stream s
unfolding send_pending
send_pending-stream s = send_list-stream s.pending s

pub push_back-stream : (xs : Bytes) (s : Session) → stream (push_back xs s) ≡ stream s ++ xs
push_back-stream xs s =
    ap (◌++◌ s.wire) (concat-last s.pending xs) ∙ sym (append_assoc s.wire (concat s.pending) xs)

pub same-stream :
    (s s' : Session) → s'.wire ≡ s.wire → s'.pending ≡ s.pending → stream s' ≡ stream s
same-stream s s' w e i = w i ++ concat (e i)

-- Where nothing is pending, the stream ends with what was just accepted.
module _ (n : ℕ) (xs : Bytes) (s s' : Session) (idle : s.pending ≡ []) where
  part-stream :
      s'.wire ≡ s.wire ++ take n xs → s'.pending ≡ s.pending → stream s' ≡ stream s ++ take n xs
  part-stream w e =
      (λ i. w i ++ concat ((e ∙ idle) i))
      ∙ append-nil (s.wire ++ take n xs)
      ∙ ap (λ v. v ++ take n xs) (sym (ap (λ p. s.wire ++ concat p) idle ∙ append-nil s.wire))

  pub rest-stream :
      s'.wire ≡ s.wire ++ take n xs
      → s'.pending ≡ s.pending
      → stream (push_back (drop n xs) s') ≡ stream s ++ xs
  rest-stream w e =
      push_back-stream (drop n xs) s'
      ∙ ap (λ v. v ++ drop n xs) (part-stream w e)
      ∙ append_assoc (stream s) (take n xs) (drop n xs)
      ∙ ap (◌++◌ (stream s)) (take-append-drop n xs)

  pub whole-stream :
      s'.wire ≡ s.wire ++ take n xs
      → s'.pending ≡ s.pending
      → length xs ≤ n
      → stream s' ≡ stream s ++ xs
  whole-stream w e h = part-stream w e ∙ ap (◌++◌ (stream s)) (take-whole n xs h)
