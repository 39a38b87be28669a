-- ===== src/Forward/Server/Reached.antt =====
-- Publisher.cpp and Channel.cpp: what a packet that is published does to one session.
use multi_process_server.Base.{
  ℕ, ◌≡◌, refl, sym, ap, subst, ◌∙◌, ◌==◌, if◌then◌else◌, arith, if_then, if_else, if_elim, Bool,
  true, false, Bool-cases, inl, inr, ==_iff, [], ◌∷◌, ◌++◌, some, find, Bytes,
}
use mathlib.Core.Option.{some-injective}
use multi_process_server.Jt1078.Header.{Packet}
use multi_process_server.Ipc.Packet.{next_seq_id}
use multi_process_server.Tcp.{Session}
use multi_process_server.Tcp.Stream.{stream}
use multi_process_server.Tcp.Sender.{Posted, taken, refused}
use multi_process_server.Buffer.{Count, count, minus_one}
use multi_process_server.Forward.Subscriber.{Subscriber, send_bytes, send_msg, frame}
use multi_process_server.Forward.Subscriber.Stream.{answered, send_bytes-Posted}
use multi_process_server.Forward.Publisher.{
  Objects, write, Sessions, Channel, Channels, send_one, send_each, alter,
}

-- A session is not among these, or is among them once.
abbrev pub Absent : ℕ → Sessions → Type 0
Absent u [] = Unit {0}
Absent u ((j, _) ∷ rest) = ((j == u) ≡ false) × Absent u rest

abbrev pub Once : ℕ → Sessions → Type 0
Once u [] = ⊥
Once u ((j, _) ∷ rest) = if j == u then Absent u rest else Once u rest

whole_packet :
    (xs : Bytes) (s : Session) (r : Count × Session)
    → Posted xs s (answered r)
    → r.1.can_write ≡ true
    → stream r.1 ≡ stream s ++ xs
whole_packet xs s (count n, s') (taken e) w = e
whole_packet xs s (minus_one, s') (refused e closed) w = absurd cc

-- Where a subscriber can be written to before and after, it was sent the whole packet.
abbrev pub Sent : Packet → ℕ → Subscriber → Subscriber → Type 0
Sent p id s s' =
    s'.session.can_write ≡ true
    → (stream s'.session ≡ stream s.session ++ frame (next_seq_id s.last_ipc_pkt_seq_id) id p)
      × (s'.last_ipc_pkt_seq_id ≡ next_seq_id s.last_ipc_pkt_seq_id)

pub send_one-Sent :
    (p : Packet) (id : ℕ) (s : Subscriber)
    → s.session.can_write ≡ true
    → Sent p id s (send_one p id s)
unfolding send_msg
send_one-Sent p id s open_before =
    let xs = frame (next_seq_id s.last_ipc_pkt_seq_id) id p in
    subst (Sent p id s) (sym (if_then s.session.can_write _ _ open_before)) λ w.
      (whole_packet xs s.session (send_bytes xs s.session) (send_bytes-Posted xs s.session) w, refl)

write_other : (u j : ℕ) (s : Subscriber) (o : Objects) → (j == u) ≡ false → write j s o u ≡ o u
write_other u j s o other = if_else (u == j) s (o u) (ground arith)

write_same : (u : ℕ) (s : Subscriber) (o : Objects) → write u s o u ≡ s
write_same u s o = if_then (u == u) s (o u) (ground arith)

-- A session that is not in the channel is not touched.
pub send_each-Absent :
    (p : Packet) (id u : ℕ) (ss : Sessions) (o : Objects)
    → Absent u ss
    → Absent u (send_each p id ss o).0 × ((send_each p id ss o).1 u ≡ o u)
unfolding send_each
send_each-Absent p id u [] o a = (tt, refl)
send_each-Absent p id u ((j, t) ∷ rest) o (other, a) =
    let s = send_one p id (o j) in
    let (kept, same) = send_each-Absent p id u rest (write j s o) a in
    (
      if_elim (λ ss. Absent u ss) s.session.can_write (λ _. (other, kept)) (λ _. kept),
      same ∙ write_other u j s o other,
    )

-- One that is in it once is sent the packet, and stays in it while it can be written to.
abbrev pub Stays : ℕ → Bool → Sessions → Type 0
Stays u can_write ss = if can_write then Once u ss else Absent u ss

here-Stays :
    (u : ℕ) (b : Bool) (t : Unit) (kept : Sessions)
    → Absent u kept
    → Stays u b (if b then (u, t) ∷ kept else kept)
here-Stays u true t kept a =
    subst (λ (A : Type 0). A) (sym (if_then (u == u) (Absent u kept) (Once u kept) (ground arith)))
      a
here-Stays u false t kept a = a

behind-Stays :
    (u j : ℕ) (b c : Bool) (t : Unit) (kept : Sessions)
    → (j == u) ≡ false
    → Stays u b kept
    → Stays u b (if c then (j, t) ∷ kept else kept)
behind-Stays u j true true t kept other h =
    subst (λ (A : Type 0). A) (sym (if_else (j == u) (Absent u kept) (Once u kept) other)) h
behind-Stays u j false true t kept other a = (other, a)
behind-Stays u j b false t kept other h = h

-- What `send_each` does to a session.
abbrev pub Reached : Packet → ℕ → ℕ → Sessions → Objects → Type 0
Reached p id u ss o =
    Stays u (send_one p id (o u)).session.can_write (send_each p id ss o).0
    × ((send_each p id ss o).1 u ≡ send_one p id (o u))

first-Reached :
    (p : Packet) (id u : ℕ) (t : Unit) (rest : Sessions) (o : Objects)
    → Absent u rest
    → Reached p id u ((u, t) ∷ rest) o
unfolding send_each
first-Reached p id u t rest o a =
    let s = send_one p id (o u) in
    let (kept, same) = send_each-Absent p id u rest (write u s o) a in
    (here-Stays u s.session.can_write t _ kept, same ∙ write_same u s o)

behind-Reached :
    (p : Packet) (id u j : ℕ) (t : Unit) (rest : Sessions) (o : Objects)
    → (j == u) ≡ false
    → Reached p id u rest (write j (send_one p id (o j)) o)
    → Reached p id u ((j, t) ∷ rest) o
unfolding send_each
behind-Reached p id u j t rest o other (stays, same) =
    let s = send_one p id (o j) in
    let untouched : write j s o u ≡ o u = write_other u j s o other in
    let kept = (send_each p id rest (write j s o)).0 in
    (
      behind-Stays u j (send_one p id (o u)).session.can_write s.session.can_write t kept other
          (subst (λ v. Stays u (send_one p id v).session.can_write kept) untouched stays),
      same ∙ ap (send_one p id) untouched,
    )

pub send_each-Reached :
    (p : Packet) (id u : ℕ) (ss : Sessions) (o : Objects) → Once u ss → Reached p id u ss o
send_each-Reached p id u [] o h = absurd h
send_each-Reached p id u ((j, t) ∷ rest) o h = elim (Bool-cases (j == u)) [
  | inl same ↦
      subst (λ i. Reached p id u ((i, t) ∷ rest) o) (sym ((==_iff j u).0 same))
        (first-Reached p id u t rest o
          (subst (λ (A : Type 0). A) (if_then (j == u) (Absent u rest) (Once u rest) same) h))
  | inr other ↦ behind-Reached p id u j t rest o other (
      send_each-Reached p id u rest (write j (send_one p id (o j)) o)
        (subst (λ (A : Type 0). A) (if_else (j == u) (Absent u rest) (Once u rest) other) h))
]

pub find-alter :
    (k : ℕ) (f : Channel → Channel) (m : Channels) (c : Channel)
    → find k m ≡ some c
    → find k (alter k f m) ≡ some (f c)
unfolding find alter
find-alter k f [] c h = absurd cc
find-alter k f ((j, d) ∷ m) c h = elim (Bool-cases (j == k)) [
  | inl same ↦
      ap (find k) (if_then (j == k) ((j, f d) ∷ m) ((j, d) ∷ alter k f m) same)
      ∙ if_then (j == k) (some (f d)) (find k m) same
      ∙ ap (λ x. some (f x))
          (some-injective _ _ (sym (if_then (j == k) (some d) (find k m) same) ∙ h))
  | inr other ↦
      ap (find k) (if_else (j == k) ((j, f d) ∷ m) ((j, d) ∷ alter k f m) other)
      ∙ if_else (j == k) (some d) (find k (alter k f m)) other
      ∙ find-alter k f m c (sym (if_else (j == k) (some d) (find k m) other) ∙ h)
]
