-- ===== src/Forward/Server/Delivery.antt =====
-- ForwardServer.cpp, Publisher.cpp and Channel.cpp: what a subscriber is sent of the packets that are
-- published.
use multi_process_server.Base.{
  ℕ, ◌≡◌, refl, sym, ap, subst, ◌∙◌, true, false, Bool-cases, inl, inr, List, [], ◌∷◌, ◌++◌,
  append_assoc, append-nil, map, some, find,
}
use multi_process_server.Jt1078.Header.{Packet}
use multi_process_server.Ipc.Packet.{next_seq_id}
use multi_process_server.Tcp.Stream.{stream}
use multi_process_server.Forward.Subscriber.{Subscriber, frame}
use multi_process_server.Forward.Subscriber.Relay.{Published, sent_frames}
use multi_process_server.Forward.Publisher.{
  Objects, Channel, send_one, send_each, publish_in, publish,
}
use multi_process_server.Forward.Server.{Server, publish_packet}
use multi_process_server.Forward.Server.Reached.{
  Absent, Once, Stays, Sent, send_one-Sent, send_each-Absent, send_each-Reached, find-alter,
}

-- The session is once in the channel of the device, or it is in none of it.
abbrev pub Subscribed : ℕ → ℕ → Server → Type 0
Subscribed id u s = (c : Channel) × (find id s.channels ≡ some c) × Once u c.subscribers

abbrev Dropped : ℕ → ℕ → Server → Type 0
Dropped id u s = (c : Channel) × (find id s.channels ≡ some c) × Absent u c.subscribers

abbrev pub subscriber : ℕ → Server → Subscriber
subscriber u s = s.objects u

-- `Publish` for each of these packets of a device.
unfoldable pub publish_all : ℕ → List Packet → Server → Server
unfolding publish_packet
publish_all id [] s = s
publish_all id (p ∷ ps) s = publish_all id ps (publish_packet id p s)

publish_packet-found :
    (id : ℕ) (p : Packet) (s : Server) (c : Channel)
    → find id s.channels ≡ some c
    → let r = send_each p id c.subscribers s.objects in
      (find id (publish_packet id p s).channels ≡ some (record c { subscribers = r.0 }))
      × ((publish_packet id p s).objects ≡ r.1)
unfolding publish_packet publish
publish_packet-found id p s c h =
    let kept = (send_each p id c.subscribers s.objects).0 in
    (
      ap (λ o. find id (publish_in p id s.channels s.objects o).0) h
          ∙ find-alter id (λ c. record c { subscribers = kept }) s.channels c h,
      ap (λ o. (publish_in p id s.channels s.objects o).1) h,
    )

Dropped-unchanged :
    (id u : ℕ) (ps : List Packet) (s : Server)
    → Dropped id u s
    → subscriber u (publish_all id ps s) ≡ subscriber u s
unfolding publish_all
Dropped-unchanged id u [] s d = refl
Dropped-unchanged id u (p ∷ ps) s (c, there, a) =
    let (kept, same) = send_each-Absent p id u c.subscribers s.objects a in
    let (there', objects) = publish_packet-found id p s c there in
    Dropped-unchanged id u ps (publish_packet id p s) (_, there', kept)
    ∙ ap (λ (o : Objects). o u) objects
    ∙ same

abbrev pub under : ℕ → List Packet → List Published
under id ps = map (λ p. (id, p)) ps

-- The bytes that packets add to the stream of a subscriber.
abbrev pub Delivered : ℕ → List Packet → Subscriber → Subscriber → Type 0
Delivered id ps s s' =
    stream s'.session ≡ stream s.session ++ sent_frames s.last_ipc_pkt_seq_id (under id ps)

Delivered-next :
    (id : ℕ) (p : Packet) (ps : List Packet) (s s' s'' : Subscriber)
    → (stream s'.session ≡ stream s.session ++ frame (next_seq_id s.last_ipc_pkt_seq_id) id p)
      × (s'.last_ipc_pkt_seq_id ≡ next_seq_id s.last_ipc_pkt_seq_id)
    → Delivered id ps s' s''
    → Delivered id (p ∷ ps) s s''
unfolding sent_frames
Delivered-next id p ps s s' s'' (first, seq) later =
    later
    ∙ (λ i. first i ++ sent_frames (seq i) (under id ps))
    ∙ append_assoc (stream s.session) (frame (next_seq_id s.last_ipc_pkt_seq_id) id p) _

pub publish_all-Delivered :
    (id u : ℕ) (ps : List Packet) (s : Server)
    → Subscribed id u s
    → (subscriber u s).session.can_write ≡ true
    → (subscriber u (publish_all id ps s)).session.can_write ≡ true
    → Delivered id ps (subscriber u s) (subscriber u (publish_all id ps s))
unfolding publish_all sent_frames
publish_all-Delivered id u [] s member open_before open_after = sym (append-nil _)
publish_all-Delivered id u (p ∷ ps) s (c, there, once) open_before open_after =
    let (stays, reached) = send_each-Reached p id u c.subscribers s.objects once in
    let (there', objects) = publish_packet-found id p s c there in
    let s' = publish_packet id p s in
    let now : subscriber u s' ≡ send_one p id (subscriber u s) =
      ap (λ (o : Objects). o u) objects ∙ reached in
    elim (Bool-cases (send_one p id (subscriber u s)).session.can_write) [
      | inl still ↦
          let opened : (subscriber u s').session.can_write ≡ true =
            ap (λ (v : Subscriber). v.session.can_write) now ∙ still in
          let joined : Subscribed id u s' = (
            _,
            there',
            subst (λ b. Stays u b (send_each p id c.subscribers s.objects).0) still stays,
          ) in
          Delivered-next id p ps (subscriber u s) (subscriber u s')
            (subscriber u (publish_all id ps s'))
            (subst (Sent p id (subscriber u s)) (sym now)
              (send_one-Sent p id (subscriber u s) open_before) opened)
            (publish_all-Delivered id u ps s' joined opened open_after)
      | inr closed ↦
          let out : Dropped id u s' = (
            _,
            there',
            subst (λ b. Stays u b (send_each p id c.subscribers s.objects).0) closed stays,
          ) in
          let last : (subscriber u (publish_all id ps s')).session.can_write ≡ false =
            ap (λ (v : Subscriber). v.session.can_write) (Dropped-unchanged id u ps s' out ∙ now)
            ∙ closed in
          absurd cc
    ]
