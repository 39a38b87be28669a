-- ===== src/Forward/Server/Ledger.antt =====
-- ForwardServer.cpp: the requests to connect and to disconnect a car are balanced by its channel.
use multi_process_server.Base.{
  ℕ, suc, ◌+◌, ◌≤◌, ◌≡◌, refl, ap, subst, ◌∙◌, arith, ◌==◌, Bool, true, false, if◌then◌else◌,
  if_elim, Bool-cases, inl, inr, List, [], ◌∷◌, find, Option, none, some,
}
use multi_process_server.Jt1078.Header.{Packet}
use multi_process_server.Forward.Publisher.{
  Channel, Channels, Objects, exists, create_channel, alter, subscribe, unsubscribe, publish,
  publish_in,
}
use multi_process_server.Forward.Server.{
  Server, command, release_empty, release_channels, from_of, from_web_server, type_of,
  subscribe_device_id, unsubscribe_device_id, open_channel, Happening, connects, sends, is_lost,
  publishes, handle, run, new_server, process_subscriber, process_unsubscriber, on_packet_completed,
  on_packet_error, on_new_connection, publish_packet,
}
use multi_process_server.Forward.Server.Copies.{
  tally, copies, Keyed, tally-append, copies-alter, alter-Keyed, copies-unsubscribe_all,
  unsubscribe_all-Keyed, release_empty-copies, release_empty-opens, release_empty-Keyed,
  exists-copies, copies-create_channel, create_channel-Keyed,
}

-- Each device has been asked to connect as often as to disconnect, and once more while it has its
-- one channel.
pub record Balanced (s : Server) : Type 0 where
  pub keyed : Keyed s.channels
  pub single : (k : ℕ) → copies k s.channels ≤ 1
  pub even : (k : ℕ) → tally k true s.notices ≡ tally k false s.notices + copies k s.channels

-- The channels changed, but not which there are.
pub record Alike (m m' : Channels) : Type 0 where
  pub keeps : Keyed m → Keyed m'
  pub count : (k : ℕ) → copies k m' ≡ copies k m

Alike-Balanced :
    (s : Server) {m : Channels}
    → Alike s.channels m
    → Balanced s
    → Balanced (record s { channels = m })
Alike-Balanced s a b = record {
  keyed = a.keeps b.keyed;
  single = λ k. omega (arith, a.count k, b.single k);
  even = λ k. omega (arith, a.count k, b.even k);
}

alter-Alike :
    (f : Channel → Channel)
    → ((c : Channel) → (f c).channel_id ≡ c.channel_id)
    → (i : ℕ) (m : Channels) → Alike m (alter i f m)
alter-Alike f same i m = record {
  keeps = alter-Keyed f same i m;
  count = λ k. copies-alter f same i k m;
}

release_channels-Balanced : (s : Server) → Balanced s → Balanced (release_channels s)
unfolding release_channels
release_channels-Balanced s b = record {
  keyed = release_empty-Keyed s.is_realtime s.channels b.keyed;
  single = λ k. omega (arith, b.single k, release_empty-copies s.is_realtime k s.channels);
  even = λ k.
      let added = (release_empty s.is_realtime s.channels).1 in
      omega (
        arith,
        b.even k,
        release_empty-copies s.is_realtime k s.channels,
        release_empty-opens s.is_realtime k s.channels,
        tally-append k true s.notices added,
        tally-append k false s.notices added,
      );
}

open_channel-Balanced :
    (device_id t : ℕ) (s : Server)
    → (from_of t == from_web_server) ≡ false
    → exists device_id s.channels ≡ false
    → Balanced s
    → Balanced (open_channel device_id t s)
open_channel-Balanced device_id t s own fresh b = rw own (record {
  keyed = create_channel-Keyed device_id s.channels b.keyed;
  single = λ k. ground (arith, created k, b.single k, none_before);
  even = λ k. ground (
    arith,
    created k,
    b.even k,
    tally-append k true s.notices (command device_id true s.is_realtime ∷ []),
    tally-append k false s.notices (command device_id true s.is_realtime ∷ []),
  );
})
  where
    created :
        (k : ℕ)
        → copies k (create_channel device_id s.channels)
          ≡ (if device_id == k then suc (copies k s.channels) else copies k s.channels)
    created k = copies-create_channel device_id k s.channels b.keyed fresh

    none_before : copies device_id s.channels ≡ 0
    none_before =
        subst
          (λ b. if b then 1 ≤ copies device_id s.channels else (copies device_id s.channels ≡ 0))
          fresh (exists-copies device_id s.channels b.keyed)

publish-Alike : (i : ℕ) (p : Packet) (m : Channels) (o : Objects) → Alike m (publish i p m o).0
unfolding publish
publish-Alike i p m o = in_channel (find i m)
  where
    in_channel : (c : Option Channel) → Alike m (publish_in p i m o c).0
    in_channel none = record { keeps = λ v. v; count = λ k. refl }
    in_channel (some c) = alter-Alike _ (λ c. refl) i m

process_subscriber-Balanced :
    (id t device_id : ℕ) (s : Server)
    → (from_of t == from_web_server) ≡ false
    → Balanced s
    → Balanced (process_subscriber id t device_id s)
unfolding process_subscriber subscribe
process_subscriber-Balanced id t device_id s own b =
    let opened : Balanced (if exists device_id s.channels then s else open_channel device_id t s) =
      if_elim Balanced (exists device_id s.channels) (λ _. b)
        (λ fresh. open_channel-Balanced device_id t s own fresh b) in
    Alike-Balanced _ (alter-Alike _ (λ c. refl) device_id _) opened

process_unsubscriber-Balanced :
    (id device_id : ℕ) (s : Server) → Balanced s → Balanced (process_unsubscriber id device_id s)
unfolding process_unsubscriber unsubscribe
process_unsubscriber-Balanced id device_id s b =
    release_channels-Balanced _
      (Alike-Balanced s (alter-Alike _ (λ c. refl) device_id s.channels) b)

on_packet_error-Balanced : (id : ℕ) (s : Server) → Balanced s → Balanced (on_packet_error id s)
unfolding on_packet_error
on_packet_error-Balanced id s b = release_channels-Balanced _ (record {
  keyed = unsubscribe_all-Keyed id s.channels b.keyed;
  single = λ k. omega (arith, copies-unsubscribe_all id k s.channels, b.single k);
  even = λ k. omega (arith, copies-unsubscribe_all id k s.channels, b.even k);
})

-- No packet comes from a web server, for whose channels no car is asked to connect.
abbrev pub NoWeb : Happening → Type 0
NoWeb (connects id replies) = Unit {0}
NoWeb (sends id t device_id) = (from_of t == from_web_server) ≡ false
NoWeb (is_lost id) = Unit {0}
NoWeb (publishes device_id p) = Unit {0}

abbrev pub AllNoWeb : List Happening → Type 0
AllNoWeb [] = Unit {0}
AllNoWeb (h ∷ hs) = NoWeb h × AllNoWeb hs

handle-Balanced : (h : Happening) (s : Server) → NoWeb h → Balanced s → Balanced (handle h s)
unfolding handle on_new_connection on_packet_completed publish_packet
handle-Balanced (connects id replies) s own b = record {
  keyed = b.keyed;
  single = b.single;
  even = b.even;
}
handle-Balanced (sends id t device_id) s own b =
    if_elim Balanced (type_of t == subscribe_device_id)
      (λ _. process_subscriber-Balanced id t device_id s own b)
      (λ _.
        if_elim Balanced (type_of t == unsubscribe_device_id)
          (λ _. process_unsubscriber-Balanced id device_id s b) (λ _. b))
handle-Balanced (is_lost id) s own b = on_packet_error-Balanced id s b
handle-Balanced (publishes device_id p) s own b =
    let b' = Alike-Balanced s (publish-Alike device_id p s.channels s.objects) b in
    record { keyed = b'.keyed; single = b'.single; even = b'.even }

pub run-Balanced :
    (hs : List Happening) (s : Server) → AllNoWeb hs → Balanced s → Balanced (run hs s)
unfolding run
run-Balanced [] s own b = b
run-Balanced (h ∷ hs) s (own, owns) b =
    run-Balanced hs (handle h s) owns (handle-Balanced h s own b)

pub new_server-Balanced : (r : Bool) (o : Objects) → Balanced (new_server r o)
unfolding new_server
new_server-Balanced r o = record { keyed = tt; single = λ k. omega arith; even = λ k. omega arith }

-- Whatever happens to a new server without packets of a web server, every device has been asked to
-- connect exactly once more than to disconnect while it has a channel, and as often when it has none.
pub run-ledger :
    (hs : List Happening) (r : Bool) (o : Objects) (k : ℕ)
    → AllNoWeb hs
    → let s = run hs (new_server r o) in
      tally k true s.notices ≡ tally k false s.notices + (if exists k s.channels then 1 else 0)
run-ledger hs r o k own =
    let b = run-Balanced hs (new_server r o) own (new_server-Balanced r o) in
    let s = run hs (new_server r o) in
    b.even k ∙ ap (◌+◌ (tally k false s.notices)) (copies_count k s.channels b.keyed (b.single k))
  where
    copies_count :
        (k : ℕ) (m : Channels)
        → Keyed m
        → copies k m ≤ 1
        → copies k m ≡ (if exists k m then 1 else 0)
    copies_count k m v one = elim (Bool-cases (exists k m)) [
      | inl h ↦ rw h (omega (arith, one, at_least h))
      | inr h ↦ rw h (none_at h)
    ]
      where
        at_least : exists k m ≡ true → 1 ≤ copies k m
        at_least h =
            subst (λ b. if b then 1 ≤ copies k m else (copies k m ≡ 0)) h (exists-copies k m v)

        none_at : exists k m ≡ false → copies k m ≡ 0
        none_at h =
            subst (λ b. if b then 1 ≤ copies k m else (copies k m ≡ 0)) h (exists-copies k m v)
