-- ===== src/WebSocket/Server/Ledger.antt =====
-- CarWebSocketServer.cpp: the requests to subscribe and to unsubscribe balance.
use multi_process_server.Base.{
  ℕ, ◌+◌, ◌≤◌, ◌<◌, ◌^◌, ◌≡◌, refl, sym, ap, subst, ◌∙◌, arith, ◌==◌, if◌then◌else◌, if_elim, Bool,
  true, false, ltb, List, [], ◌∷◌, ◌++◌, Bytes, length, insert, erase, Option, none, some, ◌>>=◌,
}
use multi_process_server.DeviceId.{generate_device_id}
use multi_process_server.WebSocket.Topics.{
  Topics, exists_topic, create_topic, subscribe_topic, remove_subscriber, empty_topics,
  remove_topics,
}
use multi_process_server.WebSocket.Server.{
  Notice, Server, new_server, live, behind, open_topic, add_hdl, open_live, on_open, on_close,
  Happening, opens, closes, run,
}
use multi_process_server.WebSocket.Server.Counts.{
  copies, count, exists-copies, copies-subscribe_topic, copies-remove_subscriber,
  copies-create_topic, copies-removed,
}
use multi_process_server.WebSocket.Server.Requests.{
  tally, tally-append, ShortTopics, empty_topics-AllShort, unsubscribe_each-Unsubscribed,
}

-- Each device has been subscribed to as often as unsubscribed from, and once more while it has its one
-- topic.
record Balanced (s : Server) : Type 0 where
  short : ShortTopics s.topics
  single : (k : ℕ) → copies k s.topics ≤ 1
  even : (k : ℕ) → tally k true s.notices ≡ tally k false s.notices + copies k s.topics

remove_subscriber-Short : (h : ℕ) (m : Topics) → ShortTopics m → ShortTopics (remove_subscriber h m)
unfolding remove_subscriber
remove_subscriber-Short h [] v = v
remove_subscriber-Short h ((j, hs) ∷ m) (small, v) = (small, remove_subscriber-Short h m v)

erase-Short : (i : ℕ) (m : Topics) → ShortTopics m → ShortTopics (erase i m)
unfolding erase
erase-Short i [] v = v
erase-Short i ((j, hs) ∷ m) (small, v) =
    if_elim ShortTopics (j == i) (λ _. erase-Short i m v) (λ _. (small, erase-Short i m v))

remove_topics-Short : (js : List ℕ) (m : Topics) → ShortTopics m → ShortTopics (remove_topics js m)
unfolding remove_topics
remove_topics-Short [] m v = v
remove_topics-Short (j ∷ js) m v = remove_topics-Short js (erase j m) (erase-Short j m v)

create_topic-Short :
    (i : ℕ) (m : Topics) → i < 2 ^ 56 → ShortTopics m → ShortTopics (create_topic i m)
unfolding create_topic insert
create_topic-Short i [] small v = (small, v)
create_topic-Short i ((j, hs) ∷ m) small (s, v) =
    if_elim ShortTopics (j == i) (λ _. (small, v))
      (λ _.
        if_elim ShortTopics (ltb i j) (λ _. (small, (s, v)))
          (λ _. (s, create_topic-Short i m small v)))

subscribe_topic-Short : (i h : ℕ) (m : Topics) → ShortTopics m → ShortTopics (subscribe_topic i h m)
unfolding subscribe_topic
subscribe_topic-Short i h [] v = v
subscribe_topic-Short i h ((j, hs) ∷ m) (s, v) =
    if_elim ShortTopics (j == i) (λ _. (s, v)) (λ _. (s, subscribe_topic-Short i h m v))

on_close-Balanced :
    (h : ℕ) (s : Server) → Balanced s → (s' : Server) × (on_close h s ≡ some s') × Balanced s'
unfolding on_close
on_close-Balanced h s b =
    let left = remove_subscriber h s.topics in
    let ids = empty_topics left in
    let short = remove_subscriber-Short h s.topics b.short in
    let u = unsubscribe_each-Unsubscribed ids (empty_topics-AllShort left short) in
    let closed : List Notice → Server = λ ns. record s {
      topics = remove_topics ids left;
      subscribers = erase h s.subscribers;
      notices = s.notices ++ ns;
    } in
    let parts : (k : ℕ) → copies k s.topics ≡ copies k (remove_topics ids left) + count k ids = λ k.
      sym (copies-remove_subscriber h k s.topics)
      ∙ copies-removed k left (omega (arith, copies-remove_subscriber h k s.topics, b.single k)) in
    (
      closed u.made,
      ap (λ r. r >>= λ ns. some (closed ns)) u.done,
      record {
        short = remove_topics-Short ids left short;
        single = λ k. omega (arith, parts k, b.single k);
        even = λ k. omega (
          arith,
          parts k,
          b.even k,
          u.ends k,
          u.begins k,
          tally-append k true s.notices u.made,
          tally-append k false s.notices u.made,
        );
      },
    )

open_topic-Balanced :
    (text : Bytes) (s : Server)
    → generate_device_id text < 2 ^ 56
    → exists_topic (generate_device_id text) s.topics ≡ false
    → Balanced s
    → Balanced (open_topic text s)
open_topic-Balanced text s small fresh b =
    let id = generate_device_id text in
    let notice : Notice = record { text = text; subscribes = true } in
    let none_yet : copies id s.topics ≡ 0 =
      subst (λ b. if b then 1 ≤ copies id s.topics else (copies id s.topics ≡ 0)) fresh
        (exists-copies id s.topics) in
    record {
      short = create_topic-Short id s.topics small b.short;
      single =
          λ k. ground (arith, copies-create_topic id k s.topics none_yet, none_yet, b.single k);
      even = λ k. ground (
        arith,
        copies-create_topic id k s.topics none_yet,
        b.even k,
        tally-append k true s.notices (notice ∷ []),
        tally-append k false s.notices (notice ∷ []),
      );
    }

add_hdl-Balanced :
    (h : ℕ) (text : Bytes) (s : Server)
    → generate_device_id text < 2 ^ 56
    → Balanced s
    → Balanced (add_hdl h text s)
unfolding add_hdl
add_hdl-Balanced h text s small b =
    let id = generate_device_id text in
    let s1 : Server = record s { subscribers = insert h text s.subscribers } in
    let b1 : Balanced s1 = record { short = b.short; single = b.single; even = b.even } in
    let s2 = if exists_topic id s1.topics then s1 else open_topic text s1 in
    let b2 : Balanced s2 =
      if_elim Balanced (exists_topic id s1.topics) (λ _. b1)
        (λ fresh. open_topic-Balanced text s1 small fresh b1) in
    record {
      short = subscribe_topic-Short id h s2.topics b2.short;
      single = λ k. omega (arith, copies-subscribe_topic id h k s2.topics, b2.single k);
      even = λ k. omega (arith, copies-subscribe_topic id h k s2.topics, b2.even k);
    }

-- The text behind "/live/", where it is accepted, stands for a number of at most 14 digits.
abbrev pub Short : Option Bytes → Type 0
Short none = Unit {0}
Short (some text) = (length text == 14) ≡ true → generate_device_id text < 2 ^ 56

abbrev pub AllLive : List Happening → Type 0
AllLive [] = Unit {0}
AllLive (opens h uri ∷ es) = Short (behind live uri) × AllLive es
AllLive (closes h ∷ es) = AllLive es

on_open-Balanced :
    (h : ℕ) (o : Option Bytes) (s : Server) → Short o → Balanced s → Balanced (open_live h o s)
on_open-Balanced h none s small b = record { short = b.short; single = b.single; even = b.even }
on_open-Balanced h (some text) s small b =
    if_elim Balanced (length text == 14) (λ accepted. add_hdl-Balanced h text s (small accepted) b)
      (λ _. record { short = b.short; single = b.single; even = b.even })

run-Balanced :
    (es : List Happening) (s : Server)
    → AllLive es
    → Balanced s
    → (s' : Server) × (run es s ≡ some s') × Balanced s'
unfolding on_open
run-Balanced [] s all b = (s, refl, b)
run-Balanced (opens h uri ∷ es) s (small, all) b =
    run-Balanced es (on_open h uri s) all (on_open-Balanced h (behind live uri) s small b)
run-Balanced (closes h ∷ es) s all b =
    let (s1, done, b1) = on_close-Balanced h s b in
    let (s2, done2, b2) = run-Balanced es s1 all b1 in (s2, ap (λ r. r >>= run es) done ∙ done2, b2)

-- Whatever connections are opened and closed, with device ids of at most 14 digits: the server goes on,
-- and the forward server has been asked for each device exactly once more than it has been told to stop
-- while the device has a topic, and as often when it has none.
pub run-even :
    (es : List Happening)
    → AllLive es
    → (s : Server) × (run es new_server ≡ some s)
      × ((k : ℕ)
          → tally k true s.notices
            ≡ tally k false s.notices + (if exists_topic k s.topics then 1 else 0))
run-even es all =
    let (s, done, b) =
      run-Balanced es new_server all
        (record { short = tt; single = λ k. omega arith; even = λ k. refl }) in
    (
      s,
      done,
      λ k. b.even k ∙ ap (◌+◌ (tally k false s.notices)) (one_or_none k s.topics (b.single k)),
    )
  where
    if_cases :
        (b : Bool) (n : ℕ) → n ≤ 1 → (if b then 1 ≤ n else (n ≡ 0)) → n ≡ (if b then 1 else 0)
    if_cases true n one more = omega (arith, one, more)
    if_cases false n one e = e

    one_or_none :
        (k : ℕ) (m : Topics) → copies k m ≤ 1 → copies k m ≡ (if exists_topic k m then 1 else 0)
    one_or_none k m one = if_cases (exists_topic k m) (copies k m) one (exists-copies k m)
