-- ===== src/WebSocket/Server/Requests.antt =====
-- CarWebSocketServer.cpp: the requests that are made, counted by device.
use multi_process_server.Base.{
  ℕ, suc, ◌+◌, ◌<◌, ◌^◌, ◌≡◌, refl, ap, ◌∙◌, arith, ◌==◌, if◌then◌else◌, if_elim, Bool, true, false,
  List, [], ◌∷◌, ◌++◌, some, ◌>>=◌,
}
use multi_process_server.DeviceId.{generate_device_id}
use multi_process_server.DeviceId.Text.{generate_device_id-generate_device_id_str_by_device_id}
use multi_process_server.WebSocket.Topics.{Topics, no_handles, empty_topics}
use multi_process_server.WebSocket.Server.{Notice, unsubscribe_each}
use multi_process_server.WebSocket.Server.Counts.{count}

abbrev pub agrees : Bool → Bool → Bool
agrees true b = b
agrees false true = false
agrees false false = true

-- How many of the requests subscribe to a device, or unsubscribe from it.
abbrev pub tally : ℕ → Bool → List Notice → ℕ
tally k b [] = 0
tally k b (n ∷ ns) =
    let rest = tally k b ns in
    if agrees n.subscribes b
    then (if generate_device_id n.text == k then suc rest else rest)
    else rest

pub tally-append :
    (k : ℕ) (b : Bool) (xs ys : List Notice) → tally k b (xs ++ ys) ≡ tally k b xs + tally k b ys
tally-append k b [] ys = omega arith
tally-append k b (n ∷ xs) ys = ground (arith, tally-append k b xs ys)

-- The ids of the topics have at most 14 digits.
abbrev pub AllShort : List ℕ → Type 0
AllShort [] = Unit {0}
AllShort (j ∷ js) = (j < 2 ^ 56) × AllShort js

abbrev pub ShortTopics : Topics → Type 0
ShortTopics [] = Unit {0}
ShortTopics ((j, hs) ∷ m) = (j < 2 ^ 56) × ShortTopics m

pub empty_topics-AllShort : (m : Topics) → ShortTopics m → AllShort (empty_topics m)
unfolding empty_topics
empty_topics-AllShort [] v = v
empty_topics-AllShort ((j, hs) ∷ m) (small, v) =
    if_elim AllShort (no_handles hs) (λ _. (small, empty_topics-AllShort m v))
      (λ _. empty_topics-AllShort m v)

-- The requests to unsubscribe from devices with short ids are made, one for each.
pub record Unsubscribed (ids : List ℕ) : Type 0 where
  pub made : List Notice
  pub done : unsubscribe_each ids ≡ some made
  pub ends : (k : ℕ) → tally k false made ≡ count k ids
  pub begins : (k : ℕ) → tally k true made ≡ 0

pub unsubscribe_each-Unsubscribed : (ids : List ℕ) → AllShort ids → Unsubscribed ids
unfolding unsubscribe_each
unsubscribe_each-Unsubscribed [] v = record {
  made = [];
  done = refl;
  ends = λ k. refl;
  begins = λ k. refl;
}
unsubscribe_each-Unsubscribed (id ∷ ids) (small, v) =
    let (text, written, read) = generate_device_id-generate_device_id_str_by_device_id id small in
    let rest = unsubscribe_each-Unsubscribed ids v in
    let notice : Notice = record { text = text; subscribes = false } in
    record {
      made = notice ∷ rest.made;
      done =
          ap
            (λ r. r >>= λ text.
              unsubscribe_each ids >>= λ ns. some (record { text = text; subscribes = false } ∷ ns))
            written
          ∙ ap (λ r. r >>= λ ns. some (notice ∷ ns)) rest.done;
      ends = λ k.
          ap (λ i. if i == k then suc (tally k false rest.made) else tally k false rest.made) read
          ∙ ap (λ n. if id == k then suc n else n) (rest.ends k);
      begins = rest.begins;
    }
