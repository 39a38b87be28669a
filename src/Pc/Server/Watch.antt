-- ===== src/Pc/Server/Watch.antt =====
-- PcServer.cpp: a client that asks for a device is sent its packets, and what happens to a client
-- that is lost while there is no connection to the forward server.
use multi_process_server.Base.{
  ℕ, ◌≡◌, refl, sym, ap, ◌∙◌, ◌==◌, ==_iff, Bool, true, false, ◌||◌, if◌then◌else◌, if_elim,
  Bool-cases, inl, inr, [], ◌∷◌, Bytes, Map, find, insert, erase, size, find-insert, Option, none,
  some, same_text, is_empty_text,
}
use mathlib.Core.Bool.{true≢false}
use multi_process_server.DeviceId.{generate_device_id}
use multi_process_server.Forward.Server.{type_of, subscribe_device_id, unsubscribe_device_id}
use multi_process_server.Pc.Publisher.{
  Channel, Channels, alter, add_in, add_subscriber, del_subscriber, size_in, size_subscriber,
}
use multi_process_server.Forward.Publisher.{found}
use multi_process_server.Pc.Server.{
  Server, Client, by_client, absent, connected, Done, crashed, done, and_then, is_unwatched, leave,
  set_device_id, try_unsubscribe_old, watch, subscribe, unsubscribe, on_packet_completed,
  on_packet_error, request, subscribes, unsubscribes,
}

-- Whether a session is in a channel.
abbrev pub has : ℕ → Option Channel → Bool
has id none = false
has id (some c) = found (find id c)

-- Whether a session is sent the packets of the device with this text.
abbrev pub is_watching : ℕ → Bytes → Server → Bool
is_watching id text s = has id (find (generate_device_id text) s.channels)

abbrev altered : (Channel → Channel) → Option Channel → Option Channel
altered f none = none
altered f (some c) = some (f c)

find-alter :
    (k : ℕ) (f : Channel → Channel) (m : Channels) → find k (alter k f m) ≡ altered f (find k m)
unfolding find alter
find-alter k f [] = refl
find-alter k f ((j, d) ∷ m) = elim (Bool-cases (j == k)) [
  | inl e ↦ rw (e, e) refl
  | inr e ↦ rw (e, e) (find-alter k f m)
]

self_test : (k : ℕ) → (k == k) ≡ true
self_test k = (==_iff k k).1 refl

found_same : {V : Type 0} (k : ℕ) (v : V) (m : Map V) → find k (insert k v m) ≡ some v
found_same k v m = find-insert k k v m ∙ ap (λ b. if b then some v else find k m) (self_test k)

alone : (id : ℕ) → has id (some ((id, tt) ∷ [])) ≡ true
unfolding find
alone id = rw (self_test id) refl

add_in-has :
    (k id : ℕ) (m : Channels) (o : Option Channel)
    → find k m ≡ o
    → has id (find k (add_in k id m o)) ≡ true
add_in-has k id m none h = ap (has id) (found_same k ((id, tt) ∷ []) m) ∙ alone id
add_in-has k id m (some c) h =
    ap (has id) (find-alter k (insert id tt) m ∙ ap (altered (insert id tt)) h)
    ∙ ap found (found_same id tt c)

at_connected : {A : Type 0} {c : Client} (x y z : A) → c ≡ connected → by_client c x y z ≡ z
at_connected x y z on = ap (λ c. by_client c x y z) on

at_absent : {A : Type 0} {c : Client} (x y z : A) → c ≡ absent → by_client c x y z ≡ x
at_absent x y z off = ap (λ c. by_client c x y z) off

-- A handler that went through, with the connection as it was.
Through : (Server → Type 0) → Done → Type 0
Through P r = (s : Server) × (r ≡ done s) × (s.client ≡ connected) × P s

try_unsubscribe_old-Through :
    (id : ℕ) (text : Bytes) (s : Server)
    → s.client ≡ connected
    → Through (λ _. Unit {0}) (try_unsubscribe_old id text s)
unfolding try_unsubscribe_old Through
try_unsubscribe_old-Through id text s on =
    if_elim (Through (λ _. Unit {0}))
      (is_empty_text (s.objects id).device_id || same_text (s.objects id).device_id text)
      (λ _. (s, refl, on, tt))
      λ _.
        let old = (s.objects id).device_id in
        (
          _,
          at_connected _ _ _ on,
          if_elim (λ (t : Server). t.client ≡ connected) (is_unwatched old (leave id old s))
              (λ _. on) (λ _. on),
          tt,
        )

watch-Through :
    (id : ℕ) (text : Bytes) (s : Server)
    → s.client ≡ connected
    → is_empty_text text ≡ false
    → Through (λ s'. is_watching id text s' ≡ true) (watch id text s)
unfolding watch Through add_subscriber
watch-Through id text s on some_text =
    let device_id = generate_device_id text in
    let s' : Server = record s { channels = add_subscriber device_id id s.channels } in
    let member : is_watching id text s' ≡ true =
      add_in-has device_id id s.channels (find device_id s.channels) refl in
    if_elim (Through (λ t. is_watching id text t ≡ true)) (is_empty_text text)
      (λ e. absurd (true≢false (sym e ∙ some_text)))
      λ _.
        if_elim (Through (λ t. is_watching id text t ≡ true))
          (size_subscriber device_id s'.channels == 1)
          (λ _. (request (subscribes text) s', at_connected _ _ _ on, on, member))
          (λ _. (s', refl, on, member))

subscribe-Through :
    (id : ℕ) (text : Bytes) (s : Server)
    → s.client ≡ connected
    → is_empty_text text ≡ false
    → Through (λ s'. is_watching id text s' ≡ true) (subscribe id text s)
unfolding subscribe Through
subscribe-Through id text s on some_text =
    let (s1, e, on1, _) = try_unsubscribe_old-Through id text s on in
    let (s2, e2, on2, member) = watch-Through id text (set_device_id id text s1) on1 some_text in
    (s2, ap (λ r. and_then r (λ t. watch id text (set_device_id id text t))) e ∙ e2, on2, member)

erase_only : (id : ℕ) → let c : Channel = (id, tt) ∷ [] in erase id c ≡ []
unfolding erase
erase_only id = rw (self_test id) refl

nobody :
    (id : ℕ) (s : Server)
    → let text = (s.objects id).device_id in
      find (generate_device_id text) s.channels ≡ some ((id, tt) ∷ [])
      → is_unwatched text (leave id text s) ≡ true
unfolding del_subscriber size_subscriber size
nobody id s only =
    let k = generate_device_id (s.objects id).device_id in
    ap (λ o. size_in o == 0)
      (find-alter k (erase id) s.channels ∙ ap (altered (erase id)) only ∙ ap some (erase_only id))

-- While the server is connected, a client that asks for a device, in a text that is not empty, is in
-- the channel of that device afterwards, and no null pointer is used.
pub on_packet_completed-Through :
    (id t : ℕ) (text : Bytes) (s : Server)
    → s.client ≡ connected
    → type_of t ≡ subscribe_device_id
    → is_empty_text text ≡ false
    → (s' : Server) × (on_packet_completed id t text s ≡ done s')
      × (s'.client ≡ connected)
      × (is_watching id text s' ≡ true)
unfolding on_packet_completed Through
on_packet_completed-Through id t text s on kind some_text =
    let (s', e, on', member) = subscribe-Through id text s on some_text in
    (
      s',
      at_connected (done s) (done s) _ on
          ∙ ap
              (λ b.
                if b
                then subscribe id text s
                else if type_of t == unsubscribe_device_id
                then unsubscribe id s
                else done s)
              ((==_iff (type_of t) subscribe_device_id).1 kind)
          ∙ e,
      on',
      member,
    )

-- A client that is lost while there is no connection to the forward server, and that alone watched its
-- device, ends in the use of a null pointer.
pub on_packet_error-crash :
    (id : ℕ) (s : Server)
    → s.client ≡ absent
    → is_empty_text (s.objects id).device_id ≡ false
    → find (generate_device_id (s.objects id).device_id) s.channels ≡ some ((id, tt) ∷ [])
    → on_packet_error id s ≡ crashed
unfolding on_packet_error unsubscribe
on_packet_error-crash id s off some_text only =
    let text = (s.objects id).device_id in
    let unwatched : is_unwatched text (leave id text s) ≡ true = nobody id s only in
    rw (some_text, unwatched)
      (ap
        (λ r.
          and_then (and_then r (λ s'. done (set_device_id id [] s')))
            (λ s'. done (record s' { sessions = erase id s'.sessions })))
        (at_absent crashed (done (leave id text s))
          (done (request (unsubscribes text) (leave id text s))) off))
