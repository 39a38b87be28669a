-- ===== src/Ipc/Reader/Frames.antt =====
-- The loop over the packets between the servers, on a stream of packets that arrives in any parts.
use multi_process_server.Base.{
  ℕ, zero, suc, ◌+◌, ◌≤◌, ◌<◌, ◌≡◌, refl, sym, ap, ◌∙◌, subst, arith, List, [], ◌∷◌, ◌++◌,
  append_assoc, Bytes, length, Option,
}
use multi_process_server.Buffer.{Alloc, Buffer}
use multi_process_server.Buffer.Contents.{IsReadable, readable}
use multi_process_server.Buffer.Push.{Pushed, full, accepted, push-Pushed}
use multi_process_server.Ipc.Decoder.{
  Decoder, ReadStatus, read_header, read_body, Ran, need_more_data, push_buffer, pushed,
  max_buffer_size, no_error,
}
use multi_process_server.Ipc.Reader.Expected.{
  Expects, at_header, at_body, owed, weight, Step, waits, delivers,
}
use multi_process_server.Ipc.Reader.Steps.{decode-Step}
use multi_process_server.Ipc.Reader.{
  Message, Drained, drained, emit, after_decode, drain, drain_fuel,
}

-- The loop has handed over the first of `ms`, waits for more, and expects the others.
pub data Serves (future : Bytes) (ms : List Message) : Drained → Type 0 where
  serves :
      {first left : List Message} {d : Decoder}
      → ms ≡ first ++ left
      → Expects d future left
      → (future ≡ [] → left ≡ [])
      → length (readable d.buffer) ≤ 1024
      → Serves future ms (drained first need_more_data d)

emit-Serves :
    (m : Message) {future : Bytes} {ms : List Message} {r : Drained}
    → Serves future ms r
    → Serves future (m ∷ ms) (emit m r)
emit-Serves m (serves e x more few) = serves (ap (◌∷◌ m) e) x more few

after_decode-Serves :
    (rest : Decoder → Drained) (d : Decoder) (future : Bytes) {ms : List Message} {r : Ran}
    → Step d future ms r
    → ((d' : Decoder) (left : List Message)
        → Expects d' future left
        → weight d' < weight d
        → Serves future left (rest d'))
    → Serves future ms (after_decode rest r)
after_decode-Serves rest d future (waits x more few) later = serves refl x more few
after_decode-Serves rest d future (delivers {m} {ms} {d'} p b x l) later =
    subst (λ (n : Message). Serves future (m ∷ ms) (emit n (rest d'))) (λ i. (sym p i, sym b i))
      (emit-Serves m (later d' ms x l))

pub drain-Serves :
    (alloc : Alloc) (fuel : ℕ) (d : Decoder) (future : Bytes) (ms : List Message)
    → Expects d future ms
    → weight d < fuel
    → Serves future ms (drain alloc fuel d)
unfolding drain
drain-Serves alloc zero d future ms x h = absurd (omega arith)
drain-Serves alloc (suc fuel) d future ms x h =
    after_decode-Serves (drain alloc fuel) d future (decode-Step alloc d future ms x)
      λ d' left y l. drain-Serves alloc fuel d' future left y (omega arith)

owed-le : (status : ReadStatus) → owed status ≤ 1
owed-le read_header = omega arith
owed-le read_body = omega arith

pub weight-drain_fuel : (d : Decoder) → weight d < drain_fuel d
weight-drain_fuel d = omega (arith, owed-le d.read_status)

-- Bytes that arrive and are pushed were to come, and are unread now.
Expects-more :
    (new future : Bytes) {d d' : Decoder} {ms : List Message}
    → IsReadable d'.buffer
    → readable d'.buffer ≡ readable d.buffer ++ new
    → d'.packet ≡ d.packet
    → d'.packet_capacity ≡ d.packet_capacity
    → d'.howmuch ≡ d.howmuch
    → d'.read_status ≡ d.read_status
    → Expects d (new ++ future) ms
    → Expects d' future ms
Expects-more new future {d} {d'} sound e packet capacity howmuch status
      (at_header ready room all x) =
    at_header
      (record {
        sound = sound;
        at_header = status ∙ ready.at_header;
        wants_header = howmuch ∙ ready.wants_header;
      })
      (omega arith) all
      (ap (λ xs. xs ++ future) e ∙ append_assoc (readable d.buffer) new future ∙ x)
Expects-more new future {d} {d'} sound e packet capacity howmuch status
      (at_body s st p h room fits all x) =
    at_body sound (status ∙ st) (packet ∙ p) (howmuch ∙ h) (omega arith) fits all
      (ap (λ xs. xs ++ future) e ∙ append_assoc (readable d.buffer) new future ∙ x)

module _ (alloc : Alloc) (new future : Bytes) (d : Decoder) (ms : List Message) where
  -- Bytes that are few enough are taken in, and what is expected stays the same.
  pub push_buffer-Expects :
      IsReadable d.buffer
      → length (readable d.buffer) + length new ≤ max_buffer_size
      → Expects d (new ++ future) ms
      → (d' : Decoder) × (push_buffer alloc new d ≡ (no_error, d')) × Expects d' future ms
  unfolding push_buffer
  push_buffer-Expects sound room x = go (push-Pushed alloc max_buffer_size new d.buffer sound)
    where
      go :
          {o : Option Buffer}
          → Pushed alloc max_buffer_size new d.buffer o
          → (d' : Decoder) × (pushed alloc d o ≡ (no_error, d')) × Expects d' future ms
      go (full h) = absurd (omega arith)
      go (accepted {c} fits ok e) =
          (record d { buffer = c }, refl, Expects-more new future ok e refl refl refl refl x)
