-- ===== src/Jt1078/CarSession/Chunks.antt =====
-- CarSession.cpp: how the bytes of a stream are cut into reads makes no difference.
use multi_process_server.Base.{
  concat, ℕ, suc, ◌≤◌, ◌<◌, ◌≡◌, refl, sym, ap, subst, ◌∙◌, arith, List, [], ◌∷◌, ◌++◌,
  append_assoc, Bytes, length, Option,
}
use multi_process_server.Buffer.{Alloc, Buffer, append, max_size_once_read}
use multi_process_server.Buffer.Contents.{readable, readable-append, append-IsReadable}
use multi_process_server.Buffer.Push.{Pushed, full, accepted, push-Pushed}
use multi_process_server.Jt1078.Header.{jt1078_max_length}
use multi_process_server.Jt1078.Decoder.Invariant.{IsValid, weight}
use multi_process_server.Jt1078.Decoder.Ahead.{Ahead}
use multi_process_server.Jt1078.Decoder.{Decoder, push_buffer, pushed, max_buffer_size}
use multi_process_server.Jt1078.CarSession.Total.{weight-drain_fuel}
use multi_process_server.Jt1078.CarSession.{
  Event, Parsed, events, after_decode, drain, drain_fuel, parse_buffer, after_push, feed, then_feed,
}
use multi_process_server.Jt1078.CarSession.Drain.{
  drain_alike, Continues, drain-Continues, Waits, Rests, rests, ends, drain-Rests,
}

-- No chunk is larger than one read.
abbrev pub AllSmall : List Bytes → Type 0
AllSmall [] = Unit {0}
AllSmall (c ∷ cs) = (length c ≤ max_size_once_read) × AllSmall cs

-- Between two reads: nothing is left to do, and less than a packet is kept.
pub record IsIdle (d : Decoder) : Type 0 where
  pub valid : IsValid d
  pub few : length (readable d.buffer) ≤ jt1078_max_length
  pub waits : Waits d

module _ (alloc : Alloc) where
  -- `d` with the bytes appended.
  unfoldable pub extend : Bytes → Decoder → Decoder
  extend more d = record d { buffer = append alloc more d.buffer }

  pub extend-IsValid : (more : Bytes) (d : Decoder) → IsValid d → IsValid (extend more d)
  unfolding extend
  extend-IsValid more d v = record {
    sound = append-IsReadable alloc more d.buffer v.sound;
    room = v.room;
    place = v.place;
  }

  pub extend-Ahead : (more : Bytes) (d : Decoder) → IsValid d → Ahead more d (extend more d)
  unfolding extend
  extend-Ahead more d v = record {
    same_packet = refl;
    same_howmuch = refl;
    same_status = refl;
    left = v.sound;
    right = append-IsReadable alloc more d.buffer v.sound;
    content = readable-append alloc more d.buffer v.sound;
  }

  idle-events :
      (d e : Decoder) (n : ℕ)
      → IsIdle d
      → IsValid e
      → Ahead [] d e
      → weight e < n
      → [] ≡ events (drain n e)
  unfolding drain
  idle-events d e n i v a h =
      let (d1, w) = i.waits in
      ap (λ r. events (after_decode (drain (drain_fuel d)) r)) (sym w)
      ∙ drain_alike (suc (drain_fuel d)) n d e i.valid v a (omega (arith, weight-drain_fuel d)) h

  then_feed_step :
      (more : Bytes) (rest : Decoder → List Event) {s : Parsed} (all : List Event)
      → Rests s
      → Continues more s all
      → ((c : Decoder)
          → IsIdle c
          → rest c ≡ events (drain (drain_fuel (extend more c)) (extend more c)))
      → then_feed alloc rest s ≡ all
  then_feed_step more rest all (rests {es} {d} v few w) goes_on later =
      let idle : IsIdle d = record { valid = v; few = few; waits = w } in
      ap (◌++◌ es) (later d idle)
      ∙ sym (
          goes_on (extend more d) (drain_fuel (extend more d)) (extend-IsValid more d v)
            (extend-Ahead more d v) (weight-drain_fuel (extend more d)))
  then_feed_step more rest all ends goes_on later = sym goes_on

  module _ (cs : List Bytes) (c : Bytes) (d e : Decoder) (n : ℕ) where
    pushed-feed :
        ((x : Decoder)
          → IsIdle x
          → feed alloc cs x
            ≡ events (drain (drain_fuel (extend (concat cs) x)) (extend (concat cs) x)))
        → length c ≤ max_size_once_read
        → IsIdle d
        → IsValid e
        → Ahead (c ++ concat cs) d e
        → weight e < n
        → {o : Option Buffer} → Pushed alloc max_buffer_size c d.buffer o
        → then_feed alloc (feed alloc cs) (after_push alloc (pushed d o)) ≡ events (drain n e)
    pushed-feed later small i v a h (full over) = absurd (omega (arith, i.few))
    pushed-feed later small i v a h (accepted {c = b} room ok held) =
        then_feed_step (concat cs) (feed alloc cs) (events (drain n e))
          (drain-Rests (drain_fuel begun) begun valid (weight-drain_fuel begun))
          (drain-Continues (concat cs) (drain_fuel begun) n begun e valid v further
            (weight-drain_fuel begun) h)
          later
      where
        begun : Decoder
        begun = record d { buffer = b }

        valid : IsValid begun
        valid = record { sound = ok; room = i.valid.room; place = i.valid.place }

        further : Ahead (concat cs) begun e
        further = record {
          same_packet = a.same_packet;
          same_howmuch = a.same_howmuch;
          same_status = a.same_status;
          left = ok;
          right = a.right;
          content =
              a.content
              ∙ sym (append_assoc (readable d.buffer) c (concat cs))
              ∙ ap (λ xs. xs ++ concat cs) (sym held);
        }

  pub feed-drain :
      (cs : List Bytes) (d e : Decoder) (n : ℕ)
      → AllSmall cs
      → IsIdle d
      → IsValid e
      → Ahead (concat cs) d e
      → weight e < n
      → feed alloc cs d ≡ events (drain n e)
  unfolding feed parse_buffer push_buffer
  feed-drain [] d e n small i v a h = idle-events d e n i v a h
  feed-drain (c ∷ cs) d e n small i v a h =
      pushed-feed cs c d e n
        (λ x ix.
          feed-drain cs x (extend (concat cs) x) (drain_fuel (extend (concat cs) x)) small.1 ix
            (extend-IsValid (concat cs) x ix.valid) (extend-Ahead (concat cs) x ix.valid)
            (weight-drain_fuel (extend (concat cs) x)))
        small.0 i v a h (push-Pushed alloc max_buffer_size c d.buffer i.valid.sound)

  -- From an idle decoder, any two ways to cut a stream of bytes into reads of at most 5 KB give the
  -- same events: the same packets in the same order, and the same error, if there is one.
  pub feed-concat :
      (cs cs' : List Bytes) (d : Decoder)
      → concat cs ≡ concat cs'
      → AllSmall cs
      → AllSmall cs'
      → IsIdle d
      → feed alloc cs d ≡ feed alloc cs' d
  feed-concat cs cs' d same small small' i =
      let e = extend (concat cs) d in
      let v = extend-IsValid (concat cs) d i.valid in
      let a = extend-Ahead (concat cs) d i.valid in
      feed-drain cs d e (drain_fuel e) small i v a (weight-drain_fuel e)
      ∙ sym (
          feed-drain cs' d e (drain_fuel e) small' i v (subst (λ xs. Ahead xs d e) same a)
            (weight-drain_fuel e))
