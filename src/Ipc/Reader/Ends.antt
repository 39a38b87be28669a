-- ===== src/Ipc/Reader/Ends.antt =====
-- The loop over the packets between the servers ends, whatever bytes have arrived.
use multi_process_server.Base.{
  ℕ, zero, suc, ◌+◌, ◌≤◌, ◌<◌, ◌≡◌, refl, ap, ltb, ltb→le, Bool, true, false, not, ◌==◌, if_elim,
  arith, List, [], ◌∷◌, map, Bytes, length, length-drop, Option,
}
use multi_process_server.Buffer.{Alloc, Buffer, get_buffer, empty, reserve}
use multi_process_server.Buffer.Contents.{
  IsReadable, readable, readable_bytes-length, readable-skip, skip-IsReadable,
}
use multi_process_server.Buffer.Push.{Pushed, full, accepted, push-Pushed}
use multi_process_server.Ipc.Packet.{Packet, cleared, packet_size, packet_at}
use multi_process_server.Ipc.Decoder.{
  Decoder, read_header, read_body, Ran, fault, returned, Fault, no_error, need_more_data,
  invalid_header, parse_body, finish, take_header, parse_header, header_done, decode_in, decode,
  push_buffer, pushed, max_buffer_size, new_decoder, ReadStatus,
}
use multi_process_server.Ipc.Reader.Expected.{owed, weight}
use multi_process_server.Ipc.Reader.Frames.{weight-drain_fuel}
use multi_process_server.Ipc.Reader.{
  Message, Drained, faulted, drained, emit, after_decode, drain, read_all, Event, completed,
  Handled, broken, kept, dropped, told,
}

-- The read position is within the buffer, and a decoder at a header reads 16 bytes.
pub record IsReading (d : Decoder) : Type 0 where
  pub sound : IsReadable d.buffer
  pub header : d.read_status ≡ read_header → d.howmuch ≡ packet_size

-- A call of `Decode` with less than `bound` to do.
data Settled (bound : ℕ) : Ran → Type 0 where
  broke : (f : Fault) → Settled bound (fault f)
  waited : {d : Decoder} → IsReading d → Settled bound (returned need_more_data d)
  rejected : {d : Decoder} → IsReading d → Settled bound (returned invalid_header d)
  had : {d : Decoder} → IsReading d → weight d < bound → Settled bound (returned no_error d)

body-Settled :
    (d : Decoder) (bound : ℕ)
    → IsReadable d.buffer
    → d.read_status ≡ read_body
    → length (readable d.buffer) < bound
    → Settled bound (finish (parse_body d))
unfolding parse_body
body-Settled d bound sound status h = rw (readable_bytes-length d.buffer sound) (
    if_elim (λ r. Settled bound (finish r)) (ltb (length (readable d.buffer)) d.howmuch)
      (λ _. waited (record { sound = sound; header = λ e. cc }))
      λ whole.
        if_elim (λ r. Settled bound (finish r)) (ltb d.packet_capacity (packet_size + d.howmuch))
          (λ _. broke Fault.out_of_bounds)
          λ _.
            had
              (record {
                sound =
                    skip-IsReadable d.howmuch d.buffer sound
                      (ltb→le (length (readable d.buffer)) d.howmuch whole);
                header = λ _. refl;
              })
              (omega (
                arith,
                ap length (readable-skip d.howmuch d.buffer),
                length-drop d.howmuch (readable d.buffer),
              )))

module _ (alloc : Alloc) where
  found-Settled :
      (grows : Bool) (d : Decoder) (bound : ℕ)
      → IsReadable d.buffer
      → length (readable d.buffer) < bound
      → Settled bound (header_done alloc (no_error, grows, d))
  found-Settled true d bound sound h = broke Fault.use_after_free
  found-Settled false d bound sound h =
      body-Settled (record d { read_status = read_body; howmuch = d.packet.data_length }) bound
        sound refl h

  taken-Settled :
      (d : Decoder) (p : Packet)
      → IsReading d
      → d.read_status ≡ read_header
      → d.howmuch ≤ length (readable d.buffer)
      → Settled (weight d) (header_done alloc (take_header alloc d p))
  unfolding take_header
  taken-Settled d p v status whole =
      if_elim (λ r. Settled (weight d) (header_done alloc r)) (not (p.head_length == packet_size))
        (λ _. rejected v)
        λ _.
          found-Settled (ltb d.packet_capacity p.data_length) _ (weight d)
            (skip-IsReadable d.howmuch d.buffer v.sound whole)
            (omega (
              arith,
              v.header status,
              ap length (readable-skip d.howmuch d.buffer),
              length-drop d.howmuch (readable d.buffer),
            ))

  header-Settled :
      (d : Decoder)
      → IsReading d
      → d.read_status ≡ read_header
      → Settled (weight d) (header_done alloc (parse_header alloc (record d { packet = cleared })))
  unfolding parse_header
  header-Settled d v status =
      let started : Decoder = record d { packet = cleared } in
      let w : IsReading started = record { sound = v.sound; header = v.header } in
      rw (readable_bytes-length d.buffer v.sound) (
        if_elim (λ r. Settled (weight d) (header_done alloc r))
          (ltb (length (readable d.buffer)) d.howmuch) (λ _. waited w)
          λ whole.
            taken-Settled started (packet_at (get_buffer d.buffer)) w status
              (ltb→le (length (readable d.buffer)) d.howmuch whole))

  decode_in-Settled :
      (status : ReadStatus) (d : Decoder)
      → d.read_status ≡ status
      → IsReading d
      → Settled (weight d) (decode_in alloc status d)
  decode_in-Settled read_header d e v = header-Settled d v e
  decode_in-Settled read_body d e v = body-Settled d (weight d) v.sound e (omega (arith, ap owed e))

  decode-Settled : (d : Decoder) → IsReading d → Settled (weight d) (decode alloc d)
  unfolding decode
  decode-Settled d v = decode_in-Settled d.read_status d refl v

  -- How the loop ends: in a fault, waiting for more bytes, or at a header that is not one.
  pub data Ends : Drained → Type 0 where
    breaks : (ms : List Message) (f : Fault) → Ends (faulted ms f)
    stays : (ms : List Message) {d : Decoder} → IsReading d → Ends (drained ms need_more_data d)
    refuses : (ms : List Message) {d : Decoder} → IsReading d → Ends (drained ms invalid_header d)

  emit-Ends : (m : Message) {r : Drained} → Ends r → Ends (emit m r)
  emit-Ends m (breaks ms f) = breaks (m ∷ ms) f
  emit-Ends m (stays ms v) = stays (m ∷ ms) v
  emit-Ends m (refuses ms v) = refuses (m ∷ ms) v

  after_decode-Ends :
      (rest : Decoder → Drained) {bound : ℕ} {r : Ran}
      → Settled bound r
      → ((d : Decoder) → IsReading d → weight d < bound → Ends (rest d))
      → Ends (after_decode rest r)
  after_decode-Ends rest (broke f) later = breaks [] f
  after_decode-Ends rest (waited v) later = stays [] v
  after_decode-Ends rest (rejected v) later = refuses [] v
  after_decode-Ends rest (had {d} v h) later = emit-Ends (d.packet, d.body) (later d v h)

  drain-Ends : (fuel : ℕ) (d : Decoder) → IsReading d → weight d < fuel → Ends (drain alloc fuel d)
  unfolding drain
  drain-Ends zero d v h = absurd (omega arith)
  drain-Ends (suc fuel) d v h =
      after_decode-Ends (drain alloc fuel) (decode-Settled d v)
        λ e w k. drain-Ends fuel e w (omega arith)

  pub read_all-Ends : (d : Decoder) → IsReading d → Ends (read_all alloc d)
  unfolding read_all
  read_all-Ends d v = drain-Ends _ d v (weight-drain_fuel d)

  -- What a push leaves can be read, whether the bytes were taken in or not.
  pub push_buffer-IsReading :
      (new : Bytes) (d : Decoder) → IsReading d → IsReading (push_buffer alloc new d).1
  unfolding push_buffer
  push_buffer-IsReading new d v = go (push-Pushed alloc max_buffer_size new d.buffer v.sound)
    where
      go :
          {o : Option Buffer}
          → Pushed alloc max_buffer_size new d.buffer o
          → IsReading (pushed alloc d o).1
      go (full h) = v
      go (accepted room ok e) = record { sound = ok; header = v.header }

  pub new_decoder-IsReading : IsReading (new_decoder alloc)
  unfolding new_decoder empty reserve
  new_decoder-IsReading = record { sound = omega arith; header = λ _. refl }

-- OnMessage has ended: in a fault of the decoder, with a decoder that can go on, or with an error told.
pub data Finishes : Handled → Type 0 where
  in_fault : (es : List Event) (f : Fault) → Finishes (broken es f)
  going_on : (es : List Event) {d : Decoder} → IsReading d → Finishes (kept es d)
  in_error : (es : List Event) → Finishes (dropped es)

pub told-Finishes : (alloc : Alloc) {r : Drained} → Ends alloc r → Finishes (told r)
told-Finishes alloc (breaks ms f) = in_fault (map completed ms) f
told-Finishes alloc (stays ms v) = going_on (map completed ms) v
told-Finishes alloc (refuses ms v) = in_error _
