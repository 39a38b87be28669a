-- ===== src/Jt1078/CarSession/Total.antt =====
-- CarSession.cpp: `ParseBuffer` always returns, whatever bytes arrive.
use multi_process_server.Base.{
  ℕ, zero, suc, ◌≤◌, ◌<◌, refl, arith, List, [], ◌∷◌, Bytes, length, ◌++◌, Option,
}
use multi_process_server.Buffer.{Alloc, Buffer, empty, reserve}
use multi_process_server.Buffer.Contents.{readable}
use multi_process_server.Buffer.Push.{Pushed, full, accepted, push-Pushed}
use multi_process_server.Jt1078.Header.{Packet, jt1078_max_length}
use multi_process_server.Jt1078.Decoder.Invariant.{
  IsValid, weight, owed, Decoded, waited, refused, completed, decode-Decoded,
}
use multi_process_server.Jt1078.Decoder.{
  Decoder, ReadStatus, read_header_step1, read_header_step2, read_body, Ran, push_buffer,
  new_decoder, max_buffer_size, pushed,
}
use multi_process_server.Jt1078.CarSession.{
  TcpErrorType, user_buffer_full, invalid_packet, Event, packet_complete, packet_error, Parsed,
  parsed, reported, emit, after_decode, drain, drain_fuel, parse_buffer, after_push,
}

-- The call returned with a decoder that is valid: with packets only, and then it waits for more
-- bytes and keeps few, or with packets and an error behind them.
pub data Packets : List Event → Type 0 where
  none_left : Packets []
  packet : {p : Packet} {es : List Event} → Packets es → Packets (packet_complete p ∷ es)

pub data Returns : Parsed → Type 0 where
  returns :
      {es : List Event} {d : Decoder}
      → Packets es
      → IsValid d
      → length (readable d.buffer) ≤ jt1078_max_length
      → Returns (parsed es d)
  fails :
      {es : List Event} {d : Decoder} (e : TcpErrorType)
      → Packets es
      → IsValid d
      → Returns (reported (es ++ packet_error e ∷ []) d)

emit-Returns : (p : Packet) {s : Parsed} → Returns s → Returns (emit (packet_complete p) s)
emit-Returns p (returns es v few) = returns (packet es) v few
emit-Returns p (fails e es v) = fails e (packet es) v

after_decode-Returns :
    (rest : Decoder → Parsed) (d : Decoder) {r : Ran Decoder}
    → Decoded d r
    → ((e : Decoder) → IsValid e → weight e < weight d → Returns (rest e))
    → Returns (after_decode rest r)
after_decode-Returns rest d (waited v w few) later = returns none_left v few
after_decode-Returns rest d (refused v) later = fails invalid_packet none_left v
after_decode-Returns rest d (completed v s w) later = emit-Returns _ (later _ v w)

pub drain-Returns : (fuel : ℕ) (d : Decoder) → IsValid d → weight d < fuel → Returns (drain fuel d)
unfolding drain
drain-Returns zero d v h = absurd (omega arith)
drain-Returns (suc fuel) d v h =
    after_decode-Returns (drain fuel) d (decode-Decoded d v)
      (λ e w k. drain-Returns fuel e w (omega arith))

owed-le : (status : ReadStatus) → owed status ≤ 1
owed-le read_header_step1 = omega arith
owed-le read_header_step2 = omega arith
owed-le read_body = omega arith

pub weight-drain_fuel : (d : Decoder) → weight d < drain_fuel d
weight-drain_fuel d = omega (arith, owed-le d.read_status)

module _ (alloc : Alloc) where
  after_push-Returns :
      (new : Bytes) (d : Decoder) {o : Option Buffer}
      → IsValid d
      → Pushed alloc max_buffer_size new d.buffer o
      → Returns (after_push alloc (pushed d o))
  after_push-Returns new d v (full h) = fails user_buffer_full none_left v
  after_push-Returns new d v (accepted {c} room ok e) =
      let d' = record d { buffer = c } in
      drain-Returns (drain_fuel d') d' (record { sound = ok; room = v.room; place = v.place })
        (weight-drain_fuel d')

  -- Whatever bytes arrive at a valid decoder, `ParseBuffer` returns: no assertion fails, no write
  -- leaves the packet's arrays and the loop ends. It leaves a valid decoder and has handed over
  -- packets, with at most one error, behind them; where it reported none, no more than 950 bytes
  -- are left to read.
  pub parse_buffer-Returns :
      (new : Bytes) (d : Decoder) → IsValid d → Returns (parse_buffer alloc new d)
  unfolding parse_buffer push_buffer
  parse_buffer-Returns new d v =
      after_push-Returns new d v (push-Pushed alloc max_buffer_size new d.buffer v.sound)

  -- A new decoder is valid.
  pub new_decoder-IsValid : IsValid (new_decoder alloc)
  unfolding new_decoder empty reserve
  new_decoder-IsValid = record { sound = omega arith; room = refl; place = refl }
