-- ===== src/Jt1078/Decoder/Invariant.antt =====
-- The state of the decoder of Jt1078Decoder.cpp between two calls, and that `decode` always
-- returns: no assertion fails, no write leaves the body array, and the loop ends.
use multi_process_server.Base.{
  ℕ, zero, suc, ◌+◌, ◌≤◌, ◌<◌, ◌≡◌, refl, subst, sym, ap, ◌∙◌, true, false, ltb, if◌then◌else◌,
  if_elim, ltb→lt, ltb→le, lt→ltb, arith, ◌∷◌, Bytes, length, take, drop, length-append,
  length-drop, length-take,
}
use multi_process_server.Buffer.{read_buffer}
use multi_process_server.Buffer.Contents.{
  IsReadable, readable, readable_bytes-length, read_buffer_enough, readable-skip, skip-IsReadable,
}
use multi_process_server.Jt1078.Header.{Header, Packet, clear, jt1078_max_length}
use multi_process_server.Jt1078.Scan.{
  no_error, need_more_data, invalid_header, Reader, Scanned, next,
}
use multi_process_server.Jt1078.Scan.Rules.{stops, nexts}
use multi_process_server.Jt1078.Decoder.Steps.{
  Outcome, hungry, served, parse_header_step1-Outcome, parse_header_step2-Outcome, second_size,
  parse_header_step2_bound,
}
use multi_process_server.Jt1078.Decoder.{
  Decoder, ReadStatus, read_header_step1, read_header_step2, read_body, body_capacity, Turn, crash,
  again, leave, turn_in, parse_body, store_body, overwrite, decode_loop, decode, Ran, returned,
  reader, proceed, follow,
}

abbrev pub Place : ReadStatus → ℕ → Header → Type 0
Place read_header_step1 n h = n ≡ 16
Place read_header_step2 n h = n ≡ 2
Place read_body n h = (n ≤ jt1078_max_length) × (n ≡ h.body_len)

pub record IsValid (d : Decoder) : Type 0 where
  pub sound : IsReadable d.buffer
  pub room : length d.packet.body ≡ body_capacity
  pub place : Place d.read_status d.howmuch d.packet.header

pub Place-at :
    (d : Decoder) {status : ReadStatus}
    → IsValid d
    → d.read_status ≡ status
    → Place status d.howmuch d.packet.header
Place-at d v e = subst (λ s. Place s d.howmuch d.packet.header) e v.place

Place-back :
    (s status : ReadStatus) (n : ℕ) (h : Header) → s ≡ status → Place status n h → Place s n h
Place-back s status n h e = subst (λ s. Place s n h) (sym e)

-- The bytes to read, and one more for a packet that has been begun.
abbrev pub owed : ReadStatus → ℕ
owed read_header_step1 = 0
owed _ = 1

abbrev pub weight : Decoder → ℕ
weight d = length (readable d.buffer) + owed d.read_status

-- The rounds that the loop may still make.
abbrev pub rounds : ReadStatus → ℕ
rounds read_header_step1 = 3
rounds read_header_step2 = 2
rounds read_body = 1

pub data Turned (d : Decoder) : Turn → Type 0 where
  onward :
      {d' : Decoder}
      → IsValid d'
      → suc (rounds d'.read_status) ≡ rounds d.read_status
      → weight d' < weight d
      → Turned d (again d')
  waits :
      {d' : Decoder}
      → IsValid d'
      → weight d' ≡ weight d
      → length (readable d'.buffer) ≤ jt1078_max_length
      → Turned d (leave need_more_data d')
  rejects : {d' : Decoder} → IsValid d' → Turned d (leave invalid_header d')
  completes :
      {d' : Decoder}
      → IsValid d'
      → d'.read_status ≡ read_header_step1
      → weight d' < weight d
      → Turned d (leave no_error d')

length-overwrite :
    (new old : Bytes) → length new < length old → length (overwrite new old) ≡ length old
length-overwrite new old h =
    length-append new (0 ∷ drop (length new + 1) old)
    ∙ omega (arith, length-drop (length new + 1) old)

length-clear : (p : Packet) → length p.body ≡ body_capacity → length (clear p).body ≡ body_capacity
unfolding clear
length-clear p h = omega (arith, length-drop 1 p.body)

-- Step 1, from the decoder whose packet has been cleared.
step1-Turned :
    (d : Decoder) {s : Scanned (Unit {0})}
    → IsValid d
    → d.read_status ≡ read_header_step1
    → let d' = record d { packet = clear d.packet } in
      Outcome 16 (reader d' d'.packet.header) s → Turned d (proceed d' (λ h. 2) read_header_step2 s)
step1-Turned d v e (hungry few) =
    waits
      (record {
        sound = v.sound;
        room = length-clear d.packet v.room;
        place = Place-back d.read_status read_header_step1 d.howmuch _ e (Place-at d v e);
      })
      refl (omega arith)
step1-Turned d v e (served enough (stops ok)) = rejects (record {
  sound = ok;
  room = length-clear d.packet v.room;
  place = Place-back d.read_status read_header_step1 d.howmuch _ e (Place-at d v e);
})
step1-Turned d v e (served enough (nexts ok spent)) =
    onward (record { sound = ok; room = length-clear d.packet v.room; place = refl }) (rw e refl)
      (rw e (omega (arith, spent)))

second_size-pos : (t : ℕ) → 2 ≤ second_size t
second_size-pos t = ground arith

second_size_bound : (t : ℕ) → second_size t ≤ 14
second_size_bound t = ground arith

step2-Turned :
    (d : Decoder) {s : Scanned (Unit {0})}
    → IsValid d
    → d.read_status ≡ read_header_step2
    → ((r : Reader) → s ≡ next tt r → r.header.body_len ≤ jt1078_max_length)
    → Outcome (second_size d.packet.header.data_type4) (reader d d.packet.header) s
    → Turned d (proceed d (λ h. h.body_len) read_body s)
step2-Turned d v e bound (hungry few) =
    waits (record { sound = v.sound; room = v.room; place = v.place }) refl
      (omega (arith, second_size_bound d.packet.header.data_type4))
step2-Turned d v e bound (served enough (stops ok)) = rejects (record {
  sound = ok;
  room = v.room;
  place = Place-back d.read_status read_header_step2 d.howmuch _ e (Place-at d v e);
})
step2-Turned d v e bound (served enough (nexts ok spent)) =
    onward (record { sound = ok; room = v.room; place = (bound _ refl, refl) }) (rw e refl)
      (rw e (omega (arith, spent, second_size-pos d.packet.header.data_type4)))

body-Turned : (d : Decoder) → IsValid d → d.read_status ≡ read_body → Turned d (parse_body d)
unfolding parse_body
body-Turned d v e =
    rw (readable_bytes-length d.buffer v.sound)
      (if_elim (Turned d) (ltb (length (readable d.buffer)) d.howmuch) few_left whole)
  where
    held : (d.howmuch ≤ jt1078_max_length) × (d.howmuch ≡ d.packet.header.body_len)
    held = Place-at d v e

    few_left : ltb (length (readable d.buffer)) d.howmuch ≡ true → Turned d (leave need_more_data d)
    few_left few = waits v refl (omega (arith, ltb→lt _ _ few, held.0))

    whole :
        ltb (length (readable d.buffer)) d.howmuch ≡ false
        → Turned d (
            if ltb d.howmuch (length d.packet.body)
            then store_body d (read_buffer d.howmuch d.buffer)
            else crash)
    whole few =
        let enough : d.howmuch ≤ length (readable d.buffer) = ltb→le _ _ few in
        let within : d.howmuch < length d.packet.body = omega (arith, v.room, held.0) in
        let body = take d.howmuch (readable d.buffer) in
        let size : length body ≡ d.howmuch =
          omega (arith, length-take d.howmuch (readable d.buffer)) in
        rw (lt→ltb _ _ within, read_buffer_enough d.howmuch d.buffer v.sound enough)
          (completes
            (record {
              sound = skip-IsReadable d.howmuch d.buffer v.sound enough;
              room = length-overwrite body d.packet.body (omega (arith, size)) ∙ v.room;
              place = refl;
            })
            refl
            (rw e (
              omega (
                arith,
                ap length (readable-skip d.howmuch d.buffer),
                length-drop d.howmuch (readable d.buffer),
              ))))

pub turn_in-Turned :
    (status : ReadStatus) (d : Decoder)
    → IsValid d
    → d.read_status ≡ status
    → Turned d (turn_in status d)
turn_in-Turned read_header_step1 d v e =
    step1-Turned d v e
      (rw (Place-at d v e) (parse_header_step1-Outcome (reader d (clear d.packet).header) v.sound))
turn_in-Turned read_header_step2 d v e =
    step2-Turned d v e (λ r. parse_header_step2_bound d.howmuch (reader d d.packet.header))
      (rw (Place-at d v e) (parse_header_step2-Outcome (reader d d.packet.header) v.sound))
turn_in-Turned read_body d v e = body-Turned d v e

-- A call of `decode` returned: the decoder is valid again, and either it waits for more bytes,
-- or it has found an invalid header, or it has a packet and starts anew, with less to read.
pub data Decoded (d : Decoder) : Ran Decoder → Type 0 where
  waited :
      {d' : Decoder}
      → IsValid d'
      → weight d' ≤ weight d
      → length (readable d'.buffer) ≤ jt1078_max_length
      → Decoded d (returned need_more_data d')
  refused : {d' : Decoder} → IsValid d' → Decoded d (returned invalid_header d')
  completed :
      {d' : Decoder}
      → IsValid d'
      → d'.read_status ≡ read_header_step1
      → weight d' < weight d
      → Decoded d (returned no_error d')

Decoded-mono :
    {d d' : Decoder} {s : Ran Decoder} → weight d' < weight d → Decoded d' s → Decoded d s
Decoded-mono h (waited v w few) = waited v (omega arith) few
Decoded-mono h (refused v) = refused v
Decoded-mono h (completed v e w) = completed v e (omega arith)

pub rounds-pos : (status : ReadStatus) → 1 ≤ rounds status
rounds-pos read_header_step1 = omega arith
rounds-pos read_header_step2 = omega arith
rounds-pos read_body = omega arith

follow-Decoded :
    (fuel : ℕ) (rest : Decoder → Ran Decoder)
    → ((d : Decoder) → IsValid d → rounds d.read_status ≤ fuel → Decoded d (rest d))
    → {d : Decoder} {t : Turn} → rounds d.read_status ≤ suc fuel
    → Turned d t
    → Decoded d (follow rest t)
follow-Decoded fuel rest later h (onward v n w) = Decoded-mono w (later _ v (omega arith))
follow-Decoded fuel rest later h (waits v w few) = waited v (omega arith) few
follow-Decoded fuel rest later h (rejects v) = refused v
follow-Decoded fuel rest later h (completes v e w) = completed v e w

decode_loop-Decoded :
    (fuel : ℕ) (d : Decoder)
    → IsValid d
    → rounds d.read_status ≤ fuel
    → Decoded d (decode_loop fuel d)
unfolding decode_loop
decode_loop-Decoded zero d v h = absurd (omega (arith, rounds-pos d.read_status))
decode_loop-Decoded (suc fuel) d v h =
    follow-Decoded fuel (decode_loop fuel) (decode_loop-Decoded fuel) h
      (turn_in-Turned d.read_status d v refl)

pub rounds-le : (status : ReadStatus) → rounds status ≤ 3
rounds-le read_header_step1 = omega arith
rounds-le read_header_step2 = omega arith
rounds-le read_body = omega arith

-- From every valid state `decode` returns: no assertion fails, nothing is written outside the body
-- array, three rounds are enough, and the error code is one of three.
pub decode-Decoded : (d : Decoder) → IsValid d → Decoded d (decode d)
unfolding decode
decode-Decoded d v = decode_loop-Decoded 3 d v (rounds-le d.read_status)
