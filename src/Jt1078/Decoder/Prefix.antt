-- ===== src/Jt1078/Decoder/Prefix.antt =====
-- The decoder of Jt1078Decoder.cpp with more bytes behind its own does the same as before.
use multi_process_server.Base.{
  ℕ, zero, suc, ◌≤◌, ◌≡◌, refl, subst, ap, ltb, Bool-cases, inl, inr, ltb→lt, ltb→le, arith, [],
  Bytes, length,
}
use multi_process_server.Buffer.Contents.{readable}
use multi_process_server.Jt1078.Header.{Packet, clear}
use multi_process_server.Jt1078.Scan.{ErrorType, need_more_data}
use multi_process_server.Jt1078.Scan.Rules.{Grown, Follows}
use multi_process_server.Jt1078.Decoder.Steps.{parse_header_step1-Tracks, parse_header_step2-Tracks}
use multi_process_server.Jt1078.Decoder.{
  Decoder, ReadStatus, read_header_step1, read_header_step2, read_body, Turn, turn_in, parse_body,
  decode_loop, decode, Ran, crashed, out_of_fuel, returned, reader, follow, parse_header_step1,
  parse_header_step2,
}
use multi_process_server.Jt1078.Decoder.Ahead.{
  Ahead, prepared, Near, Ahead-Near, Near-Ahead, Waiting, Keeps, proceed-Keeps, Ahead-length,
  store_body-Ahead, parse_body_short, parse_body_outside, parse_body_whole, waiting, crashes, waits,
  leaves, agains,
}

module _ (more : Bytes) (d d' : Decoder) (a : Ahead more d d') where
  same_room : length d.packet.body ≡ length d'.packet.body
  same_room = ap (λ p. length (Packet.body p)) a.same_packet

  parse_body-Keeps : Keeps more (parse_body d) (parse_body d')
  parse_body-Keeps = elim (Bool-cases (ltb (length (readable d.buffer)) d.howmuch)) [
    | inl e ↦
        let few = ltb→lt (length (readable d.buffer)) d.howmuch e in
        rw (parse_body_short d a.left few) (
          waits λ none_left.
            rw
              (parse_body_short d' a.right
                (omega (arith, few, Ahead-length a, a.same_howmuch, ap length none_left)))
              (waiting (subst (λ xs. Ahead xs d d') none_left a)))
    | inr e ↦ there (ltb→le (length (readable d.buffer)) d.howmuch e)
  ]
    where
      there : d.howmuch ≤ length (readable d.buffer) → Keeps more (parse_body d) (parse_body d')
      there h =
          let h' : d'.howmuch ≤ length (readable d'.buffer) =
            omega (arith, Ahead-length a, a.same_howmuch) in
          elim (Bool-cases (ltb d.howmuch (length d.packet.body))) [
            | inl k ↦
                let within = ltb→lt d.howmuch (length d.packet.body) k in
                rw
                  (
                    parse_body_whole d a.left h within,
                    parse_body_whole d' a.right h'
                        (omega (arith, within, same_room, a.same_howmuch)),
                  )
                  (store_body-Ahead a h)
            | inr k ↦ rw (parse_body_outside d a.left h (ltb→le _ _ k)) crashes
          ]

module _ (more : Bytes) (d d' : Decoder) (a : Near more d d') where
  seen :
      (status : ReadStatus)
      → d.read_status ≡ status
      → prepared status d.packet ≡ prepared status d'.packet
  seen status e = subst (λ s. prepared s d.packet ≡ prepared s d'.packet) e a.same_packet

  alike : (p p' : Packet) → p ≡ p' → Grown more (reader d p.header) (reader d' p'.header)
  alike p p' e = record {
    same_header = ap (λ x. Packet.header x) e;
    left = a.left;
    right = a.right;
    content = a.content;
  }

  turn_in-Keeps :
      (status : ReadStatus)
      → d.read_status ≡ status
      → Keeps more (turn_in status d) (turn_in status d')
  turn_in-Keeps read_header_step1 e =
      let p = clear d.packet in
      let p' = clear d'.packet in
      proceed-Keeps (record d { packet = p }) (record d' { packet = p' }) (λ h. 2) read_header_step2
        (ap (λ x. Packet.body x) (seen read_header_step1 e)) a.same_howmuch a.same_status
        (subst
          (λ n.
            Follows more (parse_header_step1 d.howmuch (reader d p.header))
              (parse_header_step1 n (reader d' p'.header)))
          a.same_howmuch
          (parse_header_step1-Tracks d.howmuch more _ _ (alike p p' (seen read_header_step1 e))))
  turn_in-Keeps read_header_step2 e =
      let p = d.packet in
      let p' = d'.packet in
      proceed-Keeps d d' (λ h. h.body_len) read_body
        (ap (λ x. Packet.body x) (seen read_header_step2 e)) a.same_howmuch a.same_status
        (subst
          (λ n.
            Follows more (parse_header_step2 d.howmuch (reader d p.header))
              (parse_header_step2 n (reader d' p'.header)))
          a.same_howmuch
          (parse_header_step2-Tracks d.howmuch more _ _ (alike p p' (seen read_header_step2 e))))
  turn_in-Keeps read_body e = parse_body-Keeps more d d' (Near-Ahead a (seen read_body e))

  pub turn-Keeps : Keeps more (turn_in d.read_status d) (turn_in d'.read_status d')
  turn-Keeps =
      subst (λ s. Keeps more (turn_in d.read_status d) (turn_in s d')) a.same_status
        (turn_in-Keeps d.read_status refl)

-- The same for a whole call. A call that aborts or does not return is left out: neither happens
-- from a valid state.
pub data WaitingToo (d : Decoder) : Ran Decoder → Type 0 where
  waiting_too : {d' : Decoder} → Ahead [] d d' → WaitingToo d (returned need_more_data d')

pub data Repeats (more : Bytes) : Ran Decoder → Ran Decoder → Type 0 where
  crash_first : {s : Ran Decoder} → Repeats more crashed s
  fuel_first : {s : Ran Decoder} → Repeats more out_of_fuel s
  waits_first :
      {d : Decoder} {s : Ran Decoder}
      → (more ≡ [] → WaitingToo d s)
      → Repeats more (returned need_more_data d) s
  returns :
      {e : ErrorType} {d d' : Decoder}
      → Ahead more d d'
      → Repeats more (returned e d) (returned e d')

follow-Repeats :
    {more : Bytes} (rest : Decoder → Ran Decoder)
    → ((d d' : Decoder) → Ahead more d d' → Repeats more (rest d) (rest d'))
    → {t t' : Turn} → Keeps more t t'
    → Repeats more (follow rest t) (follow rest t')
follow-Repeats rest later crashes = crash_first
follow-Repeats rest later {t' = t'} (waits h) = waits_first (λ e. too (h e))
  where
    too : {d : Decoder} {t : Turn} → Waiting d t → WaitingToo d (follow rest t)
    too (waiting a) = waiting_too a
follow-Repeats rest later (leaves a) = returns a
follow-Repeats rest later (agains a) = later _ _ a

pub decode_loop-Repeats :
    (fuel : ℕ) (more : Bytes) (d d' : Decoder)
    → Near more d d'
    → Repeats more (decode_loop fuel d) (decode_loop fuel d')
unfolding decode_loop
decode_loop-Repeats zero more d d' a = fuel_first
decode_loop-Repeats (suc fuel) more d d' a =
    follow-Repeats (decode_loop fuel) (λ e e' b. decode_loop-Repeats fuel more e e' (Ahead-Near b))
      (turn-Keeps more d d' a)

-- With more bytes behind its own a decoder returns the same, unless it had too few.
pub decode-Repeats :
    (more : Bytes) (d d' : Decoder) → Ahead more d d' → Repeats more (decode d) (decode d')
unfolding decode
decode-Repeats more d d' a = decode_loop-Repeats 3 more d d' (Ahead-Near a)
