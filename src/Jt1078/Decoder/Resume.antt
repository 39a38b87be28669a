-- ===== src/Jt1078/Decoder/Resume.antt =====
-- The decoder of Jt1078Decoder.cpp where bytes are missing: called again with more of them, it goes
-- on as if they had been there.
use multi_process_server.Base.{
  ℕ, zero, suc, ◌≤◌, ◌≡◌, refl, subst, sym, ap, ◌∙◌, ltb, Bool-cases, inl, inr, ltb→lt, ltb→le,
  arith, [], ◌++◌, Bytes, length, append-nil,
}
use multi_process_server.Buffer.Contents.{readable}
use multi_process_server.Jt1078.Header.{Packet, clear}
use multi_process_server.Jt1078.Scan.{no_error, need_more_data, invalid_header, Scanned}
use multi_process_server.Jt1078.Scan.Rules.{stops, nexts}
use multi_process_server.Jt1078.Decoder.Steps.{
  Outcome, hungry, served, parse_header_step1-Outcome, parse_header_step2-Outcome, second_size,
}
use multi_process_server.Jt1078.Decoder.Invariant.{
  IsValid, Place-at, rounds, rounds-le, rounds-pos, Turned, onward, turn_in-Turned,
}
use multi_process_server.Jt1078.Decoder.{
  Decoder, ReadStatus, read_header_step1, read_header_step2, read_body, Turn, again, leave, turn_in,
  parse_body, decode_loop, decode, Ran, returned, reader, proceed, follow,
}
use multi_process_server.Jt1078.Decoder.Ahead.{
  Ahead, Near, Ahead-Near, prepared, Keeps, parse_body_short, parse_body_whole,
}
use multi_process_server.Jt1078.Decoder.Prefix.{Repeats, turn-Keeps, decode_loop-Repeats}

-- A round that has to wait leaves all as it was, but for the packet that it cleared.
data Paused (d : Decoder) : Turn → Type 0 where
  paused :
      {d1 : Decoder}
      → d1.buffer ≡ d.buffer
      → d1.howmuch ≡ d.howmuch
      → d1.read_status ≡ d.read_status
      → d1.packet ≡ prepared d.read_status d.packet
      → Paused d (leave need_more_data d1)
  moves : {d1 : Decoder} → Paused d (again d1)
  fails : {d1 : Decoder} → Paused d (leave invalid_header d1)
  succeeds : {d1 : Decoder} → Paused d (leave no_error d1)

step1-Paused :
    (d : Decoder) {s : Scanned (Unit {0})}
    → d.read_status ≡ read_header_step1
    → let d' = record d { packet = clear d.packet } in
      Outcome 16 (reader d' d'.packet.header) s → Paused d (proceed d' (λ h. 2) read_header_step2 s)
step1-Paused d e (hungry few) =
    paused refl refl refl (subst (λ s. clear d.packet ≡ prepared s d.packet) (sym e) refl)
step1-Paused d e (served enough (stops ok)) = fails
step1-Paused d e (served enough (nexts ok spent)) = moves

step2-Paused :
    (d : Decoder) {k : ℕ} {s : Scanned (Unit {0})}
    → d.read_status ≡ read_header_step2
    → Outcome k (reader d d.packet.header) s
    → Paused d (proceed d (λ h. h.body_len) read_body s)
step2-Paused d e (hungry few) =
    paused refl refl refl (subst (λ s. d.packet ≡ prepared s d.packet) (sym e) refl)
step2-Paused d e (served enough (stops ok)) = fails
step2-Paused d e (served enough (nexts ok spent)) = moves

body-Paused : (d : Decoder) → IsValid d → d.read_status ≡ read_body → Paused d (parse_body d)
body-Paused d v e = elim (Bool-cases (ltb (length (readable d.buffer)) d.howmuch)) [
  | inl few ↦
      rw (parse_body_short d v.sound (ltb→lt (length (readable d.buffer)) d.howmuch few))
        (paused refl refl refl (subst (λ s. d.packet ≡ prepared s d.packet) (sym e) refl))
  | inr enough ↦
      rw
        (parse_body_whole d v.sound (ltb→le (length (readable d.buffer)) d.howmuch enough)
          (omega (arith, v.room, (Place-at d v e).0)))
        succeeds
]

turn_in-Paused :
    (status : ReadStatus) (d : Decoder)
    → IsValid d
    → d.read_status ≡ status
    → Paused d (turn_in status d)
turn_in-Paused read_header_step1 d v e =
    step1-Paused d e
      (rw (Place-at d v e) (parse_header_step1-Outcome (reader d (clear d.packet).header) v.sound))
turn_in-Paused read_header_step2 d v e =
    step2-Paused d {k = second_size d.packet.header.data_type4} e
      (rw (Place-at d v e) (parse_header_step2-Outcome (reader d d.packet.header) v.sound))
turn_in-Paused read_body d v e = body-Paused d v e

-- The fuel makes no difference once it is enough.
follow_same :
    {f g : Decoder → Ran Decoder} {d : Decoder} {t : Turn} (m n : ℕ)
    → Turned d t
    → rounds d.read_status ≤ suc m
    → rounds d.read_status ≤ suc n
    → ((e : Decoder) → IsValid e → rounds e.read_status ≤ m → rounds e.read_status ≤ n → f e ≡ g e)
    → follow f t ≡ follow g t
follow_same m n (onward v r w) h k same = same _ v (omega arith) (omega arith)
follow_same m n (Turned.waits v w few) h k same = refl
follow_same m n (Turned.rejects v) h k same = refl
follow_same m n (Turned.completes v e w) h k same = refl

decode_loop-fuel :
    (m n : ℕ) (d : Decoder)
    → IsValid d
    → rounds d.read_status ≤ m
    → rounds d.read_status ≤ n
    → decode_loop m d ≡ decode_loop n d
unfolding decode_loop
decode_loop-fuel zero n d v h k = absurd (omega (arith, rounds-pos d.read_status))
decode_loop-fuel (suc m) zero d v h k = absurd (omega (arith, rounds-pos d.read_status))
decode_loop-fuel (suc m) (suc n) d v h k =
    follow_same m n (turn_in-Turned d.read_status d v refl) h k (decode_loop-fuel m n)

prepared_twice : (s : ReadStatus) (p : Packet) → prepared s (prepared s p) ≡ prepared s p
unfolding clear
prepared_twice read_header_step1 p = refl
prepared_twice read_header_step2 p = refl
prepared_twice read_body p = refl

Near-paused :
    (more : Bytes) (d d1 d' d1' : Decoder)
    → d1.buffer ≡ d.buffer
    → d1.howmuch ≡ d.howmuch
    → d1.read_status ≡ d.read_status
    → d1.packet ≡ prepared d.read_status d.packet
    → Near more d d'
    → Near more d1 d1'
    → Near [] d' d1'
Near-paused more d d1 d' d1' b n e p a a1 = record {
  same_packet =
      subst (λ s. prepared s d'.packet ≡ prepared s d1'.packet) a.same_status
        (sym a.same_packet
          ∙ sym (prepared_twice d.read_status d.packet)
          ∙ ap (prepared d.read_status) (sym p)
          ∙ subst (λ s. prepared s d1.packet ≡ prepared s d1'.packet) e a1.same_packet);
  same_howmuch = sym a.same_howmuch ∙ sym n ∙ a1.same_howmuch;
  same_status = sym a.same_status ∙ sym e ∙ a1.same_status;
  left = a.right;
  right = a1.right;
  content =
      a1.content
      ∙ ap (λ c. readable c ++ more) b
      ∙ sym a.content
      ∙ sym (append-nil (readable d'.buffer));
}

same_decoder : {d d1 : Decoder} → returned need_more_data d ≡ returned need_more_data d1 → d ≡ d1
same_decoder e = cc

module _ (fuel : ℕ) (more : Bytes) (d1 d1' : Decoder) (a1 : Near more d1 d1') where
  -- The first decoder stopped in this round.
  paused-Repeats :
      (d d' d2 : Decoder)
      → IsValid d'
      → rounds d.read_status ≤ suc fuel
      → d2 ≡ d1
      → d2.buffer ≡ d.buffer
      → d2.howmuch ≡ d.howmuch
      → d2.read_status ≡ d.read_status
      → d2.packet ≡ prepared d.read_status d.packet
      → Near more d d'
      → Repeats [] (decode_loop (suc fuel) d') (decode_loop 3 d1')
  paused-Repeats d d' d2 v' h e b n s p a =
      subst (λ r. Repeats [] r (decode_loop 3 d1'))
        (decode_loop-fuel 3 (suc fuel) d' v' (rounds-le d'.read_status)
          (subst (λ s. rounds s ≤ suc fuel) a.same_status h))
        (decode_loop-Repeats 3 [] d' d1'
          (Near-paused more d d2 d' d1' b n s p a (subst (λ x. Near more x d1') (sym e) a1)))

  follow-Resumes :
      (d d' : Decoder)
      → ((b c : Decoder)
          → IsValid b
          → IsValid c
          → rounds b.read_status ≤ fuel
          → decode_loop fuel b ≡ returned need_more_data d1
          → Near more b c
          → Repeats [] (decode_loop fuel c) (decode_loop 3 d1'))
      → IsValid d'
      → rounds d.read_status ≤ suc fuel
      → Near more d d'
      → {t t' : Turn} → Turned d t
      → Paused d t
      → Turned d' t'
      → Keeps more t t'
      → follow (decode_loop fuel) t' ≡ decode_loop (suc fuel) d'
      → follow (decode_loop fuel) t ≡ returned need_more_data d1
      → Repeats [] (follow (decode_loop fuel) t') (decode_loop 3 d1')
  follow-Resumes d d' later v' h a (onward v r w) moves (onward v2 r2 w2) (Keeps.agains b) same e =
      later _ _ v v2 (omega arith) e (Ahead-Near b)
  follow-Resumes d d' later v' h a (onward v r w) moves (Turned.waits _ _ _) k same e = elim k [ ]
  follow-Resumes d d' later v' h a (onward v r w) moves (Turned.rejects _) k same e = elim k [ ]
  follow-Resumes d d' later v' h a (onward v r w) moves (Turned.completes _ _ _) k same e =
      elim k [ ]
  follow-Resumes d d' later v' h a (Turned.waits v w few) (paused b n s p) t' k same e =
      subst (λ r. Repeats [] r (decode_loop 3 d1')) (sym same)
        (paused-Repeats d d' _ v' h (same_decoder e) b n s p a)
  follow-Resumes d d' later v' h a (Turned.rejects v) fails t' k same e = cc
  follow-Resumes d d' later v' h a (Turned.completes v f w) succeeds t' k same e = cc

decode_loop-Resumes :
    (fuel : ℕ) (more : Bytes) (d1 d1' : Decoder)
    → Near more d1 d1'
    → (d d' : Decoder) → IsValid d
    → IsValid d'
    → rounds d.read_status ≤ fuel
    → decode_loop fuel d ≡ returned need_more_data d1
    → Near more d d'
    → Repeats [] (decode_loop fuel d') (decode_loop 3 d1')
unfolding decode_loop
decode_loop-Resumes zero more d1 d1' a1 d d' v v' h e a =
    absurd (omega (arith, rounds-pos d.read_status))
decode_loop-Resumes (suc fuel) more d1 d1' a1 d d' v v' h e a =
    follow-Resumes fuel more d1 d1' a1 d d' (decode_loop-Resumes fuel more d1 d1' a1) v' h a
      (turn_in-Turned d.read_status d v refl) (turn_in-Paused d.read_status d v refl)
      (turn_in-Turned d'.read_status d' v' refl) (turn-Keeps more d d' a) refl e

-- A decoder that had to wait does, once it has the missing bytes, what the decoder before the
-- call does with all of them.
pub decode-Resumes :
    (more : Bytes) (d d' d1 d1' : Decoder)
    → IsValid d
    → IsValid d'
    → decode d ≡ returned need_more_data d1
    → Ahead more d d'
    → Ahead more d1 d1'
    → Repeats [] (decode d') (decode d1')
unfolding decode
decode-Resumes more d d' d1 d1' v v' e a a1 =
    decode_loop-Resumes 3 more d1 d1' (Ahead-Near a1) d d' v v' (rounds-le d.read_status) e
      (Ahead-Near a)
