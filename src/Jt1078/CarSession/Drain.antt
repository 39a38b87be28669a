-- ===== src/Jt1078/CarSession/Drain.antt =====
-- The loop of `ParseBuffer` in CarSession.cpp: run on some bytes, and then on what is left of them
-- with more behind, it hands over what it does for all at once.
use multi_process_server.Base.{
  ℕ, zero, suc, ◌≤◌, ◌<◌, ◌≡◌, refl, sym, ap, subst, ◌∙◌, arith, List, [], ◌∷◌, ◌++◌, append-nil,
  Bytes, length,
}
use multi_process_server.Buffer.Contents.{readable}
use multi_process_server.Jt1078.Header.{jt1078_max_length}
use multi_process_server.Jt1078.Scan.{need_more_data}
use multi_process_server.Jt1078.Decoder.Invariant.{
  IsValid, weight, Decoded, waited, refused, completed, decode-Decoded,
}
use multi_process_server.Jt1078.Decoder.Ahead.{Ahead}
use multi_process_server.Jt1078.Decoder.Prefix.{
  Repeats, waits_first, returns, WaitingToo, waiting_too, decode-Repeats,
}
use multi_process_server.Jt1078.Decoder.Resume.{decode-Resumes}
use multi_process_server.Jt1078.Decoder.{Decoder, Ran, returned, decode}
use multi_process_server.Jt1078.CarSession.{
  Event, packet_complete, Parsed, parsed, reported, emit, events, after_decode, drain,
}

pub events-emit : (e : Event) (s : Parsed) → events (emit e s) ≡ e ∷ events s
events-emit e (Parsed.aborted es) = refl
events-emit e (Parsed.unfinished es) = refl
events-emit e (parsed es d) = refl
events-emit e (reported es d) = refl

-- Two decoders with the same to read return the same.
ran_alike :
    (f g : Decoder → Parsed) {a b : Decoder} {r s : Ran Decoder}
    → Decoded a r
    → Decoded b s
    → Repeats [] r s
    → ((c c' : Decoder)
        → IsValid c
        → IsValid c'
        → Ahead [] c c'
        → weight c < weight a
        → weight c' < weight b
        → events (f c) ≡ events (g c'))
    → events (after_decode f r) ≡ events (after_decode g s)
ran_alike f g (waited v w few) y (returns a) later = refl
ran_alike f g {s = s} (waited v w few) y (waits_first h) later = too (h refl)
  where
    too : {d : Decoder} {t : Ran Decoder} → WaitingToo d t → [] ≡ events (after_decode g t)
    too (waiting_too a) = refl
ran_alike f g (refused v) y (returns a) later = refl
ran_alike f g (completed v e w) (waited _ _ _) k later = elim k [ ]
ran_alike f g (completed v e w) (refused _) k later = elim k [ ]
ran_alike f g (completed {d'} v e w) (completed {d' = d2} v' e' w') (returns a) later =
    events-emit (packet_complete d'.packet) (f d')
    ∙ ap (λ p. packet_complete p ∷ events (f d')) a.same_packet
    ∙ ap (◌∷◌ (packet_complete d2.packet)) (later d' d2 v v' a w w')
    ∙ sym (events-emit (packet_complete d2.packet) (g d2))

pub drain_alike :
    (n m : ℕ) (c c' : Decoder)
    → IsValid c
    → IsValid c'
    → Ahead [] c c'
    → weight c < n
    → weight c' < m
    → events (drain n c) ≡ events (drain m c')
unfolding drain
drain_alike zero m c c' v v' a h k = absurd (omega arith)
drain_alike (suc n) zero c c' v v' a h k = absurd (omega arith)
drain_alike (suc n) (suc m) c c' v v' a h k =
    ran_alike (drain n) (drain m) (decode-Decoded c v) (decode-Decoded c' v')
      (decode-Repeats [] c c' a)
      λ e e' w w' b l l'. drain_alike n m e e' w w' b (omega arith) (omega arith)

-- What `drain` did for the bytes at hand, and `more` behind them.
abbrev pub Continues : Bytes → Parsed → List Event → Type 0
Continues more (parsed es d1) all =
    (d1' : Decoder) (m : ℕ)
    → IsValid d1'
    → Ahead more d1 d1'
    → weight d1' < m
    → all ≡ es ++ events (drain m d1')
Continues more s all = all ≡ events s

emit-Continues :
    (more : Bytes) (e : Event) (s : Parsed) (all : List Event)
    → Continues more s all
    → Continues more (emit e s) (e ∷ all)
emit-Continues more e (Parsed.aborted es) all h = ap (◌∷◌ e) h
emit-Continues more e (Parsed.unfinished es) all h = ap (◌∷◌ e) h
emit-Continues more e (parsed es d) all h = λ d1' m v a w. ap (◌∷◌ e) (h d1' m v a w)
emit-Continues more e (reported es d) all h = ap (◌∷◌ e) h

after_decode-Continues :
    (more : Bytes) (f g : Decoder → Parsed) {a b : Decoder} {r s : Ran Decoder}
    → Decoded a r
    → Decoded b s
    → Repeats more r s
    → ((d1 : Decoder)
        → r ≡ returned need_more_data d1
        → Continues more (parsed [] d1) (events (after_decode g s)))
    → ((c c' : Decoder)
        → IsValid c
        → IsValid c'
        → Ahead more c c'
        → weight c < weight a
        → weight c' < weight b
        → Continues more (f c) (events (g c')))
    → Continues more (after_decode f r) (events (after_decode g s))
after_decode-Continues more f g (waited v w few) y k stuck later = stuck _ refl
after_decode-Continues more f g (refused v) y (returns a) stuck later = refl
after_decode-Continues more f g (completed v e w) (waited _ _ _) k stuck later = elim k [ ]
after_decode-Continues more f g (completed v e w) (refused _) k stuck later = elim k [ ]
after_decode-Continues more f g (completed {d'} v e w) (completed {d' = d2} v' e' w') (returns a)
      stuck later =
    subst (Continues more (emit (packet_complete d'.packet) (f d')))
      (ap (λ p. packet_complete p ∷ events (g d2)) a.same_packet
        ∙ sym (events-emit (packet_complete d2.packet) (g d2)))
      (emit-Continues more (packet_complete d'.packet) (f d') (events (g d2))
        (later d' d2 v v' a w w'))

stuck-Continues :
    (more : Bytes) (m : ℕ) (d d' d1 : Decoder)
    → IsValid d
    → IsValid d'
    → Ahead more d d'
    → weight d' ≤ m
    → decode d ≡ returned need_more_data d1
    → Continues more (parsed [] d1) (events (after_decode (drain m) (decode d')))
unfolding drain
stuck-Continues more m d d' d1 v v' a h e d1' zero v1 a1 w = absurd (omega arith)
stuck-Continues more m d d' d1 v v' a h e d1' (suc k) v1 a1 w =
    ran_alike (drain m) (drain k) (decode-Decoded d' v') (decode-Decoded d1' v1)
      (decode-Resumes more d d' d1 d1' v v' e a a1)
      λ c c' x x' b l l'. drain_alike m k c c' x x' b (omega arith) (omega arith)

pub drain-Continues :
    (more : Bytes) (n m : ℕ) (d d' : Decoder)
    → IsValid d
    → IsValid d'
    → Ahead more d d'
    → weight d < n
    → weight d' < m
    → Continues more (drain n d) (events (drain m d'))
unfolding drain
drain-Continues more zero m d d' v v' a h k = absurd (omega arith)
drain-Continues more (suc n) zero d d' v v' a h k = absurd (omega arith)
drain-Continues more (suc n) (suc m) d d' v v' a h k =
    after_decode-Continues more (drain n) (drain m) (decode-Decoded d v) (decode-Decoded d' v')
      (decode-Repeats more d d' a) (λ d1 e. stuck-Continues more m d d' d1 v v' a (omega arith) e)
      λ c c' w w' b l l'. drain-Continues more n m c c' w w' b (omega arith) (omega arith)

-- The decoder has no packet, nor a fault, in what it has read so far.
abbrev pub Waits : Decoder → Type 0
Waits d = (d1 : Decoder) × (decode d ≡ returned need_more_data d1)

pub data Rests : Parsed → Type 0 where
  rests :
      {es : List Event} {d : Decoder}
      → IsValid d
      → length (readable d.buffer) ≤ jt1078_max_length
      → Waits d
      → Rests (parsed es d)
  ends : {es : List Event} {d : Decoder} → Rests (reported es d)

emit-Rests : (e : Event) {s : Parsed} → Rests s → Rests (emit e s)
emit-Rests e (rests v few w) = rests v few w
emit-Rests e ends = ends

pub Ahead-refl : (d : Decoder) → IsValid d → Ahead [] d d
Ahead-refl d v = record {
  same_packet = refl;
  same_howmuch = refl;
  same_status = refl;
  left = v.sound;
  right = v.sound;
  content = sym (append-nil (readable d.buffer));
}

waited-Waits :
    (d d1 : Decoder) → IsValid d → IsValid d1 → decode d ≡ returned need_more_data d1 → Waits d1
waited-Waits d d1 v v1 e =
    go
      (subst (λ r. Repeats [] r (decode d1)) e
        (decode-Resumes [] d d d1 d1 v v e (Ahead-refl d v) (Ahead-refl d1 v1)))
      refl
  where
    too : {r : Ran Decoder} → WaitingToo d1 r → decode d1 ≡ r → Waits d1
    too (waiting_too {d'} a) q = (d', q)

    go : {r : Ran Decoder} → Repeats [] (returned need_more_data d1) r → decode d1 ≡ r → Waits d1
    go (waits_first h) q = too (h refl) q
    go (returns {d' = d2} a) q = (d2, q)

after_decode-Rests :
    (f : Decoder → Parsed) (d : Decoder) {r : Ran Decoder}
    → IsValid d
    → decode d ≡ r
    → Decoded d r
    → ((c : Decoder) → IsValid c → weight c < weight d → Rests (f c))
    → Rests (after_decode f r)
after_decode-Rests f d v e (waited {d'} w l few) later = rests w few (waited-Waits d d' v w e)
after_decode-Rests f d v e (refused w) later = ends
after_decode-Rests f d v e (completed w s l) later = emit-Rests _ (later _ w l)

pub drain-Rests : (n : ℕ) (d : Decoder) → IsValid d → weight d < n → Rests (drain n d)
unfolding drain
drain-Rests zero d v h = absurd (omega arith)
drain-Rests (suc n) d v h =
    after_decode-Rests (drain n) d v refl (decode-Decoded d v)
      λ c w l. drain-Rests n c w (omega arith)
