-- ===== src/Ipc/Reader/Steps.antt =====
-- One call of `Decode` on a stream of packets that has arrived in part.
use multi_process_server.Base.{
  subst, ◌≤◌, ◌<◌, ◌≡◌, refl, sym, ap, ◌∙◌, inl, inr, ltb, Bool-cases, ltb→lt, ltb→le, lt→ltb,
  arith, List, [], ◌∷◌, ◌++◌, append_assoc, Bytes, length, take, drop, length-append, take-append,
  take-length, drop-append, drop-length, take-append-drop, length-drop,
}
use multi_process_server.Buffer.{Alloc, skip}
use multi_process_server.Buffer.Contents.{
  IsReadable, readable, readable_bytes-length, readable-skip, skip-IsReadable,
}
use multi_process_server.Ipc.Packet.{packet_size, packet_bytes, length-packet_bytes}
use multi_process_server.Ipc.Decoder.{
  Decoder, read_header, read_body, Ran, returned, need_more_data, parse_body, parse_header, finish,
  decode_in, decode,
}
use multi_process_server.Ipc.Decoder.Start.{
  IsReady, parse_body_whole, between, header_fitting, behind_header,
}
use multi_process_server.Ipc.Reader.{Message}
use multi_process_server.Ipc.Reader.Expected.{
  Fits, AllFit, frame, frames, frames_small, Expects, at_header, at_body, owed, weight, Step, waits,
  delivers,
}

-- Where one list begins with `fs` and has all of it, the rest of both is the same.
split_front {ℓ} :
    {A : Type ℓ} (fs bs xs ys : List A)
    → xs ++ ys ≡ fs ++ bs
    → length fs ≤ length xs
    → (xs ≡ fs ++ drop (length fs) xs) × (drop (length fs) xs ++ ys ≡ bs)
split_front fs bs xs ys e h = (
  sym (take-append-drop (length fs) xs)
      ∙ ap (λ zs. zs ++ drop (length fs) xs)
          (sym (take-append (length fs) xs ys h) ∙ ap (take (length fs)) e ∙ take-length fs bs),
  sym (drop-append (length fs) xs ys h) ∙ ap (drop (length fs)) e ∙ drop-length fs bs,
)

body_waits :
    (d : Decoder)
    → IsReadable d.buffer
    → length (readable d.buffer) < d.howmuch
    → parse_body d ≡ returned need_more_data d
unfolding parse_body
body_waits d sound h =
    rw (readable_bytes-length d.buffer sound, lt→ltb (length (readable d.buffer)) d.howmuch h)

module _ (d : Decoder) (future : Bytes) where
  decode_at_body :
      (m : Message) (ms : List Message)
      → IsReadable d.buffer
      → d.read_status ≡ read_body
      → d.packet ≡ m.0
      → d.howmuch ≡ m.0.data_length
      → 1024 ≤ d.packet_capacity
      → Fits m
      → AllFit ms
      → readable d.buffer ++ future ≡ m.1 ++ frames ms
      → Step d future (m ∷ ms) (finish (parse_body d))
  decode_at_body m ms sound status same size room fits all e =
      elim (Bool-cases (ltb (length (readable d.buffer)) d.howmuch)) [
        | inl short ↦
            rw (body_waits d sound (ltb→lt (length (readable d.buffer)) d.howmuch short)) (
              waits (at_body sound status same size room fits all e)
                (λ none_left. absurd (
                  omega (
                    arith,
                    ltb→lt (length (readable d.buffer)) d.howmuch short,
                    ap length e,
                    ap length none_left,
                    length-append (readable d.buffer) future,
                    length-append m.1 (frames ms),
                    fits.announced,
                  )))
                (omega (arith, ltb→lt (length (readable d.buffer)) d.howmuch short, fits.small)))
        | inr whole ↦
            let enough : length m.1 ≤ length (readable d.buffer) =
              omega (arith, ltb→le (length (readable d.buffer)) d.howmuch whole, fits.announced) in
            let (front, behind) = split_front m.1 (frames ms) (readable d.buffer) future e enough in
            let left : readable (skip d.howmuch d.buffer) ≡ drop (length m.1) (readable d.buffer) =
              readable-skip d.howmuch d.buffer
              ∙ ap (λ n. drop n (readable d.buffer)) (size ∙ sym fits.announced) in
            let d' : Decoder = record d {
              body = m.1;
              buffer = skip d.howmuch d.buffer;
              read_status = read_header;
              howmuch = packet_size;
            } in
            rw
              (parse_body_whole d sound m.1 (drop (length m.1) (readable d.buffer)) front
                (fits.announced ∙ sym size) (omega (arith, fits.small)))
              (delivers {d' = d'} same refl
                (at_header
                  (record {
                    sound =
                        skip-IsReadable d.howmuch d.buffer sound
                          (omega (arith, ltb→le (length (readable d.buffer)) d.howmuch whole));
                    at_header = refl;
                    wants_header = refl;
                  })
                  room all (ap (λ xs. xs ++ future) left ∙ behind))
                (omega (
                  arith,
                  ap length left,
                  length-drop (length m.1) (readable d.buffer),
                  ap owed status,
                )))
      ]

-- A step of a decoder that has no more to do than `e` is one of `e`.
Step-from :
    {d e : Decoder} {future : Bytes} {ms : List Message} {r : Ran}
    → weight d ≤ weight e
    → Step d future ms r
    → Step e future ms r
Step-from h (waits x more few) = waits x more few
Step-from h (delivers p b x l) = delivers p b x (omega arith)

module _ (alloc : Alloc) (d : Decoder) (future : Bytes) where
  header_waits :
      (ms : List Message)
      → IsReady d
      → 1024 ≤ d.packet_capacity
      → AllFit ms
      → readable d.buffer ++ future ≡ frames ms
      → length (readable d.buffer) < packet_size
      → Step d future ms (decode alloc d)
  unfolding decode parse_header
  header_waits ms ready room all e short =
      rw
        (
          ready.at_header,
          readable_bytes-length d.buffer ready.sound,
          lt→ltb (length (readable d.buffer)) d.howmuch (omega (arith, ready.wants_header)),
        )
        (waits
          (at_header
            (record { sound = ready.sound; at_header = refl; wants_header = ready.wants_header })
            room all e)
          (λ none_left. frames_small ms (
            omega
              (arith, ap length e, ap length none_left, length-append (readable d.buffer) future)))
          (omega arith))

  header_whole :
      (ms : List Message)
      → IsReady d
      → 1024 ≤ d.packet_capacity
      → AllFit ms
      → readable d.buffer ++ future ≡ frames ms
      → packet_size ≤ length (readable d.buffer)
      → Step d future ms (decode alloc d)
  unfolding frame between
  header_whole [] ready room all e whole =
      absurd (omega (arith, ap length e, length-append (readable d.buffer) future))
  header_whole (m ∷ ms) ready room (fits, all) e whole =
      let enough : length (packet_bytes m.0) ≤ length (readable d.buffer) =
        omega (arith, length-packet_bytes m.0) in
      let (front, behind) =
        split_front (packet_bytes m.0) (m.1 ++ frames ms) (readable d.buffer) future
          (e ∙ append_assoc (packet_bytes m.0) m.1 (frames ms)) enough in
      let rest = drop (length (packet_bytes m.0)) (readable d.buffer) in
      let left : readable (skip d.howmuch d.buffer) ≡ rest =
        behind_header alloc d m.0 rest ready.wants_header front in
      let room' : m.0.data_length ≤ d.packet_capacity = omega (arith, fits.small) in
      rw (header_fitting alloc d m.0 rest ready fits.fields fits.head front room') (
        Step-from
          (omega (
            arith,
            ap length left,
            length-drop (length (packet_bytes m.0)) (readable d.buffer),
            length-packet_bytes m.0,
          ))
          (decode_at_body (between d m.0) future m ms
            (skip-IsReadable d.howmuch d.buffer ready.sound (omega (arith, ready.wants_header)))
            refl refl refl room fits all (ap (λ xs. xs ++ future) left ∙ behind)))

  -- A call of `Decode` on a stream of packets that fit, of which a part has arrived: it waits, with at
  -- most 1024 bytes unread, or has the first packet with its data, and the stream goes on behind it.
  pub decode-Step : (ms : List Message) → Expects d future ms → Step d future ms (decode alloc d)
  unfolding decode
  decode-Step ms (at_header ready room all e) =
      elim (Bool-cases (ltb (length (readable d.buffer)) packet_size)) [
        | inl short ↦
            header_waits ms ready room all e (ltb→lt (length (readable d.buffer)) packet_size short)
        | inr whole ↦
            header_whole ms ready room all e (ltb→le (length (readable d.buffer)) packet_size whole)
      ]
  decode-Step (m ∷ ms) (at_body sound status same size room fits all e) =
      subst (Step d future (m ∷ ms)) (sym (ap (λ s. decode_in alloc s d) status))
        (decode_at_body d future m ms sound status same size room fits all e)
