-- ===== src/Jt1078/Decoder/Frame.antt =====
-- Jt1078Decoder.cpp: a whole packet as a car sends it, and what `Decode` makes of it.
use multi_process_server.Base.{
  ℕ, ◌+◌, ◌/◌, ◌%◌, ◌≤◌, ◌<◌, ◌≡◌, refl, sym, ap, subst, ◌∙◌, arith, length-append, length-drop,
  true, [], ◌∷◌, ◌++◌, append_assoc, Bytes, length, take, drop, take-length, drop-length,
  big_endian, some,
}
use multi_process_server.Jt1078.Header.{Header, cleared, clear, payload, jt1078_max_length}
use multi_process_server.Buffer.{Buffer, skip}
use multi_process_server.Buffer.Contents.{IsReadable, readable, readable-skip, skip-IsReadable}
use multi_process_server.Jt1078.Scan.{no_error}
use multi_process_server.Jt1078.Decoder.{
  Decoder, read_header_step1, read_header_step2, read_body, is_support_coding_type, returned,
  decode, decode_loop, follow, again, leave, turn_in, proceed, store_body, parse_header_step1,
  reader, overwrite,
}
use multi_process_server.Jt1078.Decoder.Invariant.{
  IsValid, Place-at, weight, Decoded, completed, decode-Decoded,
}
use multi_process_server.Jt1078.Decoder.Ahead.{parse_body_whole}
use multi_process_server.Jt1078.Decoder.Wire.{
  is_known, fixed, described, front_bytes, length-front_bytes, parse_header_step1-Fits,
}
use multi_process_server.Jt1078.Decoder.Timing.{
  Timing, Timed, timing_bytes, timed, with_length, parse_header_step2-Parsed,
}

-- The octet of the coding type, the two bytes of the sequence number, the SIM card number, the
-- channel, the octet of the data type and the subpackage mark, what is in front of the length, the
-- two bytes of the length, and the body.
pub record Frame : Type 0 where
  pub octet : ℕ
  pub hi : ℕ
  pub lo : ℕ
  pub sim : Bytes
  pub channel : ℕ
  pub kinds : ℕ
  pub timing : Timing
  pub length_hi : ℕ
  pub length_lo : ℕ
  pub body : Bytes

abbrev pub front : Frame → Bytes
front f = front_bytes f.octet f.hi f.lo f.sim f.channel f.kinds

abbrev pub middle : Frame → Bytes
middle f = timing_bytes f.timing ++ f.length_hi ∷ f.length_lo ∷ []

-- The bytes that the car sends.
abbrev pub wire : Frame → Bytes
wire f = front f ++ (middle f ++ f.body)

-- What the protocol asks of a packet.
pub record IsFrame (f : Frame) : Type 0 where
  pub coding : is_support_coding_type (f.octet % 128) ≡ true
  pub six : length f.sim ≡ 6
  pub kind : is_known (f.kinds / 16 % 16) ≡ true
  pub mark : f.kinds % 16 ≤ 3
  pub has_timing : Timed (f.kinds / 16 % 16) f.timing
  pub announced : length f.body ≡ big_endian (f.length_hi ∷ f.length_lo ∷ [])
  pub small : length f.body ≤ jt1078_max_length

abbrev pub header_step1 : Frame → Header
header_step1 f = described f.octet (f.hi ∷ f.lo ∷ []) f.sim f.channel f.kinds (fixed cleared)

-- The header that these bytes say.
abbrev pub header_of : Frame → Header
header_of f = with_length f.length_hi f.length_lo (timed f.timing (header_step1 f))

behind :
    (xs ys : Bytes) (n : ℕ) (b : Buffer)
    → readable b ≡ xs ++ ys
    → length xs ≡ n
    → readable (skip n b) ≡ ys
behind xs ys n b e h =
    readable-skip n b
    ∙ ap (λ k. drop k (readable b)) (sym h)
    ∙ ap (drop (length xs)) e
    ∙ drop-length xs ys

-- The read position stays within the content behind bytes that are there.
behind-IsReadable :
    (xs ys : Bytes) (n : ℕ) (b : Buffer)
    → IsReadable b
    → readable b ≡ xs ++ ys
    → length xs ≡ n
    → IsReadable (skip n b)
behind-IsReadable xs ys n b sound e h =
    skip-IsReadable n b sound (omega (arith, h, ap length e, length-append xs ys))

module _ (d : Decoder) (f : Frame) (rest : Bytes) where
  -- After the first 16 bytes, and after the rest of the header.
  first : Decoder
  first = record d {
    buffer = skip 16 d.buffer;
    packet = record (clear d.packet) { header = header_step1 f };
    howmuch = 2;
    read_status = read_header_step2;
  }

  second : Decoder
  unfolding first
  second = record first {
    buffer = skip (length (middle f)) (skip 16 d.buffer);
    packet = record (clear d.packet) { header = header_of f };
    howmuch = big_endian (f.length_hi ∷ f.length_lo ∷ []);
    read_status = read_body;
  }

  -- After the body.
  pub received : Decoder
  unfolding clear
  received = record d {
    buffer =
        skip (big_endian (f.length_hi ∷ f.length_lo ∷ []))
          (skip (length (middle f)) (skip 16 d.buffer));
    packet = record { header = header_of f; body = overwrite f.body (clear d.packet).body };
    howmuch = 16;
    read_status = read_header_step1;
  }

  module _ (v : IsValid d) (fits : IsFrame f) (content : readable d.buffer ≡ wire f ++ rest) where
    whole : readable d.buffer ≡ front f ++ ((middle f ++ f.body) ++ rest)
    whole = content ∙ append_assoc (front f) (middle f ++ f.body) rest

    sixteen : length (front f) ≡ 16
    sixteen = length-front_bytes f.octet f.hi f.lo f.channel f.kinds f.sim fits.six

    content1 : readable (skip 16 d.buffer) ≡ middle f ++ (f.body ++ rest)
    content1 =
        behind (front f) ((middle f ++ f.body) ++ rest) 16 d.buffer whole sixteen
        ∙ append_assoc (middle f) f.body rest

    sound1 : IsReadable (skip 16 d.buffer)
    sound1 =
        behind-IsReadable (front f) ((middle f ++ f.body) ++ rest) 16 d.buffer v.sound whole sixteen

    content2 : readable (skip (length (middle f)) (skip 16 d.buffer)) ≡ f.body ++ rest
    content2 =
        behind (middle f) (f.body ++ rest) (length (middle f)) (skip 16 d.buffer) content1 refl

    sound2 : IsReadable (skip (length (middle f)) (skip 16 d.buffer))
    sound2 =
        behind-IsReadable (middle f) (f.body ++ rest) (length (middle f)) (skip 16 d.buffer) sound1
          content1 refl

    turn1 : d.howmuch ≡ 16 → turn_in read_header_step1 d ≡ again first
    unfolding first clear
    turn1 e =
        let d' : Decoder = record d { packet = clear d.packet } in
        ap (λ n. proceed d' (λ h. 2) read_header_step2 (parse_header_step1 n (reader d' cleared))) e
        ∙ ap (proceed d' (λ h. 2) read_header_step2) (
            parse_header_step1-Fits f.octet f.hi f.lo f.channel f.kinds f.sim (reader d' cleared)
              ((middle f ++ f.body) ++ rest) fits.coding fits.six fits.kind fits.mark v.sound whole)

    turn2 : turn_in read_header_step2 first ≡ again second
    unfolding first second
    turn2 = ap (proceed first (λ h. h.body_len) read_body) (
        parse_header_step2-Parsed f.length_hi f.length_lo (reader first (header_step1 f))
          (f.body ++ rest) f.timing fits.has_timing (omega (arith, fits.announced, fits.small))
          sound1 content1)

    turn3 : turn_in read_body second ≡ leave no_error received
    unfolding first second received clear
    turn3 =
        let n = big_endian (f.length_hi ∷ f.length_lo ∷ []) in
        parse_body_whole second sound2
          (omega (arith, fits.announced, ap length content2, length-append f.body rest))
          (omega (arith, fits.announced, fits.small, v.room, length-drop 1 d.packet.body))
        ∙ ap (λ xs. store_body second (some (xs, skip n second.buffer)))
            (ap (λ k. take k (readable second.buffer)) (sym fits.announced)
              ∙ ap (take (length f.body)) content2
              ∙ take-length f.body rest)

    pub decode_received : d.read_status ≡ read_header_step1 → decode d ≡ returned no_error received
    unfolding decode decode_loop first second
    decode_received e =
        ap (λ s. follow (decode_loop 2) (turn_in s d)) e
        ∙ ap (follow (decode_loop 2)) (turn1 (Place-at d v e))
        ∙ ap (follow (decode_loop 1)) turn2
        ∙ ap (follow (decode_loop 0)) turn3

    left_over : readable received.buffer ≡ rest
    unfolding received
    left_over =
        behind f.body rest (big_endian (f.length_hi ∷ f.length_lo ∷ []))
          (skip (length (middle f)) (skip 16 d.buffer)) content2 fits.announced

    stored : payload received.packet ≡ f.body
    unfolding received
    stored =
        ap (λ k. take k (f.body ++ 0 ∷ drop (length f.body + 1) (clear d.packet).body))
          (sym fits.announced)
        ∙ take-length f.body (0 ∷ drop (length f.body + 1) (clear d.packet).body)

completed_inv :
    {d d' : Decoder}
    → Decoded d (returned no_error d')
    → IsValid d' × (d'.read_status ≡ read_header_step1) × (weight d' < weight d)
completed_inv (completed v e w) = (v, e, w)

-- A decoder that waits for a packet, with the bytes of a packet in front of others, returns that packet:
-- the header says what its bytes say, the payload is its body, the other bytes are left, fewer than
-- before, and the decoder waits for the next packet.
pub decode-Frame :
    (d : Decoder) (f : Frame) (rest : Bytes)
    → IsValid d
    → d.read_status ≡ read_header_step1
    → IsFrame f
    → readable d.buffer ≡ wire f ++ rest
    → (d' : Decoder) × (decode d ≡ returned no_error d')
      × (d'.packet.header ≡ header_of f)
      × (payload d'.packet ≡ f.body)
      × (readable d'.buffer ≡ rest)
      × (d'.read_status ≡ read_header_step1)
      × IsValid d'
      × (weight d' < weight d)
unfolding received
decode-Frame d f rest v e fits content =
    let run = decode_received d f rest v fits content e in
    let (valid, status, less) = completed_inv (subst (Decoded d) run (decode-Decoded d v)) in
    (
      received d f rest,
      run,
      refl,
      stored d f rest v fits content,
      left_over d f rest v fits content,
      status,
      valid,
      less,
    )
