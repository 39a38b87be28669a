-- ===== src/Jt1078/Decoder/Wire.antt =====
-- Jt1078Decoder.cpp: the header parsers on the bytes of a packet as a car sends it.
use multi_process_server.Base.{
  ℕ, ◌/◌, ◌%◌, ◌≤◌, ◌≡◌, refl, ap, subst, ◌∙◌, arith, length-append, le→ltb, Bool, true, ◌||◌, ◌==◌,
  le→leb, [], ◌∷◌, ◌++◌, Bytes, length, big_endian,
}
use multi_process_server.Jt1078.Header.{
  Header, jt1078_max_length, jt_1078_head_mark, data_type_audio, data_type_route,
}
use multi_process_server.Buffer.{skip}
use multi_process_server.Buffer.Contents.{IsReadable, readable, readable_bytes-length}
use multi_process_server.Jt1078.Scan.{next, after, Reader, need, ◌>>=◌, integer, bytes}
use multi_process_server.Jt1078.Scan.Fits.{
  Fits, bind-Fits, integer-Fits, bytes-Fits, update-Fits, require-Fits,
}
use multi_process_server.Jt1078.Decoder.{
  is_support_coding_type, is_video_type, parse_header_step1, describing_fields, fixed_fields,
  body_length,
}

-- The data types that the parser knows.
abbrev pub is_known : ℕ → Bool
is_known t = is_video_type t || t == data_type_audio || t == data_type_route

-- The first five bytes of every packet.
abbrev pub fixed_bytes : Bytes
fixed_bytes = 0x30 ∷ 0x31 ∷ 0x63 ∷ 0x64 ∷ 0x81 ∷ []

abbrev pub fixed : Header → Header
fixed h = record h { frame_head_mark = jt_1078_head_mark; v2 = 2; p1 = 0; x1 = 0; cc4 = 1 }

-- Two bytes for the length of the body, which is not above the limit.
pub body_length-Fits :
    (hi lo : ℕ) (h : Header)
    → big_endian (hi ∷ lo ∷ []) ≤ jt1078_max_length
    → Fits body_length (hi ∷ lo ∷ []) h tt (record h { body_len = big_endian (hi ∷ lo ∷ []) })
unfolding body_length
body_length-Fits hi lo h small =
    bind-Fits (hi ∷ lo ∷ []) [] _ (integer-Fits (hi ∷ lo ∷ []) h)
      (bind-Fits [] [] _ (update-Fits _ h) (require-Fits _ _ (le→leb _ _ small)))

pub fixed_fields-Fits : (h : Header) → Fits fixed_fields fixed_bytes h tt (fixed h)
unfolding fixed_fields big_endian
fixed_fields-Fits h =
    let mark : Bytes = 0x30 ∷ 0x31 ∷ 0x63 ∷ 0x64 ∷ [] in
    let octet : Bytes = 0x81 ∷ [] in
    bind-Fits mark octet _ (integer-Fits mark h) (
      bind-Fits [] octet _ (update-Fits _ _) (
        bind-Fits [] octet _ (require-Fits _ _ refl) (
          bind-Fits octet [] _ (integer-Fits octet _) (
            bind-Fits [] [] _ (update-Fits _ _) (
              bind-Fits [] [] _ (require-Fits _ _ refl) (
                bind-Fits [] [] _ (update-Fits _ _) (
                  bind-Fits [] [] _ (require-Fits _ _ refl) (
                    bind-Fits [] [] _ (update-Fits _ _) (
                      bind-Fits [] [] _ (require-Fits _ _ refl)
                        (bind-Fits [] [] _ (update-Fits _ _) (require-Fits _ _ refl)))))))))))

-- The two bytes of the sequence number, the SIM card number, the channel and the kinds behind the
-- octet with the coding type.
abbrev pub described : ℕ → Bytes → Bytes → ℕ → ℕ → Header → Header
described octet sequence sim channel kinds h = record h {
  m1 = octet / 128 % 2;
  pt7 = octet % 128;
  package_sequence = big_endian sequence;
  sim_card_number = sim;
  logic_channel_number = channel;
  data_type4 = kinds / 16 % 16;
  subpackage_handle_mark4 = kinds % 16;
}

octet_value : (x : ℕ) → big_endian (x ∷ []) ≡ x
unfolding big_endian
octet_value x = omega arith

octet-Fits : (x : ℕ) (h : Header) → Fits (integer 1) (x ∷ []) h x h
octet-Fits x h =
    subst (λ v. Fits (integer 1) (x ∷ []) h v h) (octet_value x) (integer-Fits (x ∷ []) h)

sim-Fits : (sim : Bytes) (h : Header) → length sim ≡ 6 → Fits (bytes 6) sim h sim h
sim-Fits sim h six = subst (λ n. Fits (bytes n) sim h sim h) six (bytes-Fits sim h)

-- The eleven bytes behind the fixed ones, with a coding type that is supported, a known data type and
-- a known mark for subpackages.
pub describing_fields-Fits :
    (octet hi lo channel kinds : ℕ) (sim : Bytes) (h : Header)
    → is_support_coding_type (octet % 128) ≡ true
    → length sim ≡ 6
    → is_known (kinds / 16 % 16) ≡ true
    → kinds % 16 ≤ 3
    → Fits describing_fields
        (octet ∷ hi ∷ lo ∷ sim ++ channel ∷ kinds ∷ [])
        h
        tt
        (described octet (hi ∷ lo ∷ []) sim channel kinds h)
unfolding describing_fields
describing_fields-Fits octet hi lo channel kinds sim h coding six kind mark =
    let sequence : Bytes = hi ∷ lo ∷ [] in
    let pair : Bytes = channel ∷ kinds ∷ [] in
    let behind : Bytes = sim ++ pair in
    bind-Fits (octet ∷ []) (sequence ++ behind) _ (octet-Fits octet h) (
      bind-Fits [] (sequence ++ behind) _ (update-Fits _ h) (
        bind-Fits [] (sequence ++ behind) _ (require-Fits _ _ coding) (
          bind-Fits sequence behind _ (integer-Fits sequence _) (
            bind-Fits [] behind _ (update-Fits _ _) (
              bind-Fits sim pair _ (sim-Fits sim _ six) (
                bind-Fits [] pair _ (update-Fits _ _) (
                  bind-Fits (channel ∷ []) (kinds ∷ []) _ (octet-Fits channel _) (
                    bind-Fits [] (kinds ∷ []) _ (update-Fits _ _) (
                      bind-Fits (kinds ∷ []) [] _ (octet-Fits kinds _) (
                        bind-Fits [] [] _ (update-Fits _ _) (
                          bind-Fits [] [] _ (require-Fits _ _ kind) (
                            bind-Fits [] [] _ (update-Fits _ _)
                              (require-Fits _ _ (le→leb _ _ mark))))))))))))))

-- The first 16 bytes of a packet.
abbrev pub front_bytes : ℕ → ℕ → ℕ → Bytes → ℕ → ℕ → Bytes
front_bytes octet hi lo sim channel kinds =
    fixed_bytes ++ octet ∷ hi ∷ lo ∷ sim ++ channel ∷ kinds ∷ []

pub length-front_bytes :
    (octet hi lo channel kinds : ℕ) (sim : Bytes)
    → length sim ≡ 6
    → length (front_bytes octet hi lo sim channel kinds) ≡ 16
length-front_bytes octet hi lo channel kinds sim six =
    omega (arith, six, length-append sim (channel ∷ kinds ∷ []))

pub need_met :
    (n : ℕ) (r : Reader) → IsReadable r.input → n ≤ length (readable r.input) → need n r ≡ next tt r
unfolding need
need_met n r sound enough =
    rw (readable_bytes-length r.input sound, le→ltb (length (readable r.input)) n enough) refl

-- On the first 16 bytes of a packet, with the mark and the fixed fields of the protocol, a supported
-- coding type, a known data type and a known mark for subpackages, `ParseHeaderStep1` writes the fields
-- that these bytes say, and takes the 16 bytes and no more from the buffer.
pub parse_header_step1-Fits :
    (octet hi lo channel kinds : ℕ) (sim : Bytes) (r : Reader) (rest : Bytes)
    → is_support_coding_type (octet % 128) ≡ true
    → length sim ≡ 6
    → is_known (kinds / 16 % 16) ≡ true
    → kinds % 16 ≤ 3
    → IsReadable r.input
    → readable r.input ≡ front_bytes octet hi lo sim channel kinds ++ rest
    → parse_header_step1 16 r
      ≡ next tt (record {
        header = described octet (hi ∷ lo ∷ []) sim channel kinds (fixed r.header);
        input = skip 16 r.input;
      })
unfolding parse_header_step1
parse_header_step1-Fits octet hi lo channel kinds sim r rest coding six kind mark sound content =
    let back : Bytes = octet ∷ hi ∷ lo ∷ sim ++ channel ∷ kinds ∷ [] in
    let whole : length (front_bytes octet hi lo sim channel kinds) ≡ 16 =
      length-front_bytes octet hi lo channel kinds sim six in
    let enough : 16 ≤ length (readable r.input) = omega (
      arith,
      whole,
      ap length content,
      length-append (front_bytes octet hi lo sim channel kinds) rest,
    ) in
    ap (λ s. after s (λ _. fixed_fields >>= λ _. describing_fields)) (need_met 16 r sound enough)
    ∙ bind-Fits fixed_bytes back (λ _. describing_fields) (fixed_fields-Fits r.header)
        (describing_fields-Fits octet hi lo channel kinds sim (fixed r.header) coding six kind mark)
        r rest refl sound content
    ∙ ap
        (λ n. next tt (record {
          header = described octet (hi ∷ lo ∷ []) sim channel kinds (fixed r.header);
          input = skip n r.input;
        }))
        whole
