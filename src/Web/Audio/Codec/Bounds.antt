-- ===== src/Web/Audio/Codec/Bounds.antt =====
-- CCodec.cpp: the decoders of G.711 and ADPCM write inside the buffer while the input is short enough.
use multi_process_server.Base.{
  ℕ, suc, ◌-◌, ◌*◌, ◌≤◌, ◌<◌, ◌≡◌, refl, sym, ap, subst, ◌∙◌, arith, if◌then◌else◌, le→ltb, lt→ltb,
  ltb, if_then, if_else, if_elim, ◌+◌, ◌/◌, ◌%◌, get_or, take, little_endian, length-drop, ◌>>=◌,
  Option, none, some, List, [], ◌∷◌, map, Bytes, length, drop, ℤ, pos, negsuc, minus, unsigned,
  signed, ◌++◌,
}
use multi_process_server.Ipc.Packet.{le_bytes}
use multi_process_server.Web.Audio.G711.{
  to_short, alaw2linear, ulaw2linear, g711a_decode, g711u_decode,
}
use multi_process_server.Web.Audio.Codec.{
  AudioCodingType, g711_a, g711_u, adpcm, g726, unsupported, Coders, Codec, out_buf_len,
  sample_bytes, look, behind_header, write, decode_g711, decode_adpcm, decode_audio,
}

-- `adpcm_decoder` writes samples for an index in its table and enough data, two of each byte, and never
-- other than as many as it is asked for.
pub record Fills (coders : Coders) : Type 0 where
  pub in_table :
      (v : ℤ) (i : ℕ) (xs : Bytes) (n : ℕ)
      → i ≤ 88
      → n ≤ length xs * 2
      → (vs : List ℤ) × (coders.adpcm_decoder v (pos i) xs n ≡ some vs)
  pub as_many :
      (v i : ℤ) (xs : Bytes) (n : ℕ) (vs : List ℤ)
      → coders.adpcm_decoder v i xs n ≡ some vs
      → length vs ≡ n

length-sample_bytes : (vs : List ℤ) → length (sample_bytes vs) ≡ length vs * 2
unfolding sample_bytes
length-sample_bytes [] = refl
length-sample_bytes (v ∷ vs) = omega (arith, length-sample_bytes vs)

length-map : {A B : Type 0} (f : A → B) (xs : List A) → length (map f xs) ≡ length xs
length-map f [] = refl
length-map f (x ∷ xs) = ap suc (length-map f xs)

-- The bytes of samples: of each the lower byte and the upper one, modulo 2 ^ 16.
abbrev pub pcm : List ℤ → Bytes
pcm [] = []
pcm (v ∷ vs) = le_bytes 2 (unsigned 16 v) ++ pcm vs

-- A result that is the PCM of these samples, says how many bytes they take up, and fits into the buffer.
pub record Whole {Context : Type 0} (t : AudioCodingType) (vs : List ℤ) (r : Option (Codec Context))
    : Type 0 where
  pub codec : Codec Context
  pub done : r ≡ some codec
  pub says : codec.out_len ≡ pos (length vs * 2)
  pub kind : codec.out_type ≡ t
  pub holds : codec.out ≡ pcm vs
  pub fits : length vs * 2 ≤ out_buf_len

unsigned_bound : (v : ℤ) → unsigned 16 v < 65536
unfolding unsigned
unsigned_bound (pos n) = omega arith
unsigned_bound (negsuc n) = omega arith

sample_bytes-pcm : (vs : List ℤ) → sample_bytes vs ≡ pcm vs
unfolding sample_bytes le_bytes unsigned
sample_bytes-pcm [] = refl
sample_bytes-pcm (v ∷ vs) =
    let two_bytes : unsigned 16 v / 256 ≡ unsigned 16 v / 256 % 256 =
      omega (arith, unsigned_bound v) in
    λ i. unsigned 16 v % 256 ∷ two_bytes i ∷ sample_bytes-pcm vs i

pub length-pcm : (vs : List ℤ) → length (pcm vs) ≡ length vs * 2
unfolding le_bytes
length-pcm [] = refl
length-pcm (v ∷ vs) = omega (arith, length-pcm vs)

write-Whole :
    {Context : Type 0} (t : AudioCodingType) (out : Bytes) (n : ℕ) (vs : List ℤ) (c : Codec Context)
    → out ≡ pcm vs
    → n ≡ length vs * 2
    → length vs * 2 ≤ out_buf_len
    → Whole t vs (write t out (pos n) c)
unfolding write
write-Whole t out n vs c holds says fits = record {
  codec = record c { out = out; out_len = pos n; out_type = t };
  done =
      ap (λ b. if b then none else some (record c { out = out; out_len = pos n; out_type = t }))
        (le→ltb out_buf_len (length out) (omega (arith, ap length holds, length-pcm vs)));
  says = ap pos says;
  kind = refl;
  holds = holds;
  fits = fits;
}

-- The conversion to a short does not change the bytes.
signed_bits : (n : ℕ) → n < 65536 → unsigned 16 (signed 16 n) ≡ n
unfolding signed unsigned
signed_bits n h =
    if_elim (λ v. unsigned 16 v ≡ n) (ltb n 32768) (λ _. omega arith) (λ _. omega arith)

same_bits : (v : ℤ) → unsigned 16 (to_short v) ≡ unsigned 16 v
unfolding to_short
same_bits v = signed_bits (unsigned 16 v) (unsigned_bound v)

pcm-to_short : (f : ℕ → ℤ) (xs : Bytes) → pcm (map (λ x. to_short (f x)) xs) ≡ pcm (map f xs)
unfolding to_short
pcm-to_short f [] = refl
pcm-to_short f (x ∷ xs) = λ i. le_bytes 2 (same_bits (f x) i) ++ pcm-to_short f xs i

-- What is behind the header, if the frames of this car have one.
abbrev pub body_of : {Context : Type 0} → Bytes → Codec Context → Bytes
body_of input c = behind_header input (look input c)

-- The bytes that the samples of a body take up, and the bodies that the decoder can take.
abbrev pub size_of : AudioCodingType → ℕ → ℕ
size_of adpcm n = (n - 4) * 4
size_of g711_a n = n * 2
size_of g711_u n = n * 2
size_of _ n = 0

abbrev pub Decodes : AudioCodingType → Bytes → Type 0
Decodes adpcm body = (4 ≤ length body) × (get_or body 2 0 ≤ 88)
Decodes g711_a body = Unit {0}
Decodes g711_u body = Unit {0}
Decodes _ body = ⊥

-- The samples of a body: one for each code, or those of the ADPCM decoder, whose first sample is a
-- 16-bit number in the first two bytes, and whose index is the third byte.
abbrev pub samples_in : (coders : Coders) → AudioCodingType → Bytes → Option (List ℤ)
samples_in coders g711_a body = some (map alaw2linear body)
samples_in coders g711_u body = some (map ulaw2linear body)
samples_in coders adpcm body =
    coders.adpcm_decoder (signed 16 (little_endian (take 2 body))) (pos (get_or body 2 0))
      (drop 4 body) ((length body - 4) * 2)
samples_in coders _ body = none

first_sample :
    (body : Bytes)
    → 4 ≤ length body
    → get_or body 1 0 * 256 + get_or body 0 0 ≡ little_endian (take 2 body)
unfolding little_endian
first_sample [] h = absurd (omega arith)
first_sample (a ∷ []) h = absurd (omega arith)
first_sample (a ∷ b ∷ body) h = omega arith

index_byte : (b : ℕ) → b ≤ 88 → signed 8 b ≡ pos b
unfolding signed
index_byte b h = if_then (ltb b 128) _ _ (lt→ltb b 128 (omega arith))

adpcm_len : (n : ℕ) → 4 ≤ n → minus (4 * n) 16 ≡ pos ((n - 4) * 4)
unfolding minus
adpcm_len n h =
    ap (λ b. if b then negsuc (16 - 4 * n - 1) else pos (4 * n - 16))
      (le→ltb (4 * n) 16 (omega arith))
    ∙ ap pos (let e : 4 * n - 16 ≡ (n - 4) * 4 = omega arith in e)

-- A decoder's result: the samples of the body, as many as they should be, as PCM in the buffer.
pub record Played (coders : Coders) (t : AudioCodingType) (body : Bytes)
    (r : Option (Codec coders.Context)) : Type 0 where
  pub samples : List ℤ
  pub sampled : samples_in coders t body ≡ some samples
  pub as_long : length samples * 2 ≡ size_of t (length body)
  pub whole : Whole t samples r

too_many :
    {Context : Type 0} (input : Bytes) (c : Codec Context) (z : ℤ) (n : ℕ)
    → 1024 < n
    → (samples : Option (List ℤ)) → ((vs : List ℤ) → samples ≡ some vs → length vs ≡ n)
    → (samples >>= λ vs. write adpcm (sample_bytes vs) z (look input c)) ≡ none
unfolding write
too_many input c z n h none as_many = refl
too_many input c z n h (some vs) as_many =
    if_then (ltb out_buf_len (length (sample_bytes vs))) _ _ (
      lt→ltb out_buf_len (length (sample_bytes vs))
        (omega (arith, length-sample_bytes vs, as_many vs refl)))

module _ (coders : Coders) (fills : Fills coders) (input : Bytes) (c : Codec coders.Context) where
  decode_adpcm-Played :
      Decodes adpcm (body_of input c)
      → (length (body_of input c) - 4) * 4 ≤ out_buf_len
      → Played coders adpcm (body_of input c) (decode_audio coders adpcm input c)
  unfolding decode_audio decode_adpcm
  decode_adpcm-Played (enough, index) few =
      let body = body_of input c in
      let n = (length body - 4) * 2 in
      let (vs, sampled) =
        fills.in_table (signed 16 (little_endian (take 2 body))) (get_or body 2 0) (drop 4 body) n
          index (omega (arith, length-drop 4 body)) in
      let many = fills.as_many _ _ (drop 4 body) n vs sampled in
      let finish : Option (List ℤ) → Option (Codec coders.Context) = λ samples. samples >>= λ vs.
      write adpcm (sample_bytes vs) (minus (4 * length body) 16) (look input c) in
      let state : coders.adpcm_decoder (signed 16 (get_or body 1 0 * 256 + get_or body 0 0))
            (signed 8 (get_or body 2 0)) (drop 4 body) n
          ≡ coders.adpcm_decoder (signed 16 (little_endian (take 2 body))) (pos (get_or body 2 0))
              (drop 4 body) n =
        λ i.
          coders.adpcm_decoder (signed 16 (first_sample body enough i))
            (index_byte (get_or body 2 0) index i) (drop 4 body) n in
      record {
        samples = vs;
        sampled = sampled;
        as_long = omega (arith, many);
        whole =
            subst (Whole adpcm vs)
              (sym (
                if_else (ltb (length body) 2) _ _ (le→ltb (length body) 2 (omega arith))
                ∙ ap finish (state ∙ sampled)
                ∙ ap (λ z. write adpcm (sample_bytes vs) z (look input c))
                    (adpcm_len (length body) enough)))
              (write-Whole adpcm (sample_bytes vs) ((length body - 4) * 4) vs (look input c)
                (sample_bytes-pcm vs) (omega (arith, many)) (omega (arith, many)));
      }

  pub decode_audio-Played :
      (t : AudioCodingType)
      → Decodes t (body_of input c)
      → size_of t (length (body_of input c)) ≤ out_buf_len
      → Played coders t (body_of input c) (decode_audio coders t input c)
  unfolding decode_audio decode_g711 g711a_decode g711u_decode
  decode_audio-Played g711_a ok few =
      let codes = body_of input c in
      let vs = map alaw2linear codes in
      record {
        samples = vs;
        sampled = refl;
        as_long = omega (arith, length-map alaw2linear codes);
        whole =
            write-Whole g711_a (sample_bytes (g711a_decode codes).0) (length codes * 2) vs
              (look input c)
              (sample_bytes-pcm (g711a_decode codes).0 ∙ pcm-to_short alaw2linear codes)
              (omega (arith, length-map alaw2linear codes))
              (omega (arith, length-map alaw2linear codes));
      }
  decode_audio-Played g711_u ok few =
      let codes = body_of input c in
      let vs = map ulaw2linear codes in
      record {
        samples = vs;
        sampled = refl;
        as_long = omega (arith, length-map ulaw2linear codes);
        whole =
            write-Whole g711_u (sample_bytes (g711u_decode codes).0) (length codes * 2) vs
              (look input c)
              (sample_bytes-pcm (g711u_decode codes).0 ∙ pcm-to_short ulaw2linear codes)
              (omega (arith, length-map ulaw2linear codes))
              (omega (arith, length-map ulaw2linear codes));
      }
  decode_audio-Played adpcm ok few = decode_adpcm-Played ok few
  decode_audio-Played g726 ok few = absurd ok
  decode_audio-Played unsupported ok few = absurd ok

  -- A body of ADPCM data of more than 516 bytes is written past the end of the buffer, unless the decoder
  -- reads outside its arrays before.
  pub decode_audio-overrun :
      516 < length (body_of input c) → decode_audio coders adpcm input c ≡ none
  unfolding decode_audio decode_adpcm
  decode_audio-overrun many =
      let body = body_of input c in
      let n = (length body - 4) * 2 in
      let state = coders.adpcm_decoder _ _ (drop 4 body) n in
      if_else (ltb (length body) 2) _ _ (le→ltb (length body) 2 (omega arith))
      ∙ too_many input c (minus (4 * length body) 16) n (omega arith) state
          (fills.as_many _ _ (drop 4 body) n)
