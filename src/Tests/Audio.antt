-- ===== src/Tests/Audio.antt =====
-- The codecs of web_server/audio on a few bytes.
use multi_process_server.Base.{
  ℕ, ℤ, List, Option, some, if◌then◌else◌, if_then, if_else, le→ltb, Bool-cases, inl, inr, sym, ◌∙◌,
  ◌%◌, ◌≡◌, refl, ap, arith, ltb, ◌==◌, ◌&&◌, [], ◌∷◌, ◌++◌, Bytes, replicate, length, none, pos,
  negsuc,
}
use mathlib.Core.Option.{some-injective}
use multi_process_server.Web.Audio.G711.{
  search, quantum, segment_of, alaw2linear, linear2alaw, g711a_decode, g711a_encode,
}
use multi_process_server.Web.Audio.G711.Codes.{g711a_encode-g711a_decode}
use multi_process_server.Web.Audio.Codec.{
  Coders, Codec, new_codec, adpcm, decode_audio, look, behind_header, have_hai_si_header,
  hai_si_header,
}
use multi_process_server.Web.Audio.Codec.Header.{have_hai_si_header-hai_si_header}
use multi_process_server.Web.Audio.Codec.Bounds.{Fills, decode_audio-overrun}

-- Coders that repeat the first sample, while the index is in the table, and a G.726 decoder without
-- output.
abbrev repeating : ℤ → ℤ → Bytes → ℕ → Option (List ℤ)
repeating v (pos i) xs n = if ltb 88 i then none else some (replicate n v)
repeating v (negsuc i) xs n = none

abbrev pub coders : Coders
coders = record {
  adpcm_decoder = repeating;
  Context = Unit {0};
  decodec_init = λ rate. tt;
  decode = λ context xs n. (context, [], pos 0);
}

length-replicate : {A : Type 0} (n : ℕ) (a : A) → length (replicate n a) ≡ n
length-replicate ℕ.zero a = refl
length-replicate (ℕ.suc n) a = ap ℕ.suc (length-replicate n a)

repeating-as_many :
    (v i : ℤ) (xs : Bytes) (n : ℕ) (vs : List ℤ) → repeating v i xs n ≡ some vs → length vs ≡ n
repeating-as_many v (negsuc i) xs n vs e = absurd cc
repeating-as_many v (pos i) xs n vs e = elim (Bool-cases (ltb 88 i)) [
  | inl beyond ↦ absurd (let no : none ≡ some vs = sym (if_then (ltb 88 i) _ _ beyond) ∙ e in cc)
  | inr here ↦
      sym (ap length (some-injective _ _ (sym (if_else (ltb 88 i) _ _ here) ∙ e)))
      ∙ length-replicate n v
]

pub coders-Fills : Fills coders
coders-Fills = record {
  in_table = λ v i xs n here enough. (replicate n v, if_else (ltb 88 i) _ _ (le→ltb 88 i here));
  as_many = repeating-as_many;
}

-- Of the numbers from -7 to -1 the code is that of -248.
minus_one_code : alaw2linear (linear2alaw (negsuc 0)) ≡ negsuc 247
unfolding search quantum segment_of alaw2linear linear2alaw
minus_one_code = refl

abbrev codes : Bytes
codes = 0 ∷ 213 ∷ 85 ∷ 255 ∷ []

g711a_encode-g711a_decode_example : g711a_encode (g711a_decode codes).0 ≡ (codes, 4)
g711a_encode-g711a_decode_example =
    g711a_encode-g711a_decode codes (omega arith, (omega arith, (omega arith, (omega arith, tt))))

have_hai_si_header-hai_si_header_example :
    have_hai_si_header (hai_si_header (length codes) ++ codes)
    ≡ (length codes % 2 == 0 && ltb (length codes) 256)
have_hai_si_header-hai_si_header_example = have_hai_si_header-hai_si_header codes (omega arith)

abbrev pub fresh_codec : Codec (Unit {0})
fresh_codec = new_codec

-- Two bytes of data behind the state: the sample -2, and the index 88.
abbrev adpcm_body : Bytes
adpcm_body = 254 ∷ 255 ∷ 88 ∷ 0 ∷ 17 ∷ 34 ∷ []

abbrev long : Bytes
long = replicate 600 7

decode_audio-overrun_example : decode_audio coders adpcm long fresh_codec ≡ none
unfolding new_codec look behind_header have_hai_si_header
decode_audio-overrun_example =
    decode_audio-overrun coders coders-Fills long fresh_codec (omega arith)
