-- ===== src/Web/Audio/Codec.antt =====
-- web_server/audio/CCodec.cpp: the decoders of the audio of a car, into a buffer of 2048 bytes. The
-- ADPCM and G.726 coders are parameters. `none` is a read or a write outside the memory of a call.
use multi_process_server.Base.{
  ℕ, ◌+◌, ◌-◌, ◌*◌, ◌/◌, ◌%◌, ◌^◌, ltb, ◌==◌, if◌then◌else◌, Bool, true, false, ◌&&◌, not, Option,
  none, some, ◌>>=◌, List, [], ◌∷◌, ◌++◌, Bytes, length, drop, get_or, ℤ, pos, signed, unsigned,
  minus,
}
use multi_process_server.Web.Audio.G711.{g711a_decode, g711u_decode}
pub mod Header
pub mod Bounds

pub data AudioCodingType : Type 0 where
  g711_a : AudioCodingType
  g711_u : AudioCodingType
  adpcm : AudioCodingType
  g726 : AudioCodingType
  unsupported : AudioCodingType

-- Adpcm.cpp and g726.cpp: `adpcm_decoder` from the state (the previous sample and the index), the data
-- and the number of samples to write, `none` where it reads outside its arrays: the index is looked up
-- in a table of 89 entries before anything else; a G.726 context from its bit rate; and `decode`, with
-- the bytes that it writes and the number that it returns.
pub record Coders : Type 1 where
  pub adpcm_decoder : ℤ → ℤ → Bytes → ℕ → Option (List ℤ)
  pub Context : Type 0
  pub decodec_init : ℕ → Context
  pub decode : Context → Bytes → ℕ → Context × Bytes × ℤ

abbrev pub out_buf_len : ℕ
out_buf_len = 2048

-- The members that decoding uses: `m_iResult` is the bytes written to its buffer, the length and the
-- type that it says.
pub record Codec (Context : Type 0) : Type 0 where
  pub decode_first_frame : Bool
  pub hai_si_header : Bool
  pub decoder_ctx : Option Context
  pub bit_rate : ℕ
  pub out : Bytes
  pub out_len : ℤ
  pub out_type : AudioCodingType

unfoldable pub new_codec : {Context : Type 0} → Codec Context
new_codec = record {
  decode_first_frame = true;
  hai_si_header = false;
  decoder_ctx = none;
  bit_rate = 16000;
  out = [];
  out_len = pos out_buf_len;
  out_type = unsupported;
}

-- `char` is signed, and the length is 16 bits wide, so a byte from 0x80 on becomes a large number.
unfoldable pub have_hai_si_header : Bytes → Bool
unfolding unsigned signed
have_hai_si_header input =
    if ltb (length input) 4
    then false
    else if not (get_or input 0 0 == 0)
    then false
    else if not (get_or input 1 0 == 1)
    then false
    else if not (get_or input 3 0 == 0)
    then false
    else unsigned 16 (signed 8 (get_or input 2 0)) * 2 == length input - 4

-- The four bytes that `AddHaiSiHeader` writes.
unfoldable pub hai_si_header : ℕ → Bytes
hai_si_header body_len = 0 ∷ 1 ∷ body_len / 2 % 256 ∷ 0 ∷ []

-- Samples in the memory of a little-endian machine.
unfoldable pub sample_bytes : List ℤ → Bytes
unfolding unsigned
sample_bytes [] = []
sample_bytes (v ∷ vs) = unsigned 16 v % 256 ∷ unsigned 16 v / 256 ∷ sample_bytes vs

module _ {Context : Type 0} where
  -- The first frame says whether all frames have the header.
  unfoldable pub look : Bytes → Codec Context → Codec Context
  look input c =
      if c.decode_first_frame
      then record c { hai_si_header = have_hai_si_header input; decode_first_frame = false }
      else c

  unfoldable pub behind_header : Bytes → Codec Context → Bytes
  behind_header input c = if c.hai_si_header then drop 4 input else input

  -- A result that is written to the buffer.
  unfoldable pub write : AudioCodingType → Bytes → ℤ → Codec Context → Option (Codec Context)
  write t out n c =
      if ltb out_buf_len (length out)
      then none
      else some (record c { out = out; out_len = n; out_type = t })

  unfoldable pub decode_g711 :
      AudioCodingType → (Bytes → List ℤ × ℕ) → Bytes → Codec Context → Option (Codec Context)
  unfolding look behind_header write sample_bytes
  decode_g711 t decoder input c =
      let c' = look input c in
      let (samples, n) = decoder (behind_header input c') in
      write t (sample_bytes samples) (pos n) c'

module _ (coders : Coders) where
  -- The first three bytes are the state; the string that holds the data has a zero behind it.
  unfoldable pub decode_adpcm : Bytes → Codec coders.Context → Option (Codec coders.Context)
  unfolding look behind_header write sample_bytes minus signed
  decode_adpcm input c =
      let c' = look input c in
      let body = behind_header input c' in
      let samples =
        coders.adpcm_decoder (signed 16 (get_or body 1 0 * 256 + get_or body 0 0))
          (signed 8 (get_or body 2 0)) (drop 4 body) ((length body - 4) * 2) in
      if ltb (length body) 2
      then none
      else (samples >>= λ vs. write adpcm (sample_bytes vs) (minus (4 * length body) 16) c')

  -- The bit rate that the length of the first frame tells.
  unfoldable pub rate_of : ℕ → ℕ
  rate_of n =
      if n == 80 then 16000 else if n == 120 then 24000 else if n == 160 then 32000 else 40000

  unfoldable pub with_context : ℕ → Codec coders.Context → coders.Context × Codec coders.Context
  with_context n c = elim c.decoder_ctx [
    | some ctx ↦ (ctx, c)
    | none ↦
        let ctx = coders.decodec_init (rate_of n) in
        (ctx, record c { decoder_ctx = some ctx; bit_rate = rate_of n })
  ]

  unfoldable pub decode_g726 : Bytes → Codec coders.Context → Option (Codec coders.Context)
  unfolding look behind_header write with_context rate_of
  decode_g726 input c =
      let c' = look input c in
      let body = behind_header input c' in
      let (ctx, c'') = with_context (length body) c' in
      let (ctx', out, n) = coders.decode ctx body out_buf_len in
      if c'.hai_si_header && ltb (length input) 4
      then none
      else write g726 out n (record c'' { decoder_ctx = some ctx' })

  unfoldable pub decode_audio :
      AudioCodingType → Bytes → Codec coders.Context → Option (Codec coders.Context)
  unfolding decode_g711 decode_adpcm decode_g726
  decode_audio g711_a input c = decode_g711 g711_a g711a_decode input c
  decode_audio g711_u input c = decode_g711 g711_u g711u_decode input c
  decode_audio adpcm input c = decode_adpcm input c
  decode_audio g726 input c = decode_g726 input c
  decode_audio unsupported input c = some (record c { out_type = unsupported })
