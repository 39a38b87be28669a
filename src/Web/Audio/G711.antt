-- ===== src/Web/Audio/G711.antt =====
-- web_server/audio/G711.cpp: the A-law and u-law codes of 16-bit samples.
pub mod Codes
use multi_process_server.Base.{
  ℕ, zero, suc, ◌+◌, ◌-◌, ◌*◌, ◌/◌, ◌%◌, ◌^◌, ltb, leb, ◌==◌, if◌then◌else◌, List, [], ◌∷◌, map,
  Bytes, length, ℤ, pos, negsuc, negative, unsigned, signed,
}
use Prim.Native.Nat.{bit_and, bit_xor, bit_or}

abbrev pub sign_bit : ℕ
sign_bit = 0x80

abbrev pub quant_mask : ℕ
quant_mask = 0xf

abbrev pub seg_shift : ℕ
seg_shift = 4

abbrev pub seg_mask : ℕ
seg_mask = 0x70

abbrev pub bias : ℕ
bias = 0x84

abbrev pub seg_end : List ℕ
seg_end = 0xff ∷ 0x1ff ∷ 0x3ff ∷ 0x7ff ∷ 0xfff ∷ 0x1fff ∷ 0x3fff ∷ 0x7fff ∷ []

-- The first entry that the value does not pass; the entries are positive.
unfoldable pub search : ℤ → List ℕ → ℕ
search v [] = 0
search (negsuc n) (x ∷ xs) = 0
search (pos n) (x ∷ xs) = let rest = search (pos n) xs in if leb n x then 0 else suc rest

-- `(v >> k) & 0xf`: of a negative number, whose shift rounds down, the complement's digits.
unfoldable pub quantum : ℤ → ℕ → ℕ
quantum (pos n) k = bit_and (n / 2 ^ k) quant_mask
quantum (negsuc n) k = bit_xor (bit_and (n / 2 ^ k) quant_mask) quant_mask

unfoldable pub segment_of : ℕ → ℕ
segment_of v = bit_and v seg_mask / 2 ^ seg_shift

unfoldable pub alaw2linear : ℕ → ℤ
unfolding segment_of
alaw2linear a =
    let v = bit_xor a 0x55 in
    let seg = segment_of v in
    let q = bit_and v quant_mask * 2 ^ 4 in
    let t =
      if seg == 0 then q + 8 else if seg == 1 then q + 0x108 else (q + 0x108) * 2 ^ (seg - 1) in
    if bit_and v sign_bit == 0 then negative t else pos t

unfoldable pub ulaw2linear : ℕ → ℤ
unfolding segment_of
ulaw2linear u =
    let v = 0xff - u in
    let t = (bit_and v quant_mask * 2 ^ 3 + bias) * 2 ^ segment_of v in
    if bit_and v sign_bit == 0 then pos (t - bias) else negative (t - bias)

-- `aval` or `uval`: the segment, and the four digits at the shift.
abbrev combine : ℕ → ℕ → ℕ
combine seg q = bit_or (seg * 2 ^ seg_shift) q

abbrev alaw_code : ℕ → ℤ → ℕ
alaw_code mask v =
    let seg = search v seg_end in
    if leb 8 seg
    then bit_xor 0x7f mask
    else bit_xor (combine seg (quantum v (if ltb seg 2 then 4 else seg + 3))) mask

-- `-pcm_val - 8`, for the number -(n + 1).
abbrev alaw_magnitude : ℕ → ℤ
alaw_magnitude n = if ltb n 7 then negsuc (6 - n) else pos (n - 7)

unfoldable pub linear2alaw : ℤ → ℕ
unfolding search quantum
linear2alaw (pos n) = alaw_code 0xd5 (pos n)
linear2alaw (negsuc n) = alaw_code 0x55 (alaw_magnitude n)

abbrev ulaw_code : ℕ → ℕ → ℕ
ulaw_code mask n =
    let seg = search (pos n) seg_end in
    if leb 8 seg then bit_xor 0x7f mask else bit_xor (combine seg (quantum (pos n) (seg + 3))) mask

unfoldable pub linear2ulaw : ℤ → ℕ
unfolding search quantum
linear2ulaw (pos n) = ulaw_code 0xff (n + bias)
linear2ulaw (negsuc n) = ulaw_code 0x7f (bias + suc n)

-- `(short)`.
unfoldable pub to_short : ℤ → ℤ
unfolding unsigned signed
to_short v = signed 16 (unsigned 16 v)

-- The samples that are written to `amp`, and twice their number.
unfoldable pub g711a_decode : Bytes → List ℤ × ℕ
unfolding to_short alaw2linear
g711a_decode codes = (map (λ c. to_short (alaw2linear c)) codes, length codes * 2)

unfoldable pub g711u_decode : Bytes → List ℤ × ℕ
unfolding to_short ulaw2linear
g711u_decode codes = (map (λ c. to_short (ulaw2linear c)) codes, length codes * 2)

-- The codes that are written, and their number.
unfoldable pub g711a_encode : List ℤ → Bytes × ℕ
unfolding linear2alaw
g711a_encode samples = (map linear2alaw samples, length samples)

unfoldable pub g711u_encode : List ℤ → Bytes × ℕ
unfolding linear2ulaw
g711u_encode samples = (map linear2ulaw samples, length samples)
