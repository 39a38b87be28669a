-- ===== src/DeviceId/Text.antt =====
-- Jt1078Util.cpp: a device id as text is read as this device id.
use multi_process_server.Base.{
  ℕ, zero, suc, ◌+◌, ◌*◌, ◌/◌, ◌%◌, ◌^◌, ◌<◌, ◌≡◌, refl, sym, ap, ◌∙◌, arith, ltb, leb, ◌==◌,
  if_then, if_else, lt→ltb, Bool, true, false, ◌&&◌, ◌||◌, [], ◌∷◌, ◌++◌, append_assoc, Bytes, some,
}
use multi_process_server.DeviceId.{
  hex_char, hex_digit, hex_digits, onto, digits, is_space, generate_device_id,
  generate_device_id_str_by_device_id, in_range,
}

hex_digit-hex_char : (d : ℕ) → d < 16 → hex_digit (hex_char d) ≡ some d
unfolding hex_digit
hex_digit-hex_char d h = ground arith

digits_front :
    (d : ℕ) (cs : Bytes) (acc : ℕ)
    → d < 16
    → digits (hex_char d ∷ cs) acc ≡ digits cs (acc * 16 + d)
unfolding digits
digits_front d cs acc h = ap (onto (digits cs) acc) (hex_digit-hex_char d h)

-- At most so many digits.
abbrev Fits : ℕ → ℕ → Type 0
Fits zero v = v ≡ 0
Fits (suc n) v = Fits n (v / 16)

digits-hex_digits :
    (n v : ℕ) (cs : Bytes) → Fits n v → digits (hex_digits n v ++ cs) 0 ≡ digits cs v
unfolding hex_digits
digits-hex_digits zero v cs f = ap (digits cs) (sym f)
digits-hex_digits (suc n) v cs f =
    ap (λ xs. digits xs 0) (append_assoc (hex_digits n (v / 16)) (hex_char (v % 16) ∷ []) cs)
    ∙ digits-hex_digits n (v / 16) (hex_char (v % 16) ∷ cs) f
    ∙ digits_front (v % 16) cs (v / 16) (omega arith)
    ∙ ap (digits cs) (let e : v / 16 * 16 + v % 16 ≡ v = omega arith in e)

-- A digit is no space, no sign and no `x`.
hex_char_plain :
    (d : ℕ)
    → d < 16
    → (is_space (hex_char d) ≡ false)
      × ((hex_char d == 45) ≡ false)
      × ((hex_char d == 43) ≡ false)
      × ((hex_char d == 120 || hex_char d == 88) ≡ false)
unfolding is_space
hex_char_plain d h = (ground arith, ground arith, ground arith, ground arith)

and_false : (a b : Bool) → b ≡ false → (a && b) ≡ false
and_false true b e = e
and_false false b e = refl

-- Text that begins with two digits is read as what its digits say.
pub generate_device_id-digits :
    (d e : ℕ) (cs : Bytes)
    → d < 16
    → e < 16
    → generate_device_id (hex_char d ∷ hex_char e ∷ cs)
      ≡ in_range false (digits (hex_char d ∷ hex_char e ∷ cs) 0)
unfolding generate_device_id
generate_device_id-digits d e cs hd he =
    let (space, minus, plus, _) = hex_char_plain d hd in
    let (_, _, _, x) = hex_char_plain e he in
    if_else (is_space (hex_char d)) _ _ space
    ∙ if_else (hex_char d == 45) _ _ minus
    ∙ if_else (hex_char d == 43) _ _ plus
    ∙ ap (in_range false) (
        if_else (hex_char d == 48 && (hex_char e == 120 || hex_char e == 88)) _ _
          (and_false (hex_char d == 48) _ x))

-- The text of a device id below 2 ^ 56, which has 14 digits, is read as this device id.
pub generate_device_id-generate_device_id_str_by_device_id :
    (id : ℕ)
    → id < 2 ^ 56
    → (text : Bytes) × (generate_device_id_str_by_device_id id ≡ some text)
      × (generate_device_id text ≡ id)
unfolding generate_device_id_str_by_device_id hex_digits digits
generate_device_id-generate_device_id_str_by_device_id id h =
    let top = id / 16 / 16 / 16 / 16 / 16 / 16 / 16 / 16 / 16 / 16 / 16 / 16 in
    (
      hex_digits 14 id,
      if_then (ltb id (2 ^ 56)) _ _ (lt→ltb id (2 ^ 56) h),
      generate_device_id-digits (top / 16 % 16) (top % 16) _ (omega arith) (omega arith)
          ∙ ap (in_range false) (digits-hex_digits 14 id [] (omega arith))
          ∙ if_else (leb (2 ^ 64) id) _ _ (ground arith),
    )
