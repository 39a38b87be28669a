-- ===== src/DeviceId/Digits.antt =====
-- Jt1078Util.cpp: a text that passes `CheckDeviceIdStrFmt` can be told from its device id.
use multi_process_server.Base.{
  ℕ, zero, suc, ◌+◌, ◌*◌, ◌-◌, ◌/◌, ◌%◌, ◌^◌, ◌<◌, ◌≡◌, refl, sym, ap, ◌∙◌, subst, arith, ltb, leb,
  ◌&&◌, if_then, if_else, lt→ltb, true, false, Bool, [], ◌∷◌, ◌++◌, append-nil, append_assoc, Bytes,
  some,
}
use mathlib.Core.Option.{some-injective}
use multi_process_server.DeviceId.{
  hex_char, hex_digit, hex_digits, onto, digits, generate_device_id, is_digit, all_digits,
  check_device_id_str_fmt, generate_device_id_str_by_device_id, in_range,
}
use multi_process_server.DeviceId.Text.{generate_device_id-digits}

and_left : (a b : Bool) → (a && b) ≡ true → a ≡ true
and_left true b e = refl
and_left false b e = e

and_right : (a b : Bool) → (a && b) ≡ true → b ≡ true
and_right true b e = e
and_right false b e = cc

hex_digit-is_digit : (c : ℕ) → is_digit c ≡ true → hex_digit c ≡ some (c - 48)
unfolding hex_digit
hex_digit-is_digit c h = rw h

hex_char-is_digit : (c : ℕ) → is_digit c ≡ true → hex_char (c - 48) ≡ c
hex_char-is_digit c h = ground arith

digit_small : (c : ℕ) → is_digit c ≡ true → c - 48 < 16
digit_small c h = ground arith

digits_digit :
    (c : ℕ) (cs : Bytes) (acc : ℕ)
    → is_digit c ≡ true
    → digits (c ∷ cs) acc ≡ digits cs (acc * 16 + (c - 48))
unfolding digits
digits_digit c cs acc h = ap (onto (digits cs) acc) (hex_digit-is_digit c h)

hex_digits-digits :
    (n k acc : ℕ) (cs : Bytes)
    → all_digits n cs ≡ true
    → hex_digits (n + k) (digits cs acc) ≡ hex_digits k acc ++ cs
unfolding hex_digits digits
hex_digits-digits zero k acc [] h =
    ap (λ j. hex_digits j acc) (let e : 0 + k ≡ k = omega arith in e)
    ∙ sym (append-nil (hex_digits k acc))
hex_digits-digits zero k acc (c ∷ cs) h = cc
hex_digits-digits (suc n) k acc [] h = cc
hex_digits-digits (suc n) k acc (c ∷ cs) h =
    let digit = and_left (is_digit c) (all_digits n cs) h in
    let rest = and_right (is_digit c) (all_digits n cs) h in
    let next : ℕ = acc * 16 + (c - 48) in
    let small : c - 48 < 16 = digit_small c digit in
    let front : hex_digits (suc k) next ≡ hex_digits k acc ++ c ∷ [] =
      ap (λ v. hex_digits k v ++ hex_char (next % 16) ∷ [])
        (let e : next / 16 ≡ acc = omega arith in e)
      ∙ ap (λ v. hex_digits k acc ++ hex_char v ∷ [])
          (let e : next % 16 ≡ c - 48 = omega arith in e)
      ∙ ap (λ v. hex_digits k acc ++ v ∷ []) (hex_char-is_digit c digit) in
    ap (λ v. hex_digits (suc n + k) v) (digits_digit c cs acc digit)
    ∙ ap (λ j. hex_digits j (digits cs next)) (let e : suc n + k ≡ n + suc k = omega arith in e)
    ∙ hex_digits-digits n (suc k) next cs rest
    ∙ ap (λ v. v ++ cs) front
    ∙ append_assoc (hex_digits k acc) (c ∷ []) cs

abbrev shift : ℕ → ℕ → ℕ
shift zero v = v
shift (suc n) v = shift n v / 16

shift-digits : (n acc : ℕ) (cs : Bytes) → all_digits n cs ≡ true → shift n (digits cs acc) ≡ acc
unfolding digits
shift-digits zero acc [] h = refl
shift-digits zero acc (c ∷ cs) h = cc
shift-digits (suc n) acc [] h = cc
shift-digits (suc n) acc (c ∷ cs) h =
    let digit = and_left (is_digit c) (all_digits n cs) h in
    let rest = and_right (is_digit c) (all_digits n cs) h in
    let next : ℕ = acc * 16 + (c - 48) in
    let small : c - 48 < 16 = digit_small c digit in
    ap (λ v. shift n v / 16) (digits_digit c cs acc digit)
    ∙ ap (λ v. v / 16) (shift-digits n next cs rest)
    ∙ (let e : next / 16 ≡ acc = omega arith in e)

digits-bound : (text : Bytes) → all_digits 14 text ≡ true → digits text 0 < 2 ^ 56
digits-bound text h = omega (arith, shift-digits 14 0 text h)

generate_device_id-digits_of :
    (text : Bytes) → check_device_id_str_fmt text ≡ true → generate_device_id text ≡ digits text 0
generate_device_id-digits_of [] h = cc
generate_device_id-digits_of (c ∷ []) h = cc (and_right (is_digit c) false h)
generate_device_id-digits_of (c ∷ e ∷ cs) h =
    let first = and_left (is_digit c) (all_digits 13 (e ∷ cs)) h in
    let behind = and_right (is_digit c) (all_digits 13 (e ∷ cs)) h in
    let second = and_left (is_digit e) (all_digits 12 cs) behind in
    let value : ℕ = digits (c ∷ e ∷ cs) 0 in
    let small : value < 2 ^ 56 = digits-bound (c ∷ e ∷ cs) h in
    subst (λ (xs : Bytes). generate_device_id xs ≡ in_range false (digits xs 0))
      (λ i. hex_char-is_digit c first i ∷ hex_char-is_digit e second i ∷ cs)
      (generate_device_id-digits (c - 48) (e - 48) cs (digit_small c first) (digit_small e second))
    ∙ if_else (leb (2 ^ 64) value) _ _ (ground arith)

-- A text of 14 decimal digits is the text of its device id, which is below 2 ^ 56.
pub generate_device_id_str_by_device_id-generate_device_id :
    (text : Bytes)
    → check_device_id_str_fmt text ≡ true
    → (generate_device_id text < 2 ^ 56)
      × (generate_device_id_str_by_device_id (generate_device_id text) ≡ some text)
unfolding generate_device_id_str_by_device_id
generate_device_id_str_by_device_id-generate_device_id text h =
    let value = generate_device_id-digits_of text h in
    let small : generate_device_id text < 2 ^ 56 = omega (arith, value, digits-bound text h) in
    (
      small,
      if_then (ltb (generate_device_id text) (2 ^ 56)) _ _
            (lt→ltb (generate_device_id text) (2 ^ 56) small)
          ∙ ap some (ap (hex_digits 14) value ∙ hex_digits-digits 14 0 0 text h),
    )

-- Two such texts with the same device id are the same.
pub generate_device_id-injective :
    (a b : Bytes)
    → check_device_id_str_fmt a ≡ true
    → check_device_id_str_fmt b ≡ true
    → generate_device_id a ≡ generate_device_id b
    → a ≡ b
generate_device_id-injective a b p q e = some-injective _ _ (
    sym (generate_device_id_str_by_device_id-generate_device_id a p).1
    ∙ ap generate_device_id_str_by_device_id e
    ∙ (generate_device_id_str_by_device_id-generate_device_id b q).1)
