-- ===== src/DeviceId.antt =====
-- jt1078/Jt1078Util.cpp: device ids as text and as numbers. Text is a list of character codes.
pub mod Text
pub mod Digits
use multi_process_server.Base.{
  ℕ, zero, suc, ◌+◌, ◌-◌, ◌*◌, ◌/◌, ◌%◌, ◌^◌, Bool, true, false, ◌&&◌, ◌||◌, ◌==◌, ltb, leb,
  if◌then◌else◌, [], ◌∷◌, ◌++◌, Bytes, Option, none, some,
}

unfoldable pub is_space : ℕ → Bool
is_space c = c == 32 || (leb 9 c && leb c 13)

unfoldable pub hex_digit : ℕ → Option ℕ
hex_digit c =
    if leb 48 c && leb c 57
    then some (c - 48)
    else if leb 65 c && leb c 70
    then some (c - 55)
    else if leb 97 c && leb c 102
    then some (c - 87)
    else none

-- The value of the digits in front, behind those that have been read.
abbrev pub onto : (ℕ → ℕ) → ℕ → Option ℕ → ℕ
onto rest acc none = acc
onto rest acc (some d) = rest (acc * 16 + d)

unfoldable pub digits : Bytes → ℕ → ℕ
unfolding hex_digit
digits [] acc = acc
digits (c ∷ cs) acc = onto (digits cs) acc (hex_digit c)

-- "0x" in front is passed over; where no digit follows it the value is 0 all the same.
abbrev pub without_prefix : Bytes → ℕ
without_prefix [] = 0
without_prefix (c ∷ []) = digits (c ∷ []) 0
without_prefix (c ∷ x ∷ cs) =
    if c == 48 && (x == 120 || x == 88) then digits cs 0 else digits (c ∷ x ∷ cs) 0

-- `ULLONG_MAX` where the number is too large, and 2 ^ 64 less the number behind a minus sign.
abbrev pub in_range : Bool → ℕ → ℕ
in_range negative n =
    if leb (2 ^ 64) n then 2 ^ 64 - 1 else if negative then (2 ^ 64 - n) % 2 ^ 64 else n

abbrev pub signed_value : Bytes → ℕ
signed_value [] = 0
signed_value (c ∷ cs) =
    if c == 45
    then in_range true (without_prefix cs)
    else if c == 43
    then in_range false (without_prefix cs)
    else in_range false (without_prefix (c ∷ cs))

-- `strtoull(text, nullptr, 16)`: `GenerateDeviceId` of a string and `GenerateDeviceIdByBuffer`.
unfoldable pub generate_device_id : Bytes → ℕ
unfolding is_space digits
generate_device_id [] = 0
generate_device_id (c ∷ cs) =
    let rest = generate_device_id cs in if is_space c then rest else signed_value (c ∷ cs)

abbrev pub hex_char : ℕ → ℕ
hex_char d = if ltb d 10 then 48 + d else 87 + d

-- "%02x" of a byte.
abbrev pub two_digits : ℕ → Bytes
two_digits b = hex_char (b / 16 % 16) ∷ hex_char (b % 16) ∷ []

-- `GenerateDeviceIdStr` of the six bytes of the SIM card number and the channel.
unfoldable pub generate_device_id_str : Bytes → ℕ → Bytes
generate_device_id_str [] channel = two_digits channel
generate_device_id_str (b ∷ sim) channel = two_digits b ++ generate_device_id_str sim channel

abbrev pub is_digit : ℕ → Bool
is_digit c = leb 48 c && leb c 57

abbrev pub all_digits : ℕ → Bytes → Bool
all_digits zero [] = true
all_digits zero (c ∷ cs) = false
all_digits (suc n) [] = false
all_digits (suc n) (c ∷ cs) = is_digit c && all_digits n cs

-- `CheckDeviceIdStrFmt`.
abbrev pub check_device_id_str_fmt : Bytes → Bool
check_device_id_str_fmt text = all_digits 14 text

-- The lowest digits of a number, the most significant first.
unfoldable pub hex_digits : ℕ → ℕ → Bytes
hex_digits zero v = []
hex_digits (suc n) v = hex_digits n (v / 16) ++ hex_char (v % 16) ∷ []

-- `GenerateDeviceIdStrByDeviceId`: `snprintf` writes at most 14 digits and a zero into the array of 16
-- characters, and says how many digits there are; of 15 digits the zero is part of the result, and of
-- 16 (`none`) a zero is written behind the array.
unfoldable pub generate_device_id_str_by_device_id : ℕ → Option Bytes
unfolding hex_digits
generate_device_id_str_by_device_id id =
    if ltb id (2 ^ 56)
    then some (hex_digits 14 id)
    else if ltb id (2 ^ 60)
    then some (hex_digits 14 (id / 16) ++ 0 ∷ [])
    else none
