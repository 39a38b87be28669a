-- ===== src/Redis/Lines.antt =====
-- RedisClient.cpp: which commands fit into the arrays.
use multi_process_server.Base.{
  ℕ, ◌+◌, ◌-◌, ◌≤◌, ◌≡◌, refl, ap, ◌∙◌, arith, ltb, lt→ltb, le→ltb, if_then, if_else, false, [],
  ◌∷◌, ◌++◌, Bytes, length, take-whole, none, some, is_empty_text,
}
use multi_process_server.Redis.{
  live, Server, fault, done, overrun, line, auth_word, send_line, auth,
}

-- A text with room for two more characters stands there whole.
pub line_whole : (size : ℕ) (text : Bytes) → length text + 2 ≤ size → line size text ≡ some text
unfolding line
line_whole size text h =
    if_then (ltb (length text) size) _ _ (lt→ltb (length text) size (omega arith))
    ∙ ap some (take-whole (size - 2) text (omega arith))

-- A text as long as the array, or longer, is written past its end.
pub line_overrun : (size : ℕ) (text : Bytes) → size ≤ length text → line size text ≡ none
unfolding line
line_overrun size text h = if_else (ltb (length text) size) _ _ (le→ltb (length text) size h)

-- On a context that is there: a password of at most 25 characters, and not empty, is sent whole, and one
-- of 27 characters or more is written past the end of the array.
pub auth_fits :
    (passport : Bytes) (s : Server)
    → is_empty_text passport ≡ false
    → s.client.context ≡ live
    → (length passport ≤ 25
        → (s' : Server) × (auth passport s ≡ done s')
          × (s'.client.sent ≡ s.client.sent ++ (auth_word ++ passport) ∷ []))
      × (27 ≤ length passport → auth passport s ≡ fault overrun)
unfolding auth
auth_fits passport s some_text there = (
  λ short. (
    record s {
      client = record (s.client) { sent = s.client.sent ++ (auth_word ++ passport) ∷ [] };
    },
    if_else (is_empty_text passport) _ _ some_text
        ∙ ap (λ l. send_line l s.client.context s)
            (line_whole 32 (auth_word ++ passport) (omega arith))
        ∙ ap (λ c. send_line (some (auth_word ++ passport)) c s) there,
    refl,
  ),
  λ long.
      if_else (is_empty_text passport) _ _ some_text
      ∙ ap (λ l. send_line l s.client.context s)
          (line_overrun 32 (auth_word ++ passport) (omega arith)),
)
