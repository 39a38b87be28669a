-- ===== src/WebSocket/Server/Crash.antt =====
-- CarWebSocketServer.cpp: a text that stands for a number of more than 15 digits, such as
-- "-0000000000001".
use multi_process_server.Base.{
  ℕ, ◌≤◌, ◌^◌, ◌≡◌, refl, ap, ◌∙◌, arith, ◌==◌, ==_iff, ltb, le→ltb, if◌then◌else◌, if_then,
  if_else, true, false, [], ◌∷◌, ◌++◌, Bytes, length, insert, find, Option, none, some, ◌>>=◌,
}
use multi_process_server.DeviceId.{generate_device_id, generate_device_id_str_by_device_id}
use multi_process_server.WebSocket.Topics.{
  exists_topic, create_topic, subscribe_topic, add_handle, remove_subscriber, remove_handle,
  empty_topics, no_handles,
}
use multi_process_server.WebSocket.Server.{
  Server, live, add_hdl, on_open, unsubscribe_each, on_close,
}

bind_none : {A B : Type 0} (o : Option A) (f : A → Option B) → o ≡ none → (o >>= f) ≡ none
bind_none none f e = refl
bind_none (some a) f e = absurd cc

no_text : (id : ℕ) → 2 ^ 60 ≤ id → generate_device_id_str_by_device_id id ≡ none
unfolding generate_device_id_str_by_device_id
no_text id h =
    if_else (ltb id (2 ^ 56)) _ _ (le→ltb id (2 ^ 56) (omega arith))
    ∙ if_else (ltb id (2 ^ 60)) _ _ (le→ltb id (2 ^ 60) h)

unsubscribe_each-none : (id : ℕ) → 2 ^ 60 ≤ id → unsubscribe_each (id ∷ []) ≡ none
unfolding unsubscribe_each
unsubscribe_each-none id h =
    ap (λ r. r >>= λ text. some (record { text = text; subscribes = false } ∷ [])) (no_text id h)

-- The topic of the only handle is empty when it leaves.
emptied :
    (id h : ℕ)
    → empty_topics (remove_subscriber h (subscribe_topic id h (create_topic id []))) ≡ id ∷ []
unfolding empty_topics remove_subscriber remove_handle subscribe_topic add_handle create_topic
    insert
emptied id h =
    ap (λ b. empty_topics (remove_subscriber h (if b then (id, h ∷ []) ∷ [] else (id, []) ∷ [])))
      ((==_iff id id).1 refl)
    ∙ ap (λ b. if no_handles (if b then [] else h ∷ []) then id ∷ [] else []) ((==_iff h h).1 refl)

module _ (h : ℕ) (text : Bytes) (s : Server) where
  -- A server without topics: a connection whose text of 14 characters stands for a number of 2 ^ 60 or
  -- more ends, when it is closed, in a write outside the array of the text of the device id.
  pub on_close-overrun :
      (length text == 14) ≡ true
      → 2 ^ 60 ≤ generate_device_id text
      → on_close h (on_open h (live ++ text) (record s { topics = [] })) ≡ none
  unfolding on_close on_open add_hdl exists_topic find
  on_close-overrun fits large =
      let id = generate_device_id text in
      ap (on_close h) (if_then (length text == 14) _ _ fits)
      ∙ bind_none _ _ (ap unsubscribe_each (emptied id h) ∙ unsubscribe_each-none id large)
