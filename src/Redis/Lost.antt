-- ===== src/Redis/Lost.antt =====
-- RedisMqServer.cpp: a connection that the server takes for one has a context, and what is pushed while
-- the connection is lost.
use multi_process_server.Base.{
  ℕ, ◌+◌, ◌≤◌, ◌≡◌, refl, ap, ◌∙◌, subst, arith, if_elim, Bool, true, false, [], ◌∷◌, ◌++◌, Bytes,
  length, length-append, Option, none, some, is_empty_text,
}
use multi_process_server.Redis.{
  Context, no_context, live, freed, Server, Done, fault, done, bad_context, Opening, out_of_memory,
  detached, opened, line, rpush_word, send_line, auth, select, rpush_list, on_connect,
  on_disconnect, on_auth, on_select, on_reconnect_timer, async_connect, Happening, connects,
  disconnects, auth_reply, select_reply, pushes, reconnect_time, handle, run,
}
use multi_process_server.Redis.Lines.{line_whole}

-- A server that takes itself for connected has a context.
abbrev pub IsLive : Server → Type 0
IsLive s = s.client.connected ≡ true → s.client.context ≡ live

-- Where a call ends with a server, it is such a one.
abbrev pub KeepsLive : Done → Type 0
KeepsLive (fault f) = Unit
KeepsLive (done s) = IsLive s

send_line-KeepsLive :
    (l : Option Bytes) (c : Context) (s : Server) → IsLive s → KeepsLive (send_line l c s)
send_line-KeepsLive none c s v = tt
send_line-KeepsLive (some text) live s v = v
send_line-KeepsLive (some text) no_context s v = tt
send_line-KeepsLive (some text) freed s v = tt

select-KeepsLive : (index : ℕ) (s : Server) → IsLive s → KeepsLive (select index s)
unfolding select
select-KeepsLive index s v = send_line-KeepsLive _ s.client.context s v

auth-KeepsLive : (passport : Bytes) (s : Server) → IsLive s → KeepsLive (auth passport s)
unfolding auth
auth-KeepsLive passport s v =
    if_elim KeepsLive (is_empty_text passport) (λ _. v)
      (λ _. send_line-KeepsLive _ s.client.context s v)

-- What can happen: the callbacks of a connection come from a context that is there.
abbrev pub IsPossible : Happening → Server → Type 0
IsPossible (connects ok) s = s.client.context ≡ live
IsPossible (disconnects ok) s = s.client.context ≡ live
IsPossible _ s = Unit

async_connect-KeepsLive : (o : Opening) (s : Server) → IsLive s → KeepsLive (async_connect o s)
async_connect-KeepsLive out_of_memory s v = tt
async_connect-KeepsLive detached s v = λ _. refl
async_connect-KeepsLive opened s v = λ _. refl

handle-KeepsLive : (h : Happening) (s : Server) → IsPossible h s → IsLive s → KeepsLive (handle h s)
unfolding handle on_connect on_disconnect on_auth on_select on_reconnect_timer rpush_list
handle-KeepsLive (connects true) s p v =
    if_elim KeepsLive (is_empty_text s.passport) (λ _. select-KeepsLive s.index _ (λ _. p))
      (λ _. auth-KeepsLive s.passport _ (λ _. p))
handle-KeepsLive (connects false) s p v = λ e. cc
handle-KeepsLive (disconnects true) s p v = λ e. cc
handle-KeepsLive (disconnects false) s p v = λ e. cc
handle-KeepsLive (auth_reply true) s p v = λ e. cc
handle-KeepsLive (auth_reply false) s p v = select-KeepsLive s.index s v
handle-KeepsLive (select_reply true) s p v = λ e. cc
handle-KeepsLive (select_reply false) s p v = v
handle-KeepsLive (pushes list args) s p v = send_line-KeepsLive _ s.client.context s v
handle-KeepsLive (reconnect_time o) s p v =
    if_elim KeepsLive s.client.connected (λ _. v)
      (λ _. async_connect-KeepsLive o (record s { timer = false }) v)

-- The servers that are reached, step by step, by what can happen.
pub data Reach (s : Server) : Server → Type 0 where
  here : Reach s s
  next :
      {t u : Server} (h : Happening) → Reach s t → IsPossible h t → handle h t ≡ done u → Reach s u

Reach-IsLive : {s t : Server} → IsLive s → Reach s t → IsLive t
Reach-IsLive v here = v
Reach-IsLive v (next {t} h r p e) = subst KeepsLive e (handle-KeepsLive h t p (Reach-IsLive v r))

-- In every state that is reached from a server without a connection, a command whose list and data have
-- at most 2551 characters together: while the server takes itself for connected it is sent, and right
-- after the connection was lost it is handed to a context that has been freed.
pub Reach-push :
    (s t : Server) (list args : Bytes)
    → s.client.connected ≡ false
    → Reach s t
    → length list + length args ≤ 2551
    → (t.client.connected ≡ true
        → (s' : Server) × (rpush_list list args t ≡ done s')
          × (s'.client.sent ≡ t.client.sent ++ (rpush_word ++ (list ++ 32 ∷ args)) ∷ []))
      × ((ok : Bool) → run (disconnects ok ∷ pushes list args ∷ []) t ≡ fault bad_context)
unfolding rpush_list run handle on_disconnect
Reach-push s t list args idle r short =
    let command = rpush_word ++ (list ++ 32 ∷ args) in
    let whole : line 2560 command ≡ some command =
      line_whole 2560 command (omega (arith, length-append list (32 ∷ args))) in
    (
      λ connected. (
        record t { client = record (t.client) { sent = t.client.sent ++ command ∷ [] } },
        ap (λ l. send_line l t.client.context t) whole
            ∙ ap (λ c. send_line (some command) c t) (Reach-IsLive (λ e. cc) r connected),
        refl,
      ),
      λ ok. lost ok whole,
    )
  where
    lost :
        (ok : Bool)
        → line 2560 (rpush_word ++ (list ++ 32 ∷ args)) ≡ some (rpush_word ++ (list ++ 32 ∷ args))
        → run (disconnects ok ∷ pushes list args ∷ []) t ≡ fault bad_context
    lost true whole = rw whole
    lost false whole = rw whole
