-- ===== src/Redis.antt =====
-- core/database/RedisClient.cpp and RedisMqServer.cpp: the queue of commands in Redis. The context of
-- hiredis is there, or freed: hiredis frees it behind the callback of a failed connection and of a
-- disconnection. What is handed to `redisAsyncCommand` is the list `sent`, in order.
pub mod Lines
pub mod Lost
use multi_process_server.Base.{
  ℕ, zero, suc, ◌+◌, ◌-◌, ◌/◌, ◌%◌, ltb, ◌==◌, if◌then◌else◌, Bool, true, false, List, [], ◌∷◌,
  ◌++◌, Bytes, length, take, Option, none, some, is_empty_text,
}

pub data Context : Type 0 where
  no_context live freed : Context

-- `m_ctx`, `m_bConnected` and the commands.
pub record Client : Type 0 where
  pub context : Context
  pub connected : Bool
  pub sent : List Bytes

-- The members of `CRedisMqServer`; `timer` says whether the timer runs.
pub record Server : Type 0 where
  pub passport : Bytes
  pub index : ℕ
  pub client : Client
  pub timer : Bool

-- A write outside an array, a use of a freed or of no context.
pub data Fault : Type 0 where
  overrun bad_context : Fault

pub data Done : Type 0 where
  fault : Fault → Done
  done : Server → Done

-- `snprintf(buf, size - 1, …)` of this text, and `buf[n] = 0`: the string that stands in the array of
-- `size` characters then.
unfoldable pub line : ℕ → Bytes → Option Bytes
line size text = if ltb (length text) size then some (take (size - 2) text) else none

-- The decimal digits of a number with at most `n` of them.
unfoldable pub decimal : ℕ → ℕ → Bytes
decimal zero v = []
decimal (suc n) v =
    let rest = decimal n (v / 10) in if ltb v 10 then (48 + v) ∷ [] else rest ++ (48 + v % 10) ∷ []

-- "auth ", "select ", "rpush ", "lpop " and a space.
abbrev pub auth_word : Bytes
auth_word = 97 ∷ 117 ∷ 116 ∷ 104 ∷ 32 ∷ []

abbrev pub select_word : Bytes
select_word = 115 ∷ 101 ∷ 108 ∷ 101 ∷ 99 ∷ 116 ∷ 32 ∷ []

abbrev pub rpush_word : Bytes
rpush_word = 114 ∷ 112 ∷ 117 ∷ 115 ∷ 104 ∷ 32 ∷ []

abbrev pub lpop_word : Bytes
lpop_word = 108 ∷ 112 ∷ 111 ∷ 112 ∷ 32 ∷ []

-- `Init_And_Send_SRedisFetchInfo`, on a context that takes every command.
abbrev pub send_line : Option Bytes → Context → Server → Done
send_line none c s = fault overrun
send_line (some text) live s =
    done (record s { client = record (s.client) { sent = s.client.sent ++ text ∷ [] } })
send_line (some text) no_context s = fault bad_context
send_line (some text) freed s = fault bad_context

unfoldable pub auth : Bytes → Server → Done
unfolding line
auth passport s =
    if is_empty_text passport
    then done s
    else send_line (line 32 (auth_word ++ passport)) s.client.context s

unfoldable pub select : ℕ → Server → Done
unfolding line decimal
select index s = send_line (line 10 (select_word ++ decimal 20 index)) s.client.context s

unfoldable pub rpush_list : Bytes → Bytes → Server → Done
unfolding line
rpush_list list args s =
    send_line (line 2560 (rpush_word ++ (list ++ 32 ∷ args))) s.client.context s

unfoldable pub lpop_list : Bytes → Server → Done
unfolding line
lpop_list list s = send_line (line 108 (lpop_word ++ list)) s.client.context s

abbrev pub set_connected : Bool → Server → Server
set_connected flag s = record s { client = record (s.client) { connected = flag } }

abbrev pub set_context : Context → Server → Server
set_context c s = record s { client = record (s.client) { context = c } }

-- How `AsyncConnect` goes: hiredis gives no context, one that cannot be attached, or one.
pub data Opening : Type 0 where
  out_of_memory detached opened : Opening

-- `AsyncConnect`, which reads the error message of a context that is null.
abbrev pub async_connect : Opening → Server → Done
async_connect out_of_memory s = fault bad_context
async_connect detached s = done (set_context live s)
async_connect opened s = done (set_context live s)

-- `OnConnect(bOk)`; without success hiredis frees the context behind it.
unfoldable pub on_connect : Bool → Server → Done
unfolding auth select
on_connect true s =
    let s' = set_connected true s in
    if is_empty_text s.passport then select s.index s' else auth s.passport s'
on_connect false s = done (set_context freed (record (set_connected false s) { timer = true }))

-- `OnDisconnect(bOk)`, behind which hiredis frees the context.
unfoldable pub on_disconnect : Bool → Server → Done
on_disconnect true s = done (set_context freed (set_connected false s))
on_disconnect false s = done (set_context freed (record (set_connected false s) { timer = true }))

-- `OnAuth`, with whether the reply is an error.
unfoldable pub on_auth : Bool → Server → Done
unfolding select
on_auth true s = done (set_connected false s)
on_auth false s = select s.index s

unfoldable pub on_select : Bool → Server → Done
on_select true s = done (set_connected false s)
on_select false s = done s

-- `OnReconnectTimer`, once the timer has run out.
unfoldable pub on_reconnect_timer : Opening → Server → Done
on_reconnect_timer o s =
    let s' = record s { timer = false } in
    if s.client.connected then done s' else async_connect o s'

-- What happens to the server. A callback of a connection comes from a context that is there.
pub data Happening : Type 0 where
  connects : Bool → Happening
  disconnects : Bool → Happening
  auth_reply : Bool → Happening
  select_reply : Bool → Happening
  pushes : Bytes → Bytes → Happening
  reconnect_time : Opening → Happening

unfoldable pub handle : Happening → Server → Done
unfolding on_connect on_disconnect on_auth on_select rpush_list on_reconnect_timer
handle (connects ok) s = on_connect ok s
handle (disconnects ok) s = on_disconnect ok s
handle (auth_reply error) s = on_auth error s
handle (select_reply error) s = on_select error s
handle (pushes list args) s = rpush_list list args s
handle (reconnect_time o) s = on_reconnect_timer o s

abbrev pub and_then : Done → (Server → Done) → Done
and_then (fault f) k = fault f
and_then (done s) k = k s

unfoldable pub run : List Happening → Server → Done
unfolding handle
run [] s = done s
run (h ∷ hs) s = and_then (handle h s) (run hs)
