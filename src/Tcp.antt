-- ===== src/Tcp.antt =====
-- core/tcp/TcpSession.h and TcpSession.cpp: what a session sends. The kernel is the list of its
-- replies to the calls of send, in order, and would block once they are used up; what it accepted is
-- `wire`. The bytes that it did not accept stay in `pending`, that is `m_pending_buffer_list`.
pub mod Stream
pub mod Sender
pub mod Ids
use multi_process_server.Base.{
  ℕ, min, Bool, false, List, [], ◌∷◌, ◌++◌, Bytes, length, take, drop, ltb, if◌then◌else◌,
}

-- A reply of `send`: EINTR, a number of bytes, EAGAIN or EWOULDBLOCK, another error. `send` never
-- accepts more than it was given.
pub data Reply : Type 0 where
  interrupted : Reply
  accepts : ℕ → Reply
  would_block : Reply
  fails : Reply

pub record Session : Type 0 where
  pub can_write : Bool
  pub pending : List Bytes
  pub wire : Bytes
  pub replies : List Reply

-- The value of `SendBuffer`, and its `nerrno` where the value is negative.
pub data Sent : Type 0 where
  written : ℕ → Sent
  again : Sent
  broken : Sent

-- `SendBuffer`, with the replies in its second argument.
unfoldable pub send_to : Bytes → List Reply → Session → Sent × Session
send_to xs [] s = (again, record s { replies = [] })
send_to xs (interrupted ∷ rs) s = send_to xs rs s
send_to xs (accepts n ∷ rs) s = (
  written (min n (length xs)),
  record s { wire = s.wire ++ take (min n (length xs)) xs; replies = rs },
)
send_to xs (would_block ∷ rs) s = (again, record s { replies = rs })
send_to xs (fails ∷ rs) s = (broken, record s { can_write = false; replies = rs })

unfoldable pub send_buffer : Bytes → Session → Sent × Session
unfolding send_to
send_buffer xs s = send_to xs s.replies s

-- A round of the loop in `SendPendingBuffer` with `xs` in front of the list and `rest` behind it.
abbrev pub after_front : Bytes → List Bytes → (Session → Session) → Sent × Session → Session
after_front xs rest later (written n, s) =
    if ltb n (length xs) then record s { pending = drop n xs ∷ rest } else later s
after_front xs rest later (again, s) = record s { pending = xs ∷ rest }
after_front xs rest later (broken, s) = record s { pending = xs ∷ rest }

unfoldable pub send_list : List Bytes → Session → Session
unfolding send_buffer
send_list [] s = record s { pending = [] }
send_list (xs ∷ rest) s = after_front xs rest (send_list rest) (send_buffer xs s)

-- `SendPendingBuffer`; its value is whether `pending` is empty now.
unfoldable pub send_pending : Session → Session
unfolding send_list
send_pending s = send_list s.pending s

abbrev pub push_back : Bytes → Session → Session
push_back xs s = record s { pending = s.pending ++ xs ∷ [] }
