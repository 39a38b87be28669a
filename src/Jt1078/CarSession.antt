-- ===== src/Jt1078/CarSession.antt =====
-- jt1078/jt1078_server/CarSession.cpp: what a connection to a car does with the bytes that arrive.
-- The callbacks are the events that it hands to the server, in order.
pub mod Total
pub mod Drain
pub mod Chunks
pub mod Frames
use multi_process_server.Base.{ℕ, zero, suc, ◌+◌, List, [], ◌∷◌, ◌++◌, Bytes, length, drop}
use multi_process_server.Buffer.{Alloc, Buffer}
use multi_process_server.Jt1078.Header.{Packet}
use multi_process_server.Jt1078.Scan.{
  ErrorType, no_error, need_more_data, buffer_full, invalid_header, body_length_invalid,
}
use multi_process_server.Jt1078.Decoder.{
  Decoder, ReadStatus, Ran, crashed, out_of_fuel, returned, decode, push_buffer,
}
use multi_process_server.Buffer.Contents.{readable}

-- `TcpErrorType`.
pub data TcpErrorType : Type 0 where
  disconnect net_error user_buffer_full invalid_packet : TcpErrorType

-- `m_functor_complete(self, packet)` and `m_functor_error(self, error)`.
pub data Event : Type 0 where
  packet_complete : Packet → Event
  packet_error : TcpErrorType → Event

-- The end of `ParseBuffer`, or of the process: `parsed` where it waits for more bytes, `reported`
-- where its last event is an error.
pub data Parsed : Type 0 where
  aborted : List Event → Parsed
  unfinished : List Event → Parsed
  parsed : List Event → Decoder → Parsed
  reported : List Event → Decoder → Parsed

abbrev pub emit : Event → Parsed → Parsed
emit e (aborted es) = aborted (e ∷ es)
emit e (unfinished es) = unfinished (e ∷ es)
emit e (parsed es d) = parsed (e ∷ es) d
emit e (reported es d) = reported (e ∷ es) d

abbrev pub events : Parsed → List Event
events (aborted es) = es
events (unfinished es) = es
events (parsed es d) = es
events (reported es d) = es

-- The error that follows the loop.
abbrev pub close : ErrorType → Decoder → Parsed
close need_more_data d = parsed [] d
close _ d = reported (packet_error invalid_packet ∷ []) d

-- `while ((error = m_decoder.Decode()) == kNoError)`, and what follows it.
abbrev pub after_decode : (Decoder → Parsed) → Ran Decoder → Parsed
after_decode rest crashed = aborted []
after_decode rest out_of_fuel = unfinished []
after_decode rest (returned no_error d) = emit (packet_complete d.packet) (rest d)
after_decode rest (returned need_more_data d) = close need_more_data d
after_decode rest (returned buffer_full d) = close buffer_full d
after_decode rest (returned invalid_header d) = close invalid_header d
after_decode rest (returned body_length_invalid d) = close body_length_invalid d

unfoldable pub drain : ℕ → Decoder → Parsed
drain zero d = unfinished []
drain (suc fuel) d = after_decode (drain fuel) (decode d)

-- Each packet takes a byte of what is to be read, but for one that was begun before.
abbrev pub drain_fuel : Decoder → ℕ
drain_fuel d = length (readable d.buffer) + 2

module _ (alloc : Alloc) where
  abbrev pub after_push : ErrorType × Decoder → Parsed
  after_push (no_error, d) = drain (drain_fuel d) d
  after_push (_, d) = reported (packet_error user_buffer_full ∷ []) d

  unfoldable pub parse_buffer : Bytes → Decoder → Parsed
  unfolding push_buffer
  parse_buffer new d = after_push (push_buffer alloc new d)

  -- The events of a connection over which the chunks arrive. At an error the server drops the
  -- connection (`Jt1078Server::OnPacketError`) and nothing more is read.
  abbrev pub then_feed : (Decoder → List Event) → Parsed → List Event
  then_feed rest (parsed es d) = es ++ rest d
  then_feed rest (aborted es) = es
  then_feed rest (unfinished es) = es
  then_feed rest (reported es d) = es

  unfoldable pub feed : List Bytes → Decoder → List Event
  unfolding parse_buffer
  feed [] d = []
  feed (c ∷ cs) d = then_feed (feed cs) (parse_buffer c d)
