-- ===== src/Ipc/Reader.antt =====
-- The loop over the packets between the servers that have come in, which stands in the OnMessage of
-- jt1078/forward_server/Subscriber.cpp, pc_server/PcSession.cpp and jt1078_client/Jt1078Client.cpp, and in
-- the HandlerReadBuffer of new_web_server/CarTcpClient.cpp.
pub mod Expected
pub mod Steps
pub mod Whole
pub mod Frames
pub mod Ends
use multi_process_server.Base.{ℕ, zero, suc, ◌+◌, List, [], ◌∷◌, ◌++◌, map, Bytes, length}
use multi_process_server.Buffer.{Alloc}
use multi_process_server.Buffer.Contents.{readable}
use multi_process_server.Jt1078.CarSession.{TcpErrorType, invalid_packet}
use multi_process_server.Ipc.Packet.{Packet}
use multi_process_server.Ipc.Decoder.{
  Decoder, ErrorType, no_error, need_more_data, Ran, fault, returned, Fault, decode,
}

-- A packet with its data.
abbrev pub Message : Type 0
Message = Packet × Bytes

-- The packets that the loop has handed over, and how it ended: with the error code of the last call of
-- `Decode`, or in a fault.
pub data Drained : Type 0 where
  faulted : List Message → Fault → Drained
  unfinished : List Message → Drained
  drained : List Message → ErrorType → Decoder → Drained

abbrev pub emit : Message → Drained → Drained
emit m (faulted ms f) = faulted (m ∷ ms) f
emit m (unfinished ms) = unfinished (m ∷ ms)
emit m (drained ms e d) = drained (m ∷ ms) e d

abbrev pub after_decode : (Decoder → Drained) → Ran → Drained
after_decode rest (fault f) = faulted [] f
after_decode rest (returned no_error d) = emit (d.packet, d.body) (rest d)
after_decode rest (returned e d) = drained [] e d

-- `m_functor_complete(self, packet)` and `m_functor_error(self, error)`.
pub data Event : Type 0 where
  completed : Message → Event
  errored : TcpErrorType → Event

-- The end of OnMessage: `kept` where it waits for more bytes, `dropped` where it has told of an error,
-- at which the servers drop the connection.
pub data Handled : Type 0 where
  broken : List Event → Fault → Handled
  endless : List Event → Handled
  kept : List Event → Decoder → Handled
  dropped : List Event → Handled

-- What the loop and the test behind it tell: of each packet, and of an error other than
-- `kNeedMoreData`.
abbrev pub told : Drained → Handled
told (faulted ms f) = broken (map completed ms) f
told (unfinished ms) = endless (map completed ms)
told (drained ms need_more_data d) = kept (map completed ms) d
told (drained ms e d) = dropped (map completed ms ++ errored invalid_packet ∷ [])

-- The events of a connection over which the chunks arrive.
abbrev pub then_feed : (Decoder → List Event) → Handled → List Event
then_feed rest (kept es d) = es ++ rest d
then_feed rest (broken es f) = es
then_feed rest (endless es) = es
then_feed rest (dropped es) = es

unfoldable pub feed : (Bytes → Decoder → Handled) → List Bytes → Decoder → List Event
feed on_message [] d = []
feed on_message (c ∷ cs) d = then_feed (feed on_message cs) (on_message c d)

-- Each packet takes a byte of what is to be read, but for one that was begun before.
abbrev pub drain_fuel : Decoder → ℕ
drain_fuel d = length (readable d.buffer) + 2

module _ (alloc : Alloc) where
  -- `while ((error = m_ipc_decoder.Decode()) == kNoError)`.
  unfoldable pub drain : ℕ → Decoder → Drained
  unfolding decode
  drain zero d = unfinished []
  drain (suc fuel) d = after_decode (drain fuel) (decode alloc d)

  -- The last call of `Decode` in the loop, from a decoder, with enough fuel.
  unfoldable pub read_all : Decoder → Drained
  unfolding drain
  read_all d = drain (drain_fuel d) d
