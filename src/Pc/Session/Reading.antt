-- ===== src/Pc/Session/Reading.antt =====
-- pc_server/PcSession.cpp: what a PC client sends, packet by packet, and the sequence numbers.
use multi_process_server.Base.{ℕ, ap, ◌∙◌, [], ◌∷◌, List, Bytes}
use multi_process_server.Buffer.{Alloc}
use multi_process_server.Jt1078.CarSession.{TcpErrorType}
use multi_process_server.Ipc.Packet.{next_seq_id}
use multi_process_server.Ipc.Decoder.{Decoder, ErrorType, push_buffer}
use multi_process_server.Ipc.Reader.{Event, completed, errored, Handled, told, read_all}
use multi_process_server.Ipc.Reader.Ends.{
  IsReading, Finishes, told-Finishes, read_all-Ends, push_buffer-IsReading,
}
use multi_process_server.Ipc.Reader.Whole.{Reads}

-- `PcSession::OnError`.
abbrev pub on_error : TcpErrorType → List Event
on_error e = errored e ∷ []

-- `m_uLastReceiveIpcPktSeqId` after these events.
unfoldable pub last_receive_seq_id : ℕ → List Event → ℕ
last_receive_seq_id last [] = last
last_receive_seq_id last (completed m ∷ es) = last_receive_seq_id (m.0.pkt_seq_id) es
last_receive_seq_id last (errored e ∷ es) = last_receive_seq_id last es

-- `GetNewSendIpcPktSeqId`: the value, which is kept.
abbrev pub get_new_send_seq_id : ℕ → ℕ
get_new_send_seq_id last = next_seq_id last

module _ (alloc : Alloc) where
  -- `PcSession::OnMessage`: what `PushBuffer` returns is not looked at.
  unfoldable pub on_message : Bytes → Decoder → Handled
  unfolding push_buffer read_all
  on_message new d = told (read_all alloc (push_buffer alloc new d).1)

  pub on_message-Reads : Reads alloc on_message
  unfolding on_message
  on_message-Reads new d d' ms e p q =
      ap (λ (r : ErrorType × Decoder). told (read_all alloc r.1)) p ∙ ap told q

  pub on_message-Finishes : (new : Bytes) (d : Decoder) → IsReading d → Finishes (on_message new d)
  unfolding on_message
  on_message-Finishes new d v =
      told-Finishes alloc
        (read_all-Ends alloc (push_buffer alloc new d).1 (push_buffer-IsReading alloc new d v))
