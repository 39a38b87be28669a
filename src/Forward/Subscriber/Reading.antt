-- ===== src/Forward/Subscriber/Reading.antt =====
-- jt1078/forward_server/Subscriber.cpp: what a subscriber sends to the forward server, packet by packet.
use multi_process_server.Base.{ap, ◌∙◌, [], ◌∷◌, List, Bytes}
use multi_process_server.Buffer.{Alloc}
use multi_process_server.Jt1078.CarSession.{TcpErrorType, user_buffer_full}
use multi_process_server.Ipc.Decoder.{
  Decoder, ErrorType, no_error, need_more_data, buffer_full, invalid_header, push_buffer,
}
use multi_process_server.Ipc.Reader.{Event, errored, Handled, dropped, told, read_all}
use multi_process_server.Ipc.Reader.Ends.{
  IsReading, Finishes, in_error, told-Finishes, read_all-Ends, push_buffer-IsReading,
}
use multi_process_server.Ipc.Reader.Whole.{Reads}

-- `Subscriber::OnError`.
abbrev pub on_error : TcpErrorType → List Event
on_error e = errored e ∷ []

module _ (alloc : Alloc) where
  -- Behind `PushBuffer`.
  abbrev pub after_push : ErrorType × Decoder → Handled
  after_push (buffer_full, d) = dropped (errored user_buffer_full ∷ [])
  after_push (no_error, d) = told (read_all alloc d)
  after_push (need_more_data, d) = told (read_all alloc d)
  after_push (invalid_header, d) = told (read_all alloc d)

  -- `Subscriber::OnMessage`.
  unfoldable pub on_message : Bytes → Decoder → Handled
  unfolding push_buffer read_all
  on_message new d = after_push (push_buffer alloc new d)

  pub on_message-Reads : Reads alloc on_message
  unfolding on_message
  on_message-Reads new d d' ms e p q = ap after_push p ∙ ap told q

  after_push-Finishes : (e : ErrorType) (d : Decoder) → IsReading d → Finishes (after_push (e, d))
  after_push-Finishes buffer_full d v = in_error _
  after_push-Finishes no_error d v = told-Finishes alloc (read_all-Ends alloc d v)
  after_push-Finishes need_more_data d v = told-Finishes alloc (read_all-Ends alloc d v)
  after_push-Finishes invalid_header d v = told-Finishes alloc (read_all-Ends alloc d v)

  -- Whatever a subscriber sends to a decoder whose read position is within the buffer and which at a
  -- header reads 16 bytes, `OnMessage` ends: it waits with such a decoder, it has told of an error, or
  -- the decoder is broken by a packet that is too large.
  pub on_message-Finishes : (new : Bytes) (d : Decoder) → IsReading d → Finishes (on_message new d)
  unfolding on_message
  on_message-Finishes new d v =
      after_push-Finishes (push_buffer alloc new d).0 (push_buffer alloc new d).1
        (push_buffer-IsReading alloc new d v)
