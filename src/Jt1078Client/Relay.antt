-- ===== src/Jt1078Client/Relay.antt =====
-- Subscriber.cpp, Jt1078Client.cpp and WebServer.cpp: the packets of cars on their way from the forward
-- server to the RTMP thread of the web server.
use multi_process_server.Base.{
  ℕ, ◌≤◌, ◌≡◌, refl, sym, ap, ◌∙◌, arith, List, [], ◌∷◌, ◌++◌, append_assoc, append-nil, map,
  concat, Bytes,
}
use multi_process_server.Buffer.{Alloc}
use multi_process_server.Buffer.Contents.{readable}
use multi_process_server.Ipc.Packet.{next_seq_id}
use multi_process_server.Ipc.Decoder.{Decoder}
use multi_process_server.Ipc.Decoder.Start.{IsReady}
use multi_process_server.Ipc.Reader.{Message, Event, completed, errored, feed}
use multi_process_server.Ipc.Reader.Expected.{Fits, AllFit, frames}
use multi_process_server.Ipc.Reader.Expected as Expected
use multi_process_server.Ipc.Reader.Whole.{AllShort, feed-frames_of}
use multi_process_server.Forward.Subscriber.{frame, pieces, ipc_header, jt1078_packet_type}
use multi_process_server.Forward.Subscriber.Relay.{
  Published, sent_frames, Forwardable, length-pieces, next_seq_id-bound,
}
use multi_process_server.Web.Rtmp.Thread.{Task}
use multi_process_server.Web.Http.Server.{Server, on_client_message, on_client_error}
use multi_process_server.Jt1078Client.{on_message, on_message-Reads}

-- The same as packets with their data.
unfoldable pub as_messages : ℕ → List Published → List Message
as_messages last [] = []
as_messages last (p ∷ ps) =
    (ipc_header (next_seq_id last) p.1, pieces p.0 p.1) ∷ as_messages (next_seq_id last) ps

abbrev pub AllForwardable : List Published → Type 0
AllForwardable [] = Unit
AllForwardable (p ∷ ps) = Forwardable p.1 × AllForwardable ps

pub as_messages-AllFit :
    (last : ℕ) (ps : List Published) → AllForwardable ps → AllFit (as_messages last ps)
unfolding as_messages
as_messages-AllFit last [] ok = tt
as_messages-AllFit last (p ∷ ps) (ok, all) = (
  record {
    fields = record {
      head_fits = omega arith;
      data_fits = omega (arith, ok.small);
      seq_fits = next_seq_id-bound last;
      type_fits = omega arith;
    };
    head = refl;
    announced = length-pieces p.0 p.1 ok.sim ok.stored;
    small = omega (arith, ok.small);
  },
  as_messages-AllFit (next_seq_id last) ps all,
)

pub frames-as_messages :
    (last : ℕ) (ps : List Published) → frames (as_messages last ps) ≡ sent_frames last ps
unfolding as_messages sent_frames Expected.frame frame
frames-as_messages last [] = refl
frames-as_messages last (p ∷ ps) =
    ap (◌++◌ (frame (next_seq_id last) p.0 p.1)) (frames-as_messages (next_seq_id last) ps)

-- What the web server does with the events of its client, one after the other.
unfoldable pub take_events : List Event → Server → Server
unfolding on_client_message on_client_error
take_events [] s = s
take_events (completed m ∷ es) s = take_events es (on_client_message m.0.pkt_type m.1 s)
take_events (errored e ∷ es) s = take_events es (on_client_error s)

-- The task for the RTMP thread.
abbrev pub task_of : Published → Task
task_of p = record { pkt_type = jt1078_packet_type; data_bytes = pieces p.0 p.1 }

take_events-tasks :
    (last : ℕ) (ps : List Published) (s : Server)
    → (take_events (map completed (as_messages last ps)) s).tasks ≡ s.tasks ++ map task_of ps
unfolding take_events as_messages on_client_message
take_events-tasks last [] s = sym (append-nil s.tasks)
take_events-tasks last (p ∷ ps) s =
    take_events-tasks (next_seq_id last) ps
      (on_client_message jt1078_packet_type (pieces p.0 p.1) s)
    ∙ append_assoc s.tasks (task_of p ∷ []) (map task_of ps)

-- Packets of cars that the forward server sends, with at most 950 bytes each, and which arrive in parts
-- of at most 510976 bytes, cut in any way, at a client that waits for a packet and has nothing to read:
-- the web server gives its RTMP thread one task for each, in order, with the device id, the header and
-- the payload behind one another.
pub feed-sent_frames :
    (alloc : Alloc) (last : ℕ) (ps : List Published) (cs : List Bytes) (d : Decoder) (s : Server)
    → IsReady d
    → 1024 ≤ d.packet_capacity
    → readable d.buffer ≡ []
    → AllForwardable ps
    → concat cs ≡ sent_frames last ps
    → AllShort cs
    → (take_events (feed (on_message alloc) cs d) s).tasks ≡ s.tasks ++ map task_of ps
feed-sent_frames alloc last ps cs d s ready room none_left ok e short =
    ap (λ es. (take_events es s).tasks)
      (feed-frames_of alloc (on_message alloc) (on_message-Reads alloc) cs d (as_messages last ps)
        ready room none_left (as_messages-AllFit last ps ok) (e ∙ sym (frames-as_messages last ps))
        short)
    ∙ take_events-tasks last ps s
