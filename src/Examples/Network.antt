-- ===== src/Examples/Network.antt =====
-- Listeners, the network's loops and the writer at concrete inputs.
use godotnet.Base.{
  String, subst, sym, ap, All, ◌<◌, ◌^◌, ◌⊎◌, ◌≤◌, ◌≡◌, ◌≢◌, refl, inr, true, false, none, some,
  List, [], ◌∷◌, ◌++◌, Bytes, length, nat_eq, string_eq, arith,
}
use godotnet.Errors.{message, sentinel, net_closed}
use godotnet.Frame.{buffer_write}
use godotnet.Transport.Memory.{
  MemoryListener, incoming_cap, refused, accept, close, dial_select, dial,
}
use godotnet.Transport.Memory.Fifo.{dials, accepts, closes, Call, calls, begin, calls_lem}
use godotnet.Transport.Memory.Closing.{first_waiting, close_lem}
use godotnet.Session.{try_send}
use godotnet.Server.{normalise, Server, new_server}
use godotnet.Server.Outbound.{push_tcp, disconnect_event}
use godotnet.Server.Intake.{
  udp_message, writer_take, first_queued, without_first, accept_conn, run_tcp_reader,
}
use godotnet.Server.Reader.{messages, stream_end}
use godotnet.Server.Loops.{run_udp_reader, read_failed, udp_end, Accepted, conn, accept_failed}
use godotnet.Base.Int.{pos}
use godotnet.Events.{new_queue}
use godotnet.Server.Loops.Datagrams.{arrived, udp_messages, filled, run_udp_reader_lem}
use godotnet.Server.Writer.Line.{Turn, pushes, receives, queue_of, Line, turns}
use godotnet.Server.Writer.Wire.{run_tcp_reader-run_tcp_writer}
use godotnet.Examples.Demo.{demo, start}
use godotnet.Examples.Sessions.{greeted}

-- Two clients dial, one is accepted, and the listener closes.
abbrev life : List Call
life = dials true 1 ∷ dials true 2 ∷ accepts false ∷ closes ∷ accepts false ∷ []

calls_lem_example :
    ((calls life (begin "hub")).dialed
      ≡ (calls life (begin "hub")).accepted ++ (calls life (begin "hub")).listener.incoming)
    × (length (calls life (begin "hub")).listener.incoming ≤ incoming_cap)
calls_lem_example = calls_lem "hub" life

abbrev hub : MemoryListener
hub = record { addr = "hub"; incoming = 4 ∷ []; closed = false; once = false }

close_lem_example :
    (accept false (close hub) ≢ none)
    × (dial_select false 5 (close hub) ≢ none)
    × (dial false 5 (close hub) ≡ refused (close hub))
    × (close (close hub) ≡ close hub)
    × (accept false (close hub) ≡ first_waiting (close hub))
close_lem_example = close_lem false 5 hub refl

abbrev clients : List Accepted
clients = accept_failed (message "too many files") ∷ conn 3 ∷ []

-- The queue has room for one event.
abbrev two_datagrams : List (String × Bytes)
two_datagrams = ("10.0.0.1:7", 5 ∷ []) ∷ ("10.0.0.2:7", 6 ∷ []) ∷ []

start_limit : start.cfg.max_udp_payload ≡ pos 1200
unfolding new_server normalise
start_limit = refl

start_fits : length start.events.buffer ≤ start.events.depth
unfolding new_server normalise new_queue
start_fits = omega arith

run_udp_reader_lem_example :
    run_udp_reader none (arrived two_datagrams ++ read_failed (sentinel net_closed) ∷ []) start ≡ (
      record start { events = filled start.events (udp_messages 1200 two_datagrams) },
      some (udp_end none (sentinel net_closed)),
    )
run_udp_reader_lem_example =
    run_udp_reader_lem 1200 none two_datagrams (sentinel net_closed) [] start start_limit start_fits

one_is_queued :
    filled start.events (udp_messages 1200 two_datagrams)
    ≡ record start.events { buffer = udp_message "10.0.0.1:7" (5 ∷ []) ∷ [] }
unfolding new_server normalise new_queue
one_is_queued = refl

-- The channel holds one payload: the writer takes the first, and the second waits.
abbrev talk : List Turn
talk = pushes (5 ∷ []) ∷ receives ∷ pushes (6 ∷ []) ∷ []

abbrev line : Line Bytes
line = turns buffer_write 3 talk (record { server = greeted; sent = []; conn = []; running = true })

greeted_queue : queue_of (greeted.heap 3).send_tcp ≡ []
unfolding accept_conn new_server
greeted_queue = refl

abbrev peer : Server
peer = record greeted { events = record { depth = 4; buffer = [] } }

line_sent : line.sent ≡ (5 ∷ []) ∷ (6 ∷ []) ∷ []
unfolding turns push_tcp writer_take first_queued without_first try_send accept_conn new_server
line_sent = refl

abbrev Fits : Bytes → Type 0
Fits p = (length p < 2 ^ 32) × ((peer.cfg.max_frame_len ≡ 0) ⊎ (length p ≤ peer.cfg.max_frame_len))

run_tcp_reader-run_tcp_writer_example :
    (taken : List Bytes) × (line.sent ≡ taken ++ queue_of (line.server.heap 3).send_tcp)
    × (t : Server) × (run_tcp_reader 3 3 line.conn peer ≡ some t)
    × (t.events.buffer ≡ [] ++ (messages 3 taken ++ disconnect_event 3 stream_end ∷ []))
unfolding accept_conn new_server
run_tcp_reader-run_tcp_writer_example =
    run_tcp_reader-run_tcp_writer talk 3 3 3 greeted peer greeted_queue refl
      (subst (All Fits) (sym line_sent)
        ((omega arith, inr (omega arith)), ((omega arith, inr (omega arith)), tt)))
      (let two = ap (λ (xs : List Bytes). length xs) line_sent in omega arith)
      (let two = ap (λ (xs : List Bytes). length xs) line_sent in omega arith)
