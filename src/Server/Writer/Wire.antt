-- ===== src/Server/Writer/Wire.antt =====
-- tcp.go: what runTCPWriter puts on the wire, of the payloads that pushTCP (server.go) queues.
use godotnet.Base.{
  subst, ◌<◌, ◌≤◌, ◌+◌, ◌^◌, ◌⊎◌, length-append, arith, length, ℕ, ◌≡◌, refl, sym, ap, ◌∙◌, Bool,
  true, false, Option, none, some, List, [], ◌∷◌, ◌++◌, Bytes, All,
}
use mathlib.Core.List.{append_assoc, append-nil}
use godotnet.Errors.{Error}
use godotnet.Frame.{write_frame, buffer_write}
use godotnet.Frame.RoundTrip.{frame_bytes, write_frame-buffer}
use godotnet.Env.{Env}
use godotnet.Server.{Server}
use godotnet.Server.Outbound.{disconnect_event}
use godotnet.Server.Intake.{run_tcp_reader, writer_take}
use godotnet.Server.Reader.{frames, messages, stream_end, run_tcp_reader-frames}
use godotnet.Server.Writer.{Selected, ctx_done, received, writer_round, run_tcp_writer}
use godotnet.Server.Writer.Line.{
  Turn, pushes, receives, stops, payloads, queue_of, admitted, Line, took, if_running, turn, turns,
  write_all, write_all-append, round-conn, run-append, payloads-append, push-queue, take-queue,
}

module _ ⦃env : Env⦄ {W : Type 0} (write : W → Bytes → W × Option Error) (r : ℕ) (w0 : W) where
  -- `given` is what the writer's rounds have selected so far.
  record IsInOrder (l : Line W) : Type 0 where
    given : List Selected
    in_order : l.sent ≡ payloads given ++ queue_of (l.server.heap r).send_tcp
    ran : run_tcp_writer write given w0 ≡ (l.conn, l.running)
    written : l.conn ≡ write_all write r (payloads given) w0

  runs :
      (l : Line W) (v : IsInOrder l)
      → l.running ≡ true
      → run_tcp_writer write v.given w0 ≡ (l.conn, true)
  runs l v on = v.ran ∙ ap (λ b. (l.conn, b)) on

  stop-IsInOrder :
      (l : Line W) (b : Bool) → l.running ≡ b → IsInOrder l → IsInOrder (turn write r stops l)
  unfolding turn writer_round
  stop-IsInOrder l true on v = record {
    given = v.given ++ ctx_done ∷ [];
    in_order =
        v.in_order
        ∙ ap (λ xs. xs ++ queue_of (l.server.heap r).send_tcp)
            (sym (payloads-append v.given (ctx_done ∷ []) ∙ append-nil (payloads v.given)));
    ran = run-append write r v.given ctx_done w0 l.conn (runs l v on);
    written =
        v.written
        ∙ ap (λ xs. write_all write r xs w0)
            (sym (payloads-append v.given (ctx_done ∷ []) ∙ append-nil (payloads v.given)));
  }
  stop-IsInOrder l false off v = record {
    given = v.given;
    in_order = v.in_order;
    ran = v.ran ∙ ap (λ b. (l.conn, b)) off;
    written = v.written;
  }

  took-IsInOrder :
      (l : Line W) (x : Option Bytes × Server)
      → writer_take r l.server ≡ x
      → l.running ≡ true
      → IsInOrder l
      → IsInOrder (took write r x l)
  unfolding took
  took-IsInOrder l (none, s) e on v = v
  took-IsInOrder l (some p, s) e on v = record {
    given = v.given ++ received (some p) ∷ [];
    in_order =
        v.in_order
        ∙ ap (λ q. payloads v.given ++ q)
            (take-queue r p l.server (ap (λ (y : Option Bytes × Server). y.0) e))
        ∙ sym (append_assoc (payloads v.given) (p ∷ []) _)
        ∙ ap (λ xs. xs ++ queue_of ((writer_take r l.server).1.heap r).send_tcp)
            (sym (payloads-append v.given (received (some p) ∷ [])))
        ∙ ap
            (λ (y : Option Bytes × Server).
              payloads (v.given ++ received (some p) ∷ []) ++ queue_of (y.1.heap r).send_tcp)
            e;
    ran = run-append write r v.given (received (some p)) w0 l.conn (runs l v on);
    written =
        round-conn write r p l.conn
        ∙ ap (λ w. (write_frame write w p).0) v.written
        ∙ sym (write_all-append write r (payloads v.given) p w0)
        ∙ ap (λ xs. write_all write r xs w0)
            (sym (payloads-append v.given (received (some p) ∷ [])));
  }

  turn-IsInOrder : (t : Turn) (l : Line W) → IsInOrder l → IsInOrder (turn write r t l)
  unfolding turn
  turn-IsInOrder (pushes p) l v = record {
    given = v.given;
    in_order =
        ap (λ q. q ++ admitted (l.server.heap r).send_tcp p) v.in_order
        ∙ append_assoc (payloads v.given) (queue_of (l.server.heap r).send_tcp) _
        ∙ ap (λ q. payloads v.given ++ q) (sym (push-queue r p l.server));
    ran = v.ran;
    written = v.written;
  }
  turn-IsInOrder receives l v = received_by l.running refl
    where
      received_by :
          (b : Bool)
          → l.running ≡ b
          → IsInOrder (if_running write r b (took write r (writer_take r l.server) l) l)
      received_by true on = took-IsInOrder l (writer_take r l.server) refl on v
      received_by false off = v
  turn-IsInOrder stops l v = stop-IsInOrder l l.running refl v

  turns-IsInOrder : (ts : List Turn) (l : Line W) → IsInOrder l → IsInOrder (turns write r ts l)
  unfolding turns
  turns-IsInOrder [] l v = v
  turns-IsInOrder (t ∷ ts) l v = turns-IsInOrder ts (turn write r t l) (turn-IsInOrder t l v)

  -- However the calls of pushTCP for a session and the rounds of its writer interleave, from an
  -- empty channel: the payloads that pushTCP queued are those that the writer has taken, in the
  -- same order, followed by those that wait. The connection is as WriteFrame leaves it for each
  -- payload taken, in that order, and is what the writer's loop makes of what it selected.
  pub run_tcp_writer_lem :
      (ts : List Turn) (s : Server)
      → queue_of (s.heap r).send_tcp ≡ []
      → let l = turns write r ts (record { server = s; sent = []; conn = w0; running = true }) in
        (given : List Selected) × (run_tcp_writer write given w0 ≡ (l.conn, l.running))
        × (l.sent ≡ payloads given ++ queue_of (l.server.heap r).send_tcp)
        × (l.conn ≡ write_all write r (payloads given) w0)
  unfolding run_tcp_writer
  run_tcp_writer_lem ts s empty =
      let v =
        turns-IsInOrder ts (record { server = s; sent = []; conn = w0; running = true })
          (record { given = []; in_order = sym empty; ran = refl; written = refl }) in
      (v.given, v.ran, v.in_order, v.written)

module _ ⦃env : Env⦄ where
  write_all-buffer :
      (r : ℕ) (ps : List Bytes) (buf : Bytes) → write_all buffer_write r ps buf ≡ buf ++ frames ps
  write_all-buffer r [] buf = sym (append-nil buf)
  write_all-buffer r (p ∷ ps) buf =
      ap (λ (x : Bytes × Option Error). write_all buffer_write r ps x.0) (write_frame-buffer buf p)
      ∙ write_all-buffer r ps (buf ++ frame_bytes p)
      ∙ append_assoc buf (frame_bytes p) (frames ps)

  All-prefix : (P : Bytes → Type 0) (xs ys : List Bytes) → All P (xs ++ ys) → All P xs
  All-prefix P [] ys h = tt
  All-prefix P (x ∷ xs) ys (h, hs) = (h, All-prefix P xs ys hs)

  -- The payloads that pushTCP queued for a session, however its writer's rounds fall between the
  -- calls, are read back at the other end of the connection: all that the writer has taken arrive
  -- there as messages, in the same order and unchanged, before the end of the stream. This is for a
  -- session whose channel was empty, payloads within the reader's cap, and an event queue there
  -- with room for them.
  pub run_tcp_reader-run_tcp_writer :
      (ts : List Turn) (r q fuel : ℕ) (s t : Server)
      → queue_of (s.heap r).send_tcp ≡ []
      → (t.heap q).disconnect_once ≡ false
      → let l =
          turns buffer_write r ts (record { server = s; sent = []; conn = []; running = true }) in
        All
          (λ p.
            (length p < 2 ^ 32) × ((t.cfg.max_frame_len ≡ 0) ⊎ (length p ≤ t.cfg.max_frame_len)))
          l.sent
        → length t.events.buffer + length l.sent < t.events.depth
        → length l.sent < fuel
        → (taken : List Bytes) × (l.sent ≡ taken ++ queue_of (l.server.heap r).send_tcp)
          × (t' : Server) × (run_tcp_reader fuel q l.conn t ≡ some t')
          × (t'.events.buffer
              ≡ t.events.buffer ++ (messages q taken ++ disconnect_event q stream_end ∷ []))
  unfolding run_tcp_reader
  run_tcp_reader-run_tcp_writer ts r q fuel s t empty off fit room enough =
      let l : Line Bytes =
        turns buffer_write r ts (record { server = s; sent = []; conn = []; running = true }) in
      let (given, ran, order, written) = run_tcp_writer_lem buffer_write r [] ts s empty in
      let taken : List Bytes = payloads given in
      let waiting : List Bytes = queue_of (l.server.heap r).send_tcp in
      let sizes : length l.sent ≡ length taken + length waiting =
        ap (λ (xs : List Bytes). length xs) order ∙ length-append {0} taken waiting in
      let (t', returns, queued) =
        run_tcp_reader-frames fuel q taken t (omega arith)
          (All-prefix _ taken waiting (subst (All _) order fit)) (omega arith) off in
      (
        taken,
        order,
        t',
        ap (λ bytes. run_tcp_reader fuel q bytes t) (written ∙ write_all-buffer r taken [])
            ∙ returns,
        queued,
      )
