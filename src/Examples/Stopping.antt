-- ===== src/Examples/Stopping.antt =====
-- A run with one connection, from its accept to the end of the accept loop.
use godotnet.Base.{◌≡◌, refl, true, false, some, [], ◌∷◌, All, inl, inr}
use godotnet.Errors.{sentinel, canceled, is}
use godotnet.Server.Loops.{is_context_err}
use godotnet.Server.Group.{Group, begin, report, parent_ends}
use godotnet.Server.Connection.{
  Conn, accepted_conn, selects, read_failed, closes, returns, channel_ctx_done, own, cancelled,
  returned, writer_done,
}
use godotnet.Server.Whole.{
  Whole, begin_whole, Moves, not_yet, and_then, shared, accepts, drains, accept_over, serves,
  IsShut, run_tcp_accept-IsShut,
}

canceled_is_context_err : is_context_err (sentinel canceled) ≡ true
unfolding is
canceled_is_context_err = refl

abbrev stopping : Group
stopping = record (begin true false) {
  parent_err = some (sentinel canceled);
  run_err = some (sentinel canceled);
}

abbrev shut_conn : Conn
shut_conn = record accepted_conn {
  ctx_done = true;
  conn_closed = true;
  serving = returned;
  writer = writer_done;
}

abbrev last : Whole
last = record {
  group = report (some (sentinel canceled)) (record stopping { accepting = false });
  conns = shut_conn ∷ [];
  draining = true;
}

-- The context ends while the connection is served.
accepted-Moves : Moves (begin_whole true false) (record {
  group = stopping;
  conns = record accepted_conn { ctx_done = true } ∷ [];
  draining = true;
})
accepted-Moves =
    and_then
      (and_then
        (and_then (and_then not_yet (accepts refl refl))
          (shared (parent_ends (sentinel canceled) canceled_is_context_err refl) refl))
        (drains refl refl))
      (serves [] [] refl cancelled (inr (λ e. cc)))

last-Moves : Moves (begin_whole true false) last
last-Moves =
    and_then
      (and_then
        (and_then
          (and_then
            (and_then (and_then accepted-Moves (serves [] [] refl (own (selects refl)) (inl refl)))
              (serves [] [] refl (own (channel_ctx_done refl refl)) (inl refl)))
            (serves [] [] refl (own (read_failed refl)) (inl refl)))
          (serves [] [] refl (own (closes refl)) (inl refl)))
        (serves [] [] refl (own (returns refl refl)) (inl refl)))
      (accept_over refl refl (refl, tt))

last_is_over : last.group.accepting ≡ false
unfolding report
last_is_over = refl

run_tcp_accept-IsShut_example : All IsShut (shut_conn ∷ [])
run_tcp_accept-IsShut_example = run_tcp_accept-IsShut true false last last-Moves last_is_over
