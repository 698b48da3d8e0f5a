-- ===== src/Examples/Closing.antt =====
-- A connection that is cleaned up, one whose context ends, and a run whose UDP socket fails.
use godotnet.Base.{false, some, none, ◌≤◌, ◌≡◌, ◌≢◌, ◌⊎◌, refl, true}
use godotnet.Errors.{Error, message, sentinel, canceled, is}
use godotnet.Server.Intake.{is_clean_close_err}
use godotnet.Server.Loops.{is_context_err, record_err, udp_end, run_end}
use godotnet.Server.Group.{
  Group, begin, cancel_for, report, Reach as Ends, here as at_start, next as and_next, accept_ends,
  read_ends, tick_ends,
}
use godotnet.Server.Group.Result.{run_lem}
use godotnet.Server.Connection.{
  on_nil, Conn, accepted_conn, Own, selects, receives, written, pushed, cleaned_up, on_channel,
  watched, writer_done, returned, own, tick, Reach, here, next,
}
use godotnet.Server.Connection.Shutdown.{not_yet, and_then, IsFinished, shutdown_lem}
use godotnet.Server.Connection.Leak.{Uncancelled, own_step, writer_leaks}

-- The writer has written one payload, and the session is cleaned up.
abbrev cleaned_conn : Conn
cleaned_conn = record accepted_conn { conn_closed = true; cleaned = true }

cleaned-Reach : Reach accepted_conn cleaned_conn
cleaned-Reach =
    next
      (next
        (next (next (next here (own (selects refl))) (tick (pushed refl)))
          (own (receives refl refl)))
        (own (written refl refl)))
      (tick cleaned_up)

writer_leaks_example :
    ((record cleaned_conn { writer = on_nil }).writer ≢ writer_done)
    × ((record cleaned_conn { writer = on_nil }).serving ≢ returned)
writer_leaks_example =
    writer_leaks cleaned_conn (record cleaned_conn { writer = on_nil }) cleaned-Reach refl refl refl
      (own_step Uncancelled.not_yet (selects refl))

abbrev ending : Conn
ending = record accepted_conn { ctx_done = true; conn_closed = true; watcher = watched }

shutdown_lem_example :
    (1 ≤ 7)
    × (IsFinished (record ending { writer = on_channel })
        ⊎ ((u : Conn) × Own (record ending { writer = on_channel }) u))
shutdown_lem_example =
    shutdown_lem 1 ending (record ending { writer = on_channel }) refl refl
      (and_then not_yet (selects refl))

-- The UDP socket fails, and the others end with the context.
abbrev unread : Group
unread = report (udp_end none (message "udp")) (record (begin true true) { reading = false })

abbrev unaccepted : Group
unaccepted = report unread.run_err (record unread { accepting = false })

abbrev ended : Group
ended = report (some (sentinel canceled)) (record unaccepted { ticking = false })

unread_is_cancelled : unaccepted.run_err ≡ some (sentinel canceled)
unfolding report cancel_for udp_end record_err is is_clean_close_err
unread_is_cancelled = refl

stays : (unaccepted.ticking ≡ true) × (unread.accepting ≡ true)
unfolding report
stays = (refl, refl)

ended-Reach : Ends (begin true true) ended
ended-Reach =
    and_next (and_next (and_next at_start (read_ends (message "udp") refl)) (accept_ends stays.1))
      (tick_ends (sentinel canceled) stays.0 unread_is_cancelled)

ended_is_over : ended.ticking ≡ false
unfolding report
ended_is_over = refl

run_lem_example :
    (e : Error) × (run_end ended.parent_err ended.first_err ≡ some e)
    × (((ended.first_err ≡ some e) × (is_context_err e ≡ false))
        ⊎ ((ended.first_err ≡ none) × (ended.parent_err ≡ some e) × (is_context_err e ≡ true)))
run_lem_example = run_lem true true ended ended-Reach ended_is_over
