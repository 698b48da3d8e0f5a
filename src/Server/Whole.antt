-- ===== src/Server/Whole.antt =====
-- server.go and tcp.go: Run with the connections of its accept loop. runTCPAccept starts
-- serveTCPConn for each, and once Accept has returned net.ErrClosed it waits for all of them before
-- it returns.
use godotnet.Base.{
  ◌≡◌, ◌≢◌, refl, ◌∙◌, Bool, true, false, none, List, [], ◌∷◌, ◌++◌, All, subst, ◌⊎◌, inl, inr,
}
use godotnet.Server.Group.{Group, begin, report, Step}
use godotnet.Server.Connection.{
  Conn, accepted_conn, Own, frame_read, read_failed, closes, returns, selects, receives, sees_close,
  channel_ctx_done, nil_ctx_done, written, write_failed, watcher_closes, watcher_stops, pushed,
  force_closed, cleaned_up, own, tick, cancelled, returned, writer_done, Step as ConnStep,
  Reach as ConnReach, here, next,
}
use godotnet.Server.Connection.Sound.{serve_tcp_conn_lem}

-- `draining` holds from the moment that Accept has returned net.ErrClosed.
pub record Whole : Type 0 where
  pub group : Group
  pub conns : List Conn
  pub draining : Bool

abbrev pub begin_whole : Bool → Bool → Whole
begin_whole tcp udp = record { group = begin tcp udp; conns = []; draining = false }

abbrev pub HasReturned : Conn → Type 0
HasReturned c = c.serving ≡ returned

-- A step of the group but for the end of the accept loop; what the accept loop does; and a step of
-- a connection, whose context is that of the run.
pub data Move (w : Whole) : Whole → Type 0 where
  shared :
      {g : Group}
      → Step w.group g
      → g.accepting ≡ w.group.accepting
      → Move w (record w { group = g })
  accepts :
      w.group.accepting ≡ true
      → w.draining ≡ false
      → Move w (record w { conns = accepted_conn ∷ w.conns })
  drains : w.group.accepting ≡ true → w.draining ≡ false → Move w (record w { draining = true })
  accept_over :
      w.group.accepting ≡ true
      → w.draining ≡ true
      → All HasReturned w.conns
      → Move w (record w { group = report w.group.run_err (record w.group { accepting = false }) })
  serves :
      (before after : List Conn) {c d : Conn}
      → w.conns ≡ before ++ c ∷ after
      → ConnStep c d
      → (d.ctx_done ≡ c.ctx_done) ⊎ (w.group.run_err ≢ none)
      → Move w (record w { conns = before ++ d ∷ after })

pub data Moves (w : Whole) : Whole → Type 0 where
  not_yet : Moves w w
  and_then : {u v : Whole} → Moves w u → Move u v → Moves w v

Own-HasReturned : {c d : Conn} → Own c d → HasReturned c → HasReturned d
Own-HasReturned (frame_read h o) r = r
Own-HasReturned (read_failed h) r = cc
Own-HasReturned (closes h) r = cc
Own-HasReturned (returns h w) r = refl
Own-HasReturned (selects w) r = r
Own-HasReturned (receives w q) r = r
Own-HasReturned (sees_close w c q) r = r
Own-HasReturned (channel_ctx_done w c) r = r
Own-HasReturned (nil_ctx_done w c) r = r
Own-HasReturned (written w o) r = r
Own-HasReturned (write_failed w) r = r
Own-HasReturned (watcher_closes h c) r = r
Own-HasReturned (watcher_stops h e) r = r

Step-HasReturned : {c d : Conn} → ConnStep c d → HasReturned c → HasReturned d
Step-HasReturned (own step) r = Own-HasReturned step r
Step-HasReturned (tick (pushed c)) r = r
Step-HasReturned (tick force_closed) r = r
Step-HasReturned (tick cleaned_up) r = r
Step-HasReturned cancelled r = r

All-swap :
    (P : Conn → Type 0) (before after : List Conn) (c d : Conn)
    → (P c → P d)
    → All P (before ++ c ∷ after)
    → All P (before ++ d ∷ after)
All-swap P [] after c d f (p, h) = (f p, h)
All-swap P (b ∷ before) after c d f (p, h) = (p, All-swap P before after c d f h)

report-accepting :
    (g : Group) → (report g.run_err (record g { accepting = false })).accepting ≡ false
unfolding report
report-accepting g = refl

-- Every connection is one that the accept loop started, and all have returned once the loop has.
record IsOrderly (w : Whole) : Type 0 where
  started : All (ConnReach accepted_conn) w.conns
  waited : (w.group.accepting ≡ true) ⊎ All HasReturned w.conns

Move-IsOrderly : {w v : Whole} → Move w v → IsOrderly w → IsOrderly v
Move-IsOrderly (shared step same) o = record {
  started = o.started;
  waited = elim o.waited [ inl on ↦ inl (same ∙ on) | inr all ↦ inr all ];
}
Move-IsOrderly (accepts on going) o = record { started = (here, o.started); waited = inl on }
Move-IsOrderly (drains on going) o = record { started = o.started; waited = o.waited }
Move-IsOrderly (accept_over on over all) o = record { started = o.started; waited = inr all }
Move-IsOrderly {w} (serves before after {c} {d} which step ctx) o = record {
  started =
      All-swap (ConnReach accepted_conn) before after c d (λ r. next r step)
        (subst (All (ConnReach accepted_conn)) which o.started);
  waited = elim o.waited [
    | inl on ↦ inl on
    | inr all ↦ inr (
        All-swap HasReturned before after c d (Step-HasReturned step)
          (subst (All HasReturned) which all))
  ];
}

Moves-IsOrderly : (tcp udp : Bool) {w : Whole} → Moves (begin_whole tcp udp) w → IsOrderly w
Moves-IsOrderly tcp udp not_yet = record { started = tt; waited = inr tt }
Moves-IsOrderly tcp udp (and_then before move) =
    Move-IsOrderly move (Moves-IsOrderly tcp udp before)

abbrev pub IsShut : Conn → Type 0
IsShut c = (c.serving ≡ returned) × (c.conn_closed ≡ true) × (c.writer ≡ writer_done)

shut : (cs : List Conn) → All (ConnReach accepted_conn) cs → All HasReturned cs → All IsShut cs
shut [] rs hs = tt
shut (c ∷ cs) (r, rs) (h, hs) = (
  elim (serve_tcp_conn_lem c r).0 [
    | inl not_returned ↦ absurd (not_returned h)
    | inr (closed, done) ↦ (h, closed, done)
  ],
  shut cs rs hs,
)

-- Once the accept loop has returned, which Run waits for, every connection that it ever accepted
-- has been served to the end: serveTCPConn and the writer have returned, and the connection is
-- closed.
pub run_tcp_accept-IsShut :
    (tcp udp : Bool) (w : Whole)
    → Moves (begin_whole tcp udp) w
    → w.group.accepting ≡ false
    → All IsShut w.conns
run_tcp_accept-IsShut tcp udp w moves over =
    let o = Moves-IsOrderly tcp udp moves in
    shut w.conns o.started (elim o.waited [ inl on ↦ cc | inr all ↦ all ])
