-- ===== src/Server/Loops.antt =====
-- The loops of the goroutines that Run starts, and what Run makes of their results: runTCPAccept of
-- tcp.go, runUDPReader of udp.go, and the end of Run in server.go. What the sockets give comes as a
-- list; `none` as the result of a loop means that it waits for more.
pub mod Ends
pub mod Datagrams
use godotnet.Base.{
  ℕ, String, Bool, true, false, ◌||◌, Option, none, some, List, [], ◌∷◌, Bytes, if◌then◌else◌,
}
use godotnet.Errors.{Error, is, net_closed, prefixed, canceled, deadline_exceeded}
use godotnet.Env.{Env}
use godotnet.Server.{Server}
use godotnet.Server.Intake.{is_clean_close_err, accept_conn, udp_datagram}

-- What Accept returns: a connection, for whose session the allocator gives a pointer, or an error.
pub data Accepted : Type 0 where
  conn : ℕ → Accepted
  accept_failed : Error → Accepted

-- What ReadFrom returns: a sender and the bytes of a datagram, or an error.
pub data Received : Type 0 where
  datagram : String → Bytes → Received
  read_failed : Error → Received

-- recordErr: the first error is kept that is not of a context.
abbrev pub is_context_err : Error → Bool
is_context_err err = is err canceled || is err deadline_exceeded

unfoldable pub record_err : Option Error → Option Error → Option Error
unfolding is
record_err none first = first
record_err (some err) (some first) = some first
record_err (some err) none = if is_context_err err then none else some err

unfoldable pub record_all : List (Option Error) → Option Error → Option Error
unfolding record_err
record_all [] first = first
record_all (err ∷ errs) first = record_all errs (record_err err first)

-- What Run returns, from the error of its context and the first error that is kept; and from all
-- its goroutines' results, in the order in which they are recorded.
abbrev pub run_end : Option Error → Option Error → Option Error
run_end ctx_err none = ctx_err
run_end ctx_err (some err) = some err

unfoldable pub run_result : Option Error → List (Option Error) → Option Error
unfolding record_all
run_result ctx_err errs = run_end ctx_err (record_all errs none)

-- The return of the UDP loop on an error.
unfoldable pub udp_end : Option Error → Error → Option Error
unfolding is_clean_close_err is
udp_end ctx_err err =
    if is_clean_close_err err || is err net_closed
    then ctx_err
    else some (prefixed "godotnet: udp read: " err)

module _ ⦃env : Env⦄ where
  unfoldable pub run_tcp_accept :
      Option Error → List Accepted → Server → Server × Option (Option Error)
  unfolding accept_conn is
  run_tcp_accept ctx_err [] s = (s, none)
  run_tcp_accept ctx_err (conn r ∷ more) s = run_tcp_accept ctx_err more (accept_conn r s)
  run_tcp_accept ctx_err (accept_failed err ∷ more) s =
      let rest = run_tcp_accept ctx_err more s in
      if is err net_closed then (s, some ctx_err) else rest

  unfoldable pub run_udp_reader :
      Option Error → List Received → Server → Server × Option (Option Error)
  unfolding udp_datagram udp_end
  run_udp_reader ctx_err [] s = (s, none)
  run_udp_reader ctx_err (datagram addr bytes ∷ more) s =
      run_udp_reader ctx_err more (udp_datagram addr bytes s)
  run_udp_reader ctx_err (read_failed err ∷ more) s = (s, some (udp_end ctx_err err))
