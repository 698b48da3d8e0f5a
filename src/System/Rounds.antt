-- ===== src/System/Rounds.antt =====
-- The rounds of the goroutines beside the tick's (server.go, tcp.go, udp.go): they leave the
-- players alone, or accept a connection.
use godotnet.Base.{List, ℕ, ◌≡◌, ◌⊎◌, refl, inl, inr}
use godotnet.Events.{Event}
use godotnet.Env.{Env}
use godotnet.Server.{Server, set_on_tick}
use godotnet.Server.Intake.{accept_conn}
use godotnet.Server.Registry.{handle_client, handle_rpc}
use godotnet.Server.Lifecycle.{start-Quiet, stop-Quiet}
use godotnet.Server.Quiet.{Quiet, Quiet-aside}
use godotnet.Server.Quiet.Intake.{
  reader_disconnect-Quiet, push_frame-Quiet, datagram-Quiet, writer-Quiet,
}
use godotnet.System.{
  IsFresh, IoStep, client_handled, rpc_handled, on_tick_set, started, stopped, accepted, frame_read,
  read_failed, datagram_read, written,
}

module _ ⦃env : Env⦄ where
  -- A connection was accepted, with a new session `r`.
  abbrev pub IsAccepted : List Event → Server → Server → Type 0
  IsAccepted pending s t = (r : ℕ) × IsFresh r pending s × (t ≡ accept_conn r s)

  pub IoStep-cases :
      (pending : List Event) (s t : Server)
      → IoStep pending s t
      → Quiet s t ⊎ IsAccepted pending s t
  unfolding handle_client handle_rpc set_on_tick
  IoStep-cases pending s _ (client_handled prototype h) =
      inl (Quiet-aside s (handle_client prototype h s) refl refl refl refl refl refl)
  IoStep-cases pending s _ (rpc_handled prototype h) =
      inl (Quiet-aside s (handle_rpc prototype h s) refl refl refl refl refl refl)
  IoStep-cases pending s _ (on_tick_set cb) =
      inl (Quiet-aside s (set_on_tick cb s) refl refl refl refl refl refl)
  IoStep-cases pending s _ (started quote tcp udp) = inl (start-Quiet quote tcp udp s)
  IoStep-cases pending s _ stopped = inl (stop-Quiet s)
  IoStep-cases pending s _ (accepted r fresh) = inr (r, fresh, refl)
  IoStep-cases pending s _ (frame_read r payload) = inl (push_frame-Quiet r payload s)
  IoStep-cases pending s _ (read_failed r err) = inl (reader_disconnect-Quiet r err s)
  IoStep-cases pending s _ (datagram_read addr bytes) = inl (datagram-Quiet addr bytes s)
  IoStep-cases pending s _ (written r) = inl (writer-Quiet r s)
