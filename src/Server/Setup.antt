-- ===== src/Server/Setup.antt =====
-- Setting a server up: NewServer's defaults (server.go), and the registries (dispatch.go).
use godotnet.Base.{
  ℕ, ◌≡◌, ◌≢◌, refl, String, some, ◌==◌, if◌then◌else◌, zero, suc, string_eq, arith,
}
use text.Mathlib.Text.{◌==◌ as str_eq}
use godotnet.Base.Map.{Map, get-put}
use godotnet.Base.Int.{ℤ, pos, negsuc, or_default}
use godotnet.Env.{Env}
use godotnet.Server.{
  Config, normalise, default_tick_rate, default_max_frame_len, default_send_queue_depth,
  default_event_queue_depth, default_max_udp_payload,
}
use godotnet.Server.Registry.{register, lookup}

abbrev IsPositive : ℤ → Type 0
IsPositive z = (n : ℕ) × (z ≡ pos (suc n))

or_default-IsPositive : (z d : ℤ) → IsPositive d → IsPositive (or_default z d)
or_default-IsPositive (pos zero) d h = h
or_default-IsPositive (pos (suc n)) d h = (n, refl)
or_default-IsPositive (negsuc n) d h = h

module _ ⦃env : Env⦄ where
  open env use {Msg, full_name}

  default_len : (n : ℕ) → (if n == 0 then default_max_frame_len else n) ≢ 0
  default_len n e = ground arith

  -- Whatever the configuration, after NewServer's defaults the tick rate, the depths of both queues
  -- and the cap of a datagram are positive, and the cap of a frame is not 0, so that it applies.
  pub normalise_lem :
      (cfg : Config)
      → IsPositive (normalise cfg).tick_rate
        × IsPositive (normalise cfg).send_queue_depth
        × IsPositive (normalise cfg).event_queue_depth
        × IsPositive (normalise cfg).max_udp_payload
        × ((normalise cfg).max_frame_len ≢ 0)
  unfolding normalise
  normalise_lem cfg = (
    or_default-IsPositive cfg.tick_rate default_tick_rate (_, refl),
    or_default-IsPositive cfg.send_queue_depth default_send_queue_depth (_, refl),
    or_default-IsPositive cfg.event_queue_depth default_event_queue_depth (_, refl),
    or_default-IsPositive cfg.max_udp_payload default_max_udp_payload (_, refl),
    default_len cfg.max_frame_len,
  )

  -- A message finds the handler that was last registered for its full name, and registering a
  -- handler for one name changes the lookup of no other.
  pub lookup-register :
      (H : Type 0) (m : Map String H) (prototype msg : Msg) (h : H)
      → lookup (register m (some prototype) (some h)) (some msg)
        ≡ (if str_eq (full_name prototype) (full_name msg) then some h else lookup m (some msg))
  unfolding lookup register
  lookup-register H m prototype msg h = get-put m (full_name prototype) (full_name msg) h
