-- ===== src/Server/Vital.antt =====
-- What a ping (sendPing of ping.go) leaves of a session.
use godotnet.Base.{
  ℕ, ◌≡◌, refl, ap, ◌∙◌, String, Bool, true, false, Option, none, some, Bytes, length, ◌+◌,
  if◌then◌else◌,
}
use godotnet.Base.Int.{ℤ, pos, ltb_ℤ}
use godotnet.Control.{ping}
use godotnet.Session.{Session, SessionAuthState}
use godotnet.Env.{Env}
use godotnet.Server.{Server, udp_written, modify, emit}
use godotnet.Server.Outbound.{udp_send_raw}
use godotnet.Server.Ping.{nonce_of, send_ping}
use godotnet.Server.Quiet.{modify-pointwise}

-- What the keepalive looks at.
abbrev pub Vital : Type 0
Vital = SessionAuthState × Option String × ℤ

abbrev pub vital : Session → Vital
vital x = (x.auth_state, x.udp_addr, x.last_seen_unix_nano)

module _ ⦃env : Env⦄ where
  open env use {marshal_frame, random}

  abbrev pub Same : Session → Session → Type 0
  Same x y = (vital y ≡ vital x) × (y.disconnect_once ≡ x.disconnect_once)

  if-heap :
      (b : Bool) (s t u : Server)
      → t.heap ≡ s.heap
      → u.heap ≡ s.heap
      → (if b then t else u).heap ≡ s.heap
  if-heap true s t u p q = p
  if-heap false s t u p q = q

  heap-udp_send :
      (addr : Option String) (payload : Bytes) (s : Server)
      → (udp_send_raw addr payload s).heap ≡ s.heap
  unfolding udp_send_raw
  heap-udp_send none payload s = refl
  heap-udp_send (some addr) payload s =
      let big : Bool = ltb_ℤ s.cfg.max_udp_payload (pos (length payload)) in
      let sent : Server = emit (udp_written addr payload) s in
      if-heap s.udp_conn s (if big then s else sent) s (if-heap big s s sent refl refl) refl

  heap-nonce_of : (b : Option Bytes) (s : Server) → (nonce_of b s).1.heap ≡ s.heap
  unfolding nonce_of
  heap-nonce_of none s = refl
  heap-nonce_of (some b) s = refl

  -- A ping changes no more than the nonce.
  pub send_ping-Same : (r : ℕ) (s : Server) (q : ℕ) → Same (s.heap q) ((send_ping r s).heap q)
  unfolding send_ping
  send_ping-Same r s q =
      let s0 : Server = record s { random_reads = s.random_reads + 1 } in
      let (nonce, s1) = nonce_of (random s.random_reads 8) s0 in
      let noted : Session → Session = λ x. record x { last_ping_nonce = nonce } in
      let s2 : Server = modify r noted s1 in
      let (same, once) = modify-pointwise Same r noted s1 (λ x. (refl, refl)) (refl, refl) q in
      let drawn = heap-nonce_of (random s.random_reads 8) s0 in
      let written = frame s2 (marshal_frame (ping (record { nonce = nonce }))) in
      (
        ap (λ h. vital (h q)) written ∙ same ∙ ap (λ h. vital (h q)) drawn,
        ap (λ h. (h q).disconnect_once) written ∙ once ∙ ap (λ h. (h q).disconnect_once) drawn,
      )
    where
      frame :
          (t : Server) (o : Option Bytes)
          → (elim o as (λ x. Server) [
            | none ↦ t
            | some b ↦ udp_send_raw (t.heap r).udp_addr b t
          ]).heap
            ≡ t.heap
      frame t none = refl
      frame t (some b) = heap-udp_send (t.heap r).udp_addr b t
