-- ===== src/Server/Lifecycle.antt =====
-- server.go's Run: how it starts, up to the goroutines, and how it ends. That the sockets open is
-- up to the system: `tcp` and `udp` are the errors of ListenTCP and ListenUDP, if they fail, and
-- `quote` is the verb `%q` of fmt. Waiting for the goroutines and
-- their errors are in Server/Group; `stop` is not connected with their end.
use Prim.Native.String.{◌++◌ as append}
use text.Mathlib.Text.{◌==◌ as str_eq}
use godotnet.Base.{
  ◌≡◌, ◌≢◌, ◌⊎◌, refl, sym, subst, ◌∙◌, String, Bool, true, false, string_eq, not, ◌||◌, Option,
  none, some, if◌then◌else◌, Bool-cases, inl, inr,
}
use godotnet.Errors.{Error, sentinel, prefixed, server_already_running}
use godotnet.Env.{Env}
use godotnet.Server.{Server}
use godotnet.Server.Quiet.{Quiet, Quiet-refl, Quiet-trans, Quiet-aside}

module _ ⦃env : Env⦄ where
  -- The deferred statements.
  unfoldable pub stop : Server → Server
  stop s = record s { running = false; udp_conn = false }

  -- A listener that the configuration asks for and that does not open.
  abbrev failure : String → Option Error → Option Error
  failure addr err = if str_eq addr "" then none else err

  abbrev listen_error : (String → String) → String → String → Error → Error
  listen_error quote call addr err =
      prefixed (append "godotnet: " (append call (append " listen " (append (quote addr) ": "))))
        err

  -- The part from the UDP socket on, by the error of ListenUDP.
  unfoldable pub open_udp : (String → String) → Option Error → Server → Server × Option Error
  open_udp quote (some err) s =
      (record s { running = false }, some (listen_error quote "udp" s.cfg.udp_addr err))
  open_udp quote none s =
      (record s { udp_conn = not (str_eq s.cfg.udp_addr "") || s.udp_conn }, none)

  -- The part from the TCP listener on, by the error of ListenTCP.
  unfoldable pub open_sockets :
      (String → String) → Option Error → Option Error → Server → Server × Option Error
  unfolding open_udp
  open_sockets quote (some err) udp s =
      (record s { running = false }, some (listen_error quote "tcp" s.cfg.tcp_addr err))
  open_sockets quote none udp s = open_udp quote (failure s.cfg.udp_addr udp) s

  unfoldable pub start :
      (String → String) → Option Error → Option Error → Server → Server × Option Error
  unfolding open_sockets
  start quote tcp udp s =
      if s.running
      then (s, some (sentinel server_already_running))
      else open_sockets quote (failure s.cfg.tcp_addr tcp) udp
          (record s { running = true; tick_count = 0 })

  open_udp-Quiet :
      (quote : String → String) (udp : Option Error) (s : Server) → Quiet s (open_udp quote udp s).0
  unfolding open_udp
  open_udp-Quiet quote none s =
      Quiet-aside s (record s { udp_conn = not (str_eq s.cfg.udp_addr "") || s.udp_conn }) refl refl
        refl refl refl refl
  open_udp-Quiet quote (some err) s =
      Quiet-aside s (record s { running = false }) refl refl refl refl refl refl

  open_sockets-Quiet :
      (quote : String → String) (tcp udp : Option Error) (s : Server)
      → Quiet s (open_sockets quote tcp udp s).0
  unfolding open_sockets
  open_sockets-Quiet quote none udp s = open_udp-Quiet quote (failure s.cfg.udp_addr udp) s
  open_sockets-Quiet quote (some err) udp s =
      Quiet-aside s (record s { running = false }) refl refl refl refl refl refl

  start-idle :
      (quote : String → String) (tcp udp : Option Error) (s : Server)
      → s.running ≡ false
      → start quote tcp udp s
        ≡ open_sockets quote
            (failure s.cfg.tcp_addr tcp)
            udp
            (record s { running = true; tick_count = 0 })
  unfolding start
  start-idle quote tcp udp s idle = rw idle

  start-busy :
      (quote : String → String) (tcp udp : Option Error) (s : Server)
      → s.running ≡ true
      → start quote tcp udp s ≡ (s, some (sentinel server_already_running))
  unfolding start
  start-busy quote tcp udp s busy = rw busy

  pub start-Quiet :
      (quote : String → String) (tcp udp : Option Error) (s : Server)
      → Quiet s (start quote tcp udp s).0
  start-Quiet quote tcp udp s = elim (Bool-cases s.running) [
    | inl busy ↦ rw (start-busy quote tcp udp s busy) (Quiet-refl s)
    | inr idle ↦
        let s' : Server = record s { running = true; tick_count = 0 } in
        rw (start-idle quote tcp udp s idle) (
          Quiet-trans (Quiet-aside s s' refl refl refl refl refl refl)
            (open_sockets-Quiet quote (failure s.cfg.tcp_addr tcp) udp s'))
  ]

  pub stop-Quiet : (s : Server) → Quiet s (stop s)
  unfolding stop
  stop-Quiet s = Quiet-aside s (stop s) refl refl refl refl refl refl

  -- A socket that the configuration asks for opens without an error.
  abbrev pub Opens : String → Option Error → Type 0
  Opens addr err = addr ≢ "" → err ≡ none

  -- What a call of Run on an idle server comes to, up to the goroutines. `serving`: the sockets that
  -- the configuration asks for open, no error is returned, the server runs, with a UDP socket if one
  -- is asked for, its ticks count from 0, the sessions of a run before are still listed, and any
  -- further call of Run changes nothing and is refused. `unopened`: one of
  -- them does not open, an error is returned, and the server is idle, with no new UDP socket.
  pub data Start (quote : String → String) (tcp udp : Option Error) (s t : Server)
      (err : Option Error) : Type 0 where
    serving :
        Opens s.cfg.tcp_addr tcp
        → Opens s.cfg.udp_addr udp
        → err ≡ none
        → t.running ≡ true
        → (s.cfg.udp_addr ≢ "" → t.udp_conn ≡ true)
        → (t.tick_count ≡ 0) × (t.sessions ≡ s.sessions)
        → ((tcp' udp' : Option Error)
            → start quote tcp' udp' t ≡ (t, some (sentinel server_already_running)))
        → Start quote tcp udp s t err
    unopened :
        (Opens s.cfg.tcp_addr tcp → ¬ Opens s.cfg.udp_addr udp)
        → (e : Error) → err ≡ some e
        → t.running ≡ false
        → t.udp_conn ≡ s.udp_conn
        → Start quote tcp udp s t err

  failure-cases :
      (addr : String) (err : Option Error)
      → ((failure addr err ≡ none) × Opens addr err)
        ⊎ ((e : Error) × (failure addr err ≡ some e) × (addr ≢ "") × (err ≡ some e))
  failure-cases addr err = by_addr (str_eq addr "") refl err
    where
      by_addr :
          (b : Bool)
          → str_eq addr "" ≡ b
          → (o : Option Error)
          → (((if b then none else o) ≡ none) × Opens addr o)
            ⊎ ((e : Error) × ((if b then none else o) ≡ some e) × (addr ≢ "") × (o ≡ some e))
      by_addr true same o = inl (refl, λ named. absurd (named ((string_eq.beq_iff addr "").0 same)))
      by_addr false named none = inl (refl, λ h. refl)
      by_addr false named (some e) = inr (
        e,
        refl,
        λ p. let odd : str_eq addr "" ≡ true = (string_eq.beq_iff addr "").1 p in (cc),
        refl,
      )

  udp-on : (addr : String) (b : Bool) → addr ≢ "" → (not (str_eq addr "") || b) ≡ true
  udp-on addr b named = elim (Bool-cases (str_eq addr "")) [
    | inl same ↦ absurd (named ((string_eq.beq_iff addr "").0 same))
    | inr other ↦ rw other refl
  ]

  -- Run on an idle server serves exactly if every socket that the configuration asks for opens;
  -- otherwise it returns an error and leaves the server idle. Once it serves, the count of ticks starts
  -- again, the sessions of a run before are still listed, and further calls of Run are refused and
  -- change nothing.
  pub start_lem :
      (quote : String → String) (tcp udp : Option Error) (s : Server)
      → s.running ≡ false
      → Start quote tcp udp s (start quote tcp udp s).0 (start quote tcp udp s).1
  unfolding open_sockets open_udp
  start_lem quote tcp udp s idle =
      subst (λ (x : Server × Option Error). Start quote tcp udp s x.0 x.1)
        (sym (start-idle quote tcp udp s idle)) sockets
    where
      s' : Server
      s' = record s { running = true; tick_count = 0 }

      on_udp :
          (o : Option Error)
          → failure s.cfg.udp_addr udp ≡ o
          → Opens s.cfg.tcp_addr tcp
          → Start quote tcp udp s
              (open_udp quote o (record s { running = true; tick_count = 0 })).0
              (open_udp quote o (record s { running = true; tick_count = 0 })).1
      on_udp none e tcp_opens = elim (failure-cases s.cfg.udp_addr udp) [
        | inl (good, opens) ↦
            serving tcp_opens opens refl refl (udp-on s.cfg.udp_addr s.udp_conn) (refl, refl)
              (λ tcp' udp'. start-busy quote tcp' udp' (open_udp quote none s').0 refl)
        | inr (err, bad, named, failed) ↦ let odd : none ≡ some err = sym e ∙ bad in cc
      ]
      on_udp (some err) e tcp_opens = elim (failure-cases s.cfg.udp_addr udp) [
        | inl (good, opens) ↦ let odd : none ≡ some err = sym good ∙ e in cc
        | inr (err', bad, named, failed) ↦
            unopened (λ h opens. let odd : none ≡ some err' = sym (opens named) ∙ failed in (cc)) _
              refl refl refl
      ]

      on_tcp :
          (o : Option Error)
          → failure s.cfg.tcp_addr tcp ≡ o
          → Start quote tcp udp s
              (open_sockets quote o udp (record s { running = true; tick_count = 0 })).0
              (open_sockets quote o udp (record s { running = true; tick_count = 0 })).1
      on_tcp none e = elim (failure-cases s.cfg.tcp_addr tcp) [
        | inl (good, opens) ↦ on_udp (failure s.cfg.udp_addr udp) refl opens
        | inr (err, bad, named, failed) ↦ let odd : none ≡ some err = sym e ∙ bad in cc
      ]
      on_tcp (some err) e = elim (failure-cases s.cfg.tcp_addr tcp) [
        | inl (good, opens) ↦ let odd : none ≡ some err = sym good ∙ e in cc
        | inr (err', bad, named, failed) ↦
            unopened (λ opens. let odd : none ≡ some err' = sym (opens named) ∙ failed in (cc)) _
              refl refl refl
      ]

      sockets :
          Start quote tcp udp s
            (open_sockets quote
              (failure s.cfg.tcp_addr tcp)
              udp
              (record s { running = true; tick_count = 0 })).0
            (open_sockets quote
              (failure s.cfg.tcp_addr tcp)
              udp
              (record s { running = true; tick_count = 0 })).1
      sockets = on_tcp (failure s.cfg.tcp_addr tcp) refl
