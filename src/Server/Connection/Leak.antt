-- ===== src/Server/Connection/Leak.antt =====
-- tcp.go and server.go: the writer of a session that has been cleaned up.
use godotnet.Base.{◌≡◌, ◌≢◌, ◌⊎◌, inl, inr, ap, refl, true, false}
use godotnet.Server.Connection.{
  returned, at_select, on_nil, writer_done, Conn, accepted_conn, entered, Own, frame_read,
  read_failed, closes, returns, selects, receives, sees_close, channel_ctx_done, nil_ctx_done,
  written, write_failed, watcher_closes, watcher_stops, Tick, pushed, force_closed, cleaned_up,
  Reach,
}
use godotnet.Server.Connection.Sound.{Reach-IsSound}

-- The steps of a connection while its context lasts.
pub data Uncancelled (s : Conn) : Conn → Type 0 where
  not_yet : Uncancelled s s
  own_step : {t u : Conn} → Uncancelled s t → Own t u → Uncancelled s u
  tick_step : {t u : Conn} → Uncancelled s t → Tick t u → Uncancelled s u

record IsStranded (s : Conn) : Type 0 where
  lasts : s.ctx_done ≡ false
  gone : s.cleaned ≡ true
  waits : (s.writer ≡ at_select) ⊎ (s.writer ≡ on_nil)
  unjoined : s.serving ≢ returned

Own-IsStranded : {s t : Conn} → Own s t → IsStranded s → IsStranded t
Own-IsStranded (frame_read h o) v = v
Own-IsStranded (read_failed h) v = record {
  lasts = v.lasts;
  gone = v.gone;
  waits = v.waits;
  unjoined = λ e. cc;
}
Own-IsStranded (closes h) v = record {
  lasts = v.lasts;
  gone = v.gone;
  waits = v.waits;
  unjoined = λ e. cc;
}
Own-IsStranded (returns h w) v = elim v.waits [ inl a ↦ cc | inr a ↦ cc ]
Own-IsStranded (selects w) v = record {
  lasts = v.lasts;
  gone = v.gone;
  waits = inr (ap entered v.gone);
  unjoined = v.unjoined;
}
Own-IsStranded (receives w q) v = elim v.waits [ inl a ↦ cc | inr a ↦ cc ]
Own-IsStranded (sees_close w c q) v = elim v.waits [ inl a ↦ cc | inr a ↦ cc ]
Own-IsStranded (channel_ctx_done w c) v = elim v.waits [ inl a ↦ cc | inr a ↦ cc ]
Own-IsStranded (nil_ctx_done w c) v = (let l = v.lasts in cc)
Own-IsStranded (written w o) v = elim v.waits [ inl a ↦ cc | inr a ↦ cc ]
Own-IsStranded (write_failed w) v = elim v.waits [ inl a ↦ cc | inr a ↦ cc ]
Own-IsStranded (watcher_closes h c) v = (let l = v.lasts in cc)
Own-IsStranded (watcher_stops h r) v = absurd (v.unjoined r)

Tick-IsStranded : {s t : Conn} → Tick s t → IsStranded s → IsStranded t
Tick-IsStranded (pushed c) v = (let g = v.gone in cc)
Tick-IsStranded force_closed v = record {
  lasts = v.lasts;
  gone = v.gone;
  waits = v.waits;
  unjoined = v.unjoined;
}
Tick-IsStranded cleaned_up v = record {
  lasts = v.lasts;
  gone = refl;
  waits = v.waits;
  unjoined = v.unjoined;
}

Uncancelled-IsStranded : {s t : Conn} → Uncancelled s t → IsStranded s → IsStranded t
Uncancelled-IsStranded not_yet v = v
Uncancelled-IsStranded (own_step before step) v =
    Own-IsStranded step (Uncancelled-IsStranded before v)
Uncancelled-IsStranded (tick_step before step) v =
    Tick-IsStranded step (Uncancelled-IsStranded before v)

-- If a session is cleaned up when its writer is between two selects, then neither the writer nor
-- serveTCPConn returns as long as the context of the run lasts, although the connection is closed.
pub writer_leaks :
    (s t : Conn)
    → Reach accepted_conn s
    → s.ctx_done ≡ false
    → s.cleaned ≡ true
    → s.writer ≡ at_select
    → Uncancelled s t
    → (t.writer ≢ writer_done) × (t.serving ≢ returned)
writer_leaks s t reach lasts gone at steps =
    let sound = Reach-IsSound reach in
    let v = Uncancelled-IsStranded steps (record {
      lasts = lasts;
      gone = gone;
      waits = inl at;
      unjoined = λ e. (let done = sound.joined e in cc);
    }) in
    (λ e. elim v.waits [ inl a ↦ cc | inr a ↦ cc ], v.unjoined)
