-- ===== src/Server/Mail.antt =====
-- What one broadcast over TCP does to each session (tickctx.go's BroadcastTCP, by server.go's pushTCP).
use mathlib.Core.List.{Permᴰ}
use godotnet.Base.{
  ℕ, ◌≡◌, ◌≢◌, refl, sym, ap, ◌∙◌, Bool, true, false, Option, none, some, [], ◌∷◌, ◌++◌, Bytes,
  ◌==◌, ==_iff, if◌then◌else◌, length, ltb, Bool-cases, inl, inr,
}
use godotnet.Base.Map.{Map}
use godotnet.Errors.{sentinel, outbound_queue_full}
use godotnet.Session.{Session, Channel, try_send}
use godotnet.Env.{Env}
use godotnet.Server.{Server}
use godotnet.Server.Outbound.{pushed, push_channel, push_tcp}
use godotnet.Server.Invariant.{heap-modify_ne}
use godotnet.Server.Delivery.{push_tcp_lem, schedule-other}
use godotnet.Server.TickCtx.{tcp_all}

-- The outbound queue of a session, and whether its disconnect has fired.
abbrev pub Mail : Type 0
Mail = Option Channel × Bool

abbrev pub mail : Session → Mail
mail x = (x.send_tcp, x.disconnect_once)

-- A payload is queued if there is room, and otherwise the disconnect fires.
abbrev pub delivered : Bytes → Mail → Mail
delivered payload (none, over) = (none, over)
delivered payload (some c, over) =
    if ltb (length c.queued) c.capacity
    then (some (record c { queued = c.queued ++ payload ∷ [] }), over)
    else (some c, true)

-- The same for each entry of a map of sessions that is the session `q`.
abbrev pub all_delivered : Map ℕ ℕ → Bytes → ℕ → Mail → Mail
all_delivered [] payload q x = x
all_delivered ((id, r) ∷ rest) payload q x =
    all_delivered rest payload q (if r == q then delivered payload x else x)

deliver : Bytes → ℕ → ℕ × ℕ → Mail → Mail
deliver payload q entry x = if entry.1 == q then delivered payload x else x

deliver-swap :
    (payload : Bytes) (q : ℕ) (a b : ℕ × ℕ) (x : Mail)
    → deliver payload q a (deliver payload q b x) ≡ deliver payload q b (deliver payload q a x)
unfolding deliver
deliver-swap payload q a b x = by_hit (a.1 == q) (b.1 == q)
  where
    by_hit :
        (i j : Bool)
        → (if i
            then delivered payload (if j then delivered payload x else x)
            else (if j then delivered payload x else x))
          ≡ (if j
              then delivered payload (if i then delivered payload x else x)
              else (if i then delivered payload x else x))
    by_hit true true = refl
    by_hit true false = refl
    by_hit false true = refl
    by_hit false false = refl

pub all_delivered-Permᴰ :
    {m n : Map ℕ ℕ} (payload : Bytes) (q : ℕ) (x : Mail)
    → Permᴰ m n
    → all_delivered m payload q x ≡ all_delivered n payload q x
unfolding deliver
all_delivered-Permᴰ payload q x Permᴰ.nil = refl
all_delivered-Permᴰ payload q x (Permᴰ.cons {a = a} {b = b} {l₁ = m} {l₂ = n} e p) =
    all_delivered-Permᴰ payload q (deliver payload q a x) p
    ∙ ap (λ entry. all_delivered n payload q (deliver payload q entry x)) e
all_delivered-Permᴰ payload q x (Permᴰ.swap {a = a} {b = b} {a' = a'} {b' = b'} {l = l} e f) =
    ap (all_delivered l payload q) (deliver-swap payload q b a x)
    ∙ ap (λ entry. all_delivered l payload q (deliver payload q a (deliver payload q entry x))) f
    ∙ ap (λ entry. all_delivered l payload q (deliver payload q entry (deliver payload q a' x))) e
all_delivered-Permᴰ payload q x (Permᴰ.trans p p') =
    all_delivered-Permᴰ payload q x p ∙ all_delivered-Permᴰ payload q x p'

module _ ⦃env : Env⦄ where
  push_none :
      (r : ℕ) (payload : Bytes) (s : Server)
      → (s.heap r).send_tcp ≡ none
      → push_tcp (some r) payload s ≡ s
  unfolding push_tcp push_channel
  push_none r payload s e = rw e refl

  push_other :
      (r q : ℕ) (payload : Bytes) (s : Server)
      → q ≢ r
      → (push_tcp (some r) payload s).heap q ≡ s.heap q
  unfolding push_tcp push_channel pushed
  push_other r q payload s apart = by_channel (s.heap r).send_tcp
    where
      by_send : (o : Option Channel) → (pushed o r s).heap q ≡ s.heap q
      by_send none = schedule-other r q (sentinel outbound_queue_full) s apart
      by_send (some c) = heap-modify_ne r q (λ x. record x { send_tcp = some c }) s apart

      by_channel : (o : Option Channel) → (push_channel o r payload s).heap q ≡ s.heap q
      by_channel none = refl
      by_channel (some c) = by_send (try_send c payload)

  push_self :
      (r : ℕ) (payload : Bytes) (s : Server)
      → mail ((push_tcp (some r) payload s).heap r) ≡ delivered payload (mail (s.heap r))
  push_self r payload s = by_channel (s.heap r).send_tcp refl
    where
      pair : Option Channel → Bool → Mail
      pair c over = (c, over)

      room :
          (b : Bool) (c : Channel) (over : Bool)
          → pair
              (some (if b then record c { queued = c.queued ++ payload ∷ [] } else c))
              (if b then over else true)
            ≡ (if b
                then (some (record c { queued = c.queued ++ payload ∷ [] }), over)
                else (some c, true))
      room true c over = refl
      room false c over = refl

      by_channel :
          (o : Option Channel)
          → (s.heap r).send_tcp ≡ o
          → mail ((push_tcp (some r) payload s).heap r) ≡ delivered payload (mail (s.heap r))
      by_channel none e =
          ap (λ (t : Server). mail (t.heap r)) (push_none r payload s e)
          ∙ ap (λ c. pair c (s.heap r).disconnect_once) e
          ∙ sym (ap (λ c. delivered payload (pair c (s.heap r).disconnect_once)) e)
      by_channel (some c) e =
          let (sent, over) = push_tcp_lem r payload s c e in
          ap (λ x. pair x ((push_tcp (some r) payload s).heap r).disconnect_once) sent
          ∙ ap
              (pair (
                some (
                  if ltb (length c.queued) c.capacity
                  then record c { queued = c.queued ++ payload ∷ [] }
                  else c)))
              over
          ∙ room (ltb (length c.queued) c.capacity) c (s.heap r).disconnect_once
          ∙ sym (ap (λ x. delivered payload (pair x (s.heap r).disconnect_once)) e)

  push-mail :
      (r q : ℕ) (payload : Bytes) (s : Server)
      → mail ((push_tcp (some r) payload s).heap q)
        ≡ (if r == q then delivered payload (mail (s.heap q)) else mail (s.heap q))
  push-mail r q payload s = elim (Bool-cases (r == q)) [
    | inl hit ↦
        let same : q ≡ r = sym ((==_iff r q).0 hit) in
        rw hit (
          ap (λ p. mail ((push_tcp (some r) payload s).heap p)) same
          ∙ push_self r payload s
          ∙ ap (λ p. delivered payload (mail (s.heap p))) (sym same))
    | inr miss ↦ rw miss (
        ap mail (
          push_other r q payload s (λ e. let hit : (r == q) ≡ true = (==_iff r q).1 (sym e) in cc)))
  ]

  pub tcp_all-mail :
      (m : Map ℕ ℕ) (payload : Bytes) (q : ℕ) (s : Server)
      → mail ((tcp_all m payload s).heap q) ≡ all_delivered m payload q (mail (s.heap q))
  unfolding tcp_all
  tcp_all-mail [] payload q s = refl
  tcp_all-mail ((id, r) ∷ rest) payload q s =
      tcp_all-mail rest payload q (push_tcp (some r) payload s)
      ∙ ap (all_delivered rest payload q) (push-mail r q payload s)
