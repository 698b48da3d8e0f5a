-- ===== src/Sub/Relation.antt =====
-- sub.go: the manager as a relation between players and topics.
use mathlib.Core.Bool.{◌&&◌}
use mathlib.Core.Path.{fun_ext}
use godotnet.Base.{
  ℕ, String, ◌≡◌, refl, sym, ap, ◌∙◌, Bool, true, false, none, some, List, [], ◌∷◌, if◌then◌else◌,
  Option-cases, inl, inr, nat_eq, string_eq, ◌==◌, arith,
}
use text.Mathlib.Text.{◌==◌ as str_eq}
use godotnet.Base.Map.{get, delete, get-delete}
use godotnet.Sub.Nested.{
  KeySet, Members, is_some, member, drop_member, member-add_member, member-drop_member,
}
use godotnet.Sub.{Manager, new, subscribe, unsubscribe, leave_topics, unsubscribe_all}

-- The relation as `subscribers` shows it, and as `per_player` does.
unfoldable pub subscribed : Manager → ℕ → String → Bool
subscribed m p t = member m.subscribers t p

unfoldable pub listed : Manager → ℕ → String → Bool
listed m p t = member m.per_player p t

abbrev pub Consistent : Manager → Type 0
Consistent m = (p : ℕ) (t : String) → subscribed m p t ≡ listed m p t

-- A subscription adds one pair to the relation and touches no other, so that repeating it has no
-- effect; it does so in both maps.
pub subscribe_lem :
    (m : Manager) (p q : ℕ) (t u : String)
    → (subscribed (subscribe p t m) q u ≡ (if p == q && str_eq t u then true else subscribed m q u))
      × (listed (subscribe p t m) q u ≡ (if p == q && str_eq t u then true else listed m q u))
unfolding subscribed listed subscribe
subscribe_lem m p q t u =
    (member-add_member m.subscribers t u p q ∙ ground arith, member-add_member m.per_player p q t u)

-- An unsubscription removes one pair and no other, in both maps.
pub unsubscribe_lem :
    (m : Manager) (p q : ℕ) (t u : String)
    → (subscribed (unsubscribe p t m) q u
        ≡ (if p == q && str_eq t u then false else subscribed m q u))
      × (listed (unsubscribe p t m) q u ≡ (if p == q && str_eq t u then false else listed m q u))
unfolding subscribed listed unsubscribe
unsubscribe_lem m p q t u = (
  member-drop_member m.subscribers t u p q ∙ ground arith,
  member-drop_member m.per_player p q t u,
)

-- The loop takes the player off each of the topics, and off no other.
leave_topics_lem :
    (topics : KeySet String) (p q : ℕ) (u : String) (subs : Members String ℕ)
    → member (leave_topics topics p subs) u q
      ≡ (if p == q && is_some (get topics u) then false else member subs u q)
unfolding leave_topics get
leave_topics_lem [] p q u subs = ground arith
leave_topics_lem ((t, x) ∷ topics) p q u subs =
    ground
      (arith, leave_topics_lem topics p q u (drop_member subs t p), member-drop_member subs t u p q)

member-missing : (m : Members ℕ String) (p : ℕ) (u : String) → get m p ≡ none → member m p u ≡ false
unfolding member get
member-missing m p u e = rw (e, member)

member-found :
    (m : Members ℕ String) (p : ℕ) (u : String) (topics : KeySet String)
    → get m p ≡ some topics
    → member m p u ≡ is_some (get topics u)
unfolding member
member-found m p u topics e = rw (e, member)

member-delete :
    (m : Members ℕ String) (p q : ℕ) (u : String)
    → member (delete m p) q u ≡ (if p == q then false else member m q u)
unfolding member get
member-delete m p q u = ground (arith, get-delete m p q)

-- In a consistent manager a player who leaves everything is on no topic afterwards, in either map,
-- and every other player's subscriptions stay.
pub unsubscribe_all_lem :
    (m : Manager) (p q : ℕ) (u : String)
    → Consistent m
    → (subscribed (unsubscribe_all p m) q u ≡ (if p == q then false else subscribed m q u))
      × (listed (unsubscribe_all p m) q u ≡ (if p == q then false else listed m q u))
unfolding subscribed listed unsubscribe_all
unsubscribe_all_lem m p q u agree = elim (Option-cases (get m.per_player p)) [
  | inl e ↦
      rw (e, unsubscribe_all)
        (
          ground (arith, agree p u, member-missing m.per_player p u e),
          ground (arith, member-missing m.per_player p u e),
        )
  | inr (topics, e) ↦
      rw (e, unsubscribe_all)
        (
          ground (
            arith,
            agree p u,
            member-found m.per_player p u topics e,
            leave_topics_lem topics p q u m.subscribers,
          ),
          member-delete m.per_player p q u,
        )
]

-- The operations that change a manager.
pub data Operation : Type 0 where
  subscribes unsubscribes : ℕ → String → Operation
  leaves : ℕ → Operation

unfoldable pub apply : Operation → Manager → Manager
apply (subscribes p t) m = subscribe p t m
apply (unsubscribes p t) m = unsubscribe p t m
apply (leaves p) m = unsubscribe_all p m

unfoldable pub apply_all : List Operation → Manager → Manager
unfolding apply
apply_all [] m = m
apply_all (o ∷ os) m = apply_all os (apply o m)

pub new-Consistent : Consistent new
unfolding subscribed listed new member get
new-Consistent p t = refl

pub apply-Consistent : (o : Operation) (m : Manager) → Consistent m → Consistent (apply o m)
unfolding apply
apply-Consistent (subscribes p t) m agree q u =
    let (left, right) = subscribe_lem m p q t u in
    left ∙ ap (λ b. if p == q && str_eq t u then true else b) (agree q u) ∙ sym right
apply-Consistent (unsubscribes p t) m agree q u =
    let (left, right) = unsubscribe_lem m p q t u in
    left ∙ ap (λ b. if p == q && str_eq t u then false else b) (agree q u) ∙ sym right
apply-Consistent (leaves p) m agree q u =
    let (left, right) = unsubscribe_all_lem m p q u agree in
    left ∙ ap (λ b. if p == q then false else b) (agree q u) ∙ sym right

apply_all-Consistent :
    (os : List Operation) (m : Manager) → Consistent m → Consistent (apply_all os m)
unfolding apply_all
apply_all-Consistent [] m agree = agree
apply_all-Consistent (o ∷ os) m agree =
    apply_all-Consistent os (apply o m) (apply-Consistent o m agree)

-- The history of operations as a relation: who is subscribed is what the latest operation on the
-- pair says, and nobody is at the start.
abbrev pub Relation : Type 0
Relation = ℕ → String → Bool

abbrev pub recall : Operation → Relation → Relation
recall (subscribes p t) r q u = if p == q && str_eq t u then true else r q u
recall (unsubscribes p t) r q u = if p == q && str_eq t u then false else r q u
recall (leaves p) r q u = if p == q then false else r q u

abbrev pub history : List Operation → Relation → Relation
history [] r = r
history (o ∷ os) r = history os (recall o r)

pub apply-recall :
    (o : Operation) (m : Manager) (q : ℕ) (u : String)
    → Consistent m
    → subscribed (apply o m) q u ≡ recall o (subscribed m) q u
unfolding apply
apply-recall (subscribes p t) m q u agree = (subscribe_lem m p q t u).0
apply-recall (unsubscribes p t) m q u agree = (unsubscribe_lem m p q t u).0
apply-recall (leaves p) m q u agree = (unsubscribe_all_lem m p q u agree).0

refines :
    (os : List Operation) (m : Manager)
    → Consistent m
    → subscribed (apply_all os m) ≡ history os (subscribed m)
unfolding apply_all
refines [] m agree = refl
refines (o ∷ os) m agree =
    refines os (apply o m) (apply-Consistent o m agree)
    ∙ ap (history os) (fun_ext (λ q. fun_ext (λ u. apply-recall o m q u agree)))

nobody : subscribed new ≡ (λ q u. false)
unfolding subscribed new member get
nobody = refl

-- After any operations on a new manager both of its maps show exactly the relation that the history
-- of the operations says.
pub manager-refines :
    (os : List Operation) (p : ℕ) (t : String)
    → (subscribed (apply_all os new) p t ≡ history os (λ q u. false) p t)
      × (listed (apply_all os new) p t ≡ history os (λ q u. false) p t)
manager-refines os p t =
    let shown : subscribed (apply_all os new) p t ≡ history os (λ q u. false) p t =
      ap (λ r. r p t) (refines os new new-Consistent ∙ ap (history os) nobody) in
    (shown, sym (apply_all-Consistent os new new-Consistent p t) ∙ shown)
