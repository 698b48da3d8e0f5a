-- ===== src/Examples/Topics.antt =====
-- Subscriptions at concrete inputs.
use godotnet.Base.{ℕ, ◌≡◌, refl, String, false, arith, true, List, [], ◌∷◌, nat_eq, string_eq}
use godotnet.Base.Map.{get, put, delete}
use godotnet.Sub.{Manager, new, subscribe, unsubscribe_all, subscribers_of}
use godotnet.Sub.Relation.{
  Operation, subscribes, unsubscribes, leaves, apply_all, subscribed, listed, history,
  manager-refines,
}
use godotnet.Sub.Tidy.{apply_all-new}
use godotnet.Examples.Demo.{demo}

abbrev fans : List Operation
fans = subscribes 1 "guild:7" ∷ subscribes 2 "guild:7" ∷ subscribes 1 "stock" ∷ leaves 1 ∷ []

abbrev guild : Manager
guild = apply_all fans new

manager-refines_example : (subscribed guild 2 "guild:7" ≡ true) × (listed guild 2 "guild:7" ≡ true)
manager-refines_example = manager-refines fans 2 "guild:7"

guild_members : subscribers_of "guild:7" guild ≡ 2 ∷ []
unfolding apply_all new subscribe unsubscribe_all subscribers_of get put delete
guild_members = refl

-- Player 1 unsubscribes from its only topic, player 2 leaves them all.
abbrev visits : List Operation
visits =
    subscribes 1 "stock"
    ∷ subscribes 2 "chat"
    ∷ subscribes 2 "stock"
    ∷ unsubscribes 1 "stock"
    ∷ leaves 2
    ∷ []

all_left : (p : ℕ) (t : String) → history visits (λ q u. false) p t ≡ false
all_left p t = ground arith

apply_all-new_example : apply_all visits new ≡ new
apply_all-new_example = apply_all-new visits all_left
