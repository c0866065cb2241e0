-- ===== src/Events/Bus.antt =====
-- app/events/bus.py: which subscribers an event is for. A subscriber is known by its name.
use discord_personality_bot.Base.{
  ℕ, String, Bool, true, false, not, ◌&&◌, ◌||◌, List, [], ◌∷◌, ltb, nat_beq, ◌==◌, text_test,
  if◌then◌else◌, Result, ok, raised,
}
use discord_personality_bot.Base.Lists.{contains, keep}
use discord_personality_bot.Base.Sort.{sort}
use discord_personality_bot.Text.{str_lt}
use discord_personality_bot.Events.Model.{
  Category, world, social, internal, action, knowledge, system, admin, Event, is_non_psychological,
}

pub data SubscriberKind : Type 0 where
  psychology infrastructure observer : SubscriberKind

pub record Subscription : Type 0 where
  pub name : String
  pub kind : SubscriberKind
  pub event_types : List String
  pub categories : List Category
  pub order : ℕ

abbrev category_beq : Category → Category → Bool
category_beq world world = true
category_beq social social = true
category_beq internal internal = true
category_beq action action = true
category_beq knowledge knowledge = true
category_beq system system = true
category_beq admin admin = true
category_beq _ _ = false

unfoldable pub has_category : Category → List Category → Bool
has_category c [] = false
has_category c (d ∷ ds) = category_beq c d || has_category c ds

abbrev pub is_psychology : SubscriberKind → Bool
is_psychology psychology = true
is_psychology _ = false

abbrev is_nil {ℓ} : {A : Type ℓ} → List A → Bool
is_nil [] = true
is_nil (x ∷ xs) = false

-- `accepts`
unfoldable pub accepts : Subscription → Event → Bool
unfolding has_category contains
accepts s e =
    if is_psychology s.kind && is_non_psychological e.category
    then false
    else if not (is_nil s.event_types) && not (contains e.event_type s.event_types)
    then false
    else if not (is_nil s.categories) && not (has_category e.category s.categories)
    then false
    else true

-- The order of delivery: `(order, name)`.
abbrev pub before : Subscription → Subscription → Bool
before s t = if nat_beq s.order t.order then str_lt s.name t.name else ltb s.order t.order

pub data SubscriptionError : Type 0 where
  no_name already_registered : SubscriptionError

unfoldable pub is_registered : String → List Subscription → Bool
is_registered name [] = false
is_registered name (s ∷ ss) = s.name == name || is_registered name ss

abbrev pub append_one : List Subscription → Subscription → List Subscription
append_one [] s = s ∷ []
append_one (t ∷ ts) s = t ∷ append_one ts s

-- `register`
unfoldable pub register :
    Subscription → List Subscription → Result SubscriptionError (List Subscription)
unfolding is_registered
register s ss =
    if s.name == ""
    then raised no_name
    else if is_registered s.name ss
    then raised already_registered
    else ok (sort before (append_one ss s))

-- `unregister`, less the answer whether anything was dropped.
unfoldable pub unregister : String → List Subscription → List Subscription
unfolding keep
unregister name = keep (λ s. not (s.name == name))

-- `subscriptions_for`
unfoldable pub subscriptions_for : Event → List Subscription → List Subscription
unfolding keep accepts
subscriptions_for e = keep (λ s. accepts s e)
