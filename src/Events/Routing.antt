-- ===== src/Events/Routing.antt =====
-- Who receives an event (app/events/bus.py).
use discord_personality_bot.Base.{
  ◌≡◌, ◌≢◌, sym, inl, inr, arith, true, false, Bool-cases, String, text_test, ◌==◌, List, [], ◌∷◌,
  ok,
}
use discord_personality_bot.Base.Lists.{All, All-mono, keep-All, DistinctBy}
use discord_personality_bot.Base.Sort.{sort, sort-DistinctBy}
use discord_personality_bot.Events.Model.{Event, is_non_psychological}
use discord_personality_bot.Events.Bus.{
  Subscription, is_psychology, accepts, before, is_registered, append_one, register,
  subscriptions_for,
}

accepts-guard :
    (e : Event) (s : Subscription)
    → is_non_psychological e.category ≡ true
    → accepts s e ≡ true
    → is_psychology s.kind ≡ false
unfolding accepts
accepts-guard e s h a = ground arith

-- No subscription of a psychology engine receives a system or an admin event.
pub engines_unmoved :
    (e : Event) (bus : List Subscription)
    → is_non_psychological e.category ≡ true
    → All (λ s. is_psychology s.kind ≡ false) (subscriptions_for e bus)
unfolding subscriptions_for
engines_unmoved e bus h =
    All-mono (λ s. accepts s e ≡ true) (λ s. is_psychology s.kind ≡ false) _
      (λ s a. accepts-guard e s h a) (keep-All (λ s. accepts s e) bus)

abbrev pub name_of : Subscription → String
name_of s = s.name

append_one-All :
    (P : Subscription → Type 0) (s : Subscription) (ss : List Subscription)
    → P s
    → All P ss
    → All P (append_one ss s)
append_one-All P s [] p h = (p, tt)
append_one-All P s (t ∷ ts) p h = (h.0, append_one-All P s ts p h.1)

append_one-DistinctBy :
    (s : Subscription) (ss : List Subscription)
    → is_registered s.name ss ≡ false
    → DistinctBy name_of ss
    → DistinctBy name_of (append_one ss s)
unfolding is_registered
append_one-DistinctBy s [] h d = (tt, tt)
append_one-DistinctBy s (t ∷ ts) h d = (
  append_one-All (λ u. t.name ≢ u.name) s ts
      (λ q. absurd (ground (arith, h, q, text_test.test_iff t.name s.name))) d.0,
  append_one-DistinctBy s ts (ground (arith, h)) d.1,
)

-- Where the names of the subscriptions on a bus are distinct, they are distinct after a
-- registration that returns.
pub registered_once :
    (s : Subscription) (ss bus : List Subscription)
    → DistinctBy name_of ss
    → register s ss ≡ ok bus
    → DistinctBy name_of bus
unfolding register
registered_once s ss bus d h = elim (Bool-cases (s.name == "")) [
  | inl empty ↦ absurd (cc (rw empty at h))
  | inr named ↦ elim (Bool-cases (is_registered s.name ss)) [
    | inl there ↦ absurd (cc (rw (named, there) at h))
    | inr new ↦
        let sorted : ok (sort before (append_one ss s)) ≡ ok bus = rw (named, new) at h in
        let it : sort before (append_one ss s) ≡ bus = cc sorted in
        rw (sym it)
          (sort-DistinctBy before name_of (append_one ss s) (append_one-DistinctBy s ss new d))
  ]
]
