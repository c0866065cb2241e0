-- ===== src/Jobs/Proactive/Silence.antt =====
-- What silence does to contact: fewer answers mean less contact, and a bound on it.
use native.Mathlib.Nat.{mul-le-mul_right}
use discord_personality_bot.Base.{
  ℕ, zero, suc, ◌-◌, ◌≤◌, ◌<◌, ◌≡◌, refl, ◌⊎◌, inl, inr, arith, String, Bool, true, false, Option,
  none, some, List, [], ◌∷◌,
}
use discord_personality_bot.State.Snapshot.{StateSnapshot}
use discord_personality_bot.Jobs.Proactive.{
  Contact, unanswered_count, last_contact_at, record_contact, mark_answered, ProactivePolicy,
  required, elapsed, too_soon, assess_from, assess, is_allowed, Occasion, write_on, deliberate,
  send, Ending, unsent, sent,
}

pub unanswered_count-record_contact :
    (i : ℕ) (o : String) (t : ℕ) (cs : List Contact)
    → unanswered_count (record_contact i o t cs) ≡ suc (unanswered_count cs)
unfolding record_contact unanswered_count
unanswered_count-record_contact i o t [] = refl
unanswered_count-record_contact i o t (c ∷ cs) =
    omega (arith, unanswered_count-record_contact i o t cs)

answered_at-cases : (o : Option ℕ) → (o ≡ none) ⊎ ((u : ℕ) × (o ≡ some u))
answered_at-cases none = inl refl
answered_at-cases (some u) = inr (u, refl)

unanswered_count-mark_answered :
    (t : ℕ) (cs : List Contact) → unanswered_count (mark_answered t cs) ≡ 0
unfolding mark_answered unanswered_count
unanswered_count-mark_answered t [] = refl
unanswered_count-mark_answered t (c ∷ cs) = elim (answered_at-cases c.answered_at) [
  | inl e ↦ rw e (omega (arith, unanswered_count-mark_answered t cs))
  | inr (u, e) ↦ rw (e, e) (omega (arith, unanswered_count-mark_answered t cs))
]

assess-is_allowed :
    (policy : ProactivePolicy) (s : StateSnapshot) (urgency : ℕ) (awake : Bool) (moment u : ℕ)
    (last : Option ℕ)
    → is_allowed (assess_from policy s urgency awake moment u last) ≡ true
    → u < policy.max_unanswered
unfolding assess_from
assess-is_allowed policy s urgency awake moment u last h = ground arith

sent_bound :
    (policy : ProactivePolicy) (confirmed : Option (ℕ × ℕ)) (kind : String) (cs : List Contact)
    → unanswered_count cs < policy.max_unanswered
    → unanswered_count
        (elim confirmed as (λ x. Ending × List Contact) [
          | none ↦ (unsent, cs)
          | some (now, i) ↦ (sent, record_contact i kind now cs)
        ]).1
      ≤ policy.max_unanswered
sent_bound policy none kind cs h = omega arith
sent_bound policy (some (now, i)) kind cs h =
    omega (arith, unanswered_count-record_contact i kind now cs)

send-bound :
    (policy : ProactivePolicy) (o : Occasion) (cs : List Contact)
    → unanswered_count cs < policy.max_unanswered
    → unanswered_count (send o cs).1 ≤ policy.max_unanswered
unfolding send
send-bound policy o cs h = sent_bound policy o.confirmed o.kind cs h

-- A deliberation leaves the contacts alone, unless it was allowed and sends.
deliberate-cases :
    (policy : ProactivePolicy) (o : Occasion) (cs : List Contact)
    → ((deliberate policy o cs).1 ≡ cs)
      ⊎ ((is_allowed (assess policy o.snapshot o.urgency true o.moment cs) ≡ true)
          × ((deliberate policy o cs).1 ≡ (send o cs).1))
unfolding deliberate
deliberate-cases policy o cs = ground arith

deliberate-bound :
    (policy : ProactivePolicy) (o : Occasion) (cs : List Contact)
    → unanswered_count cs ≤ policy.max_unanswered
    → unanswered_count (deliberate policy o cs).1 ≤ policy.max_unanswered
unfolding assess
deliberate-bound policy o cs h = elim (deliberate-cases policy o cs) [
  | inl e ↦ rw e h
  | inr (a, e) ↦ rw e (
      send-bound policy o cs (
        assess-is_allowed policy o.snapshot o.urgency true o.moment (unanswered_count cs)
          (last_contact_at cs) a))
]

write_on-bound :
    (policy : ProactivePolicy) (occasions : List Occasion) (cs : List Contact)
    → unanswered_count cs ≤ policy.max_unanswered
    → unanswered_count (write_on policy occasions cs) ≤ policy.max_unanswered
unfolding write_on
write_on-bound policy [] cs h = h
write_on-bound policy (o ∷ os) cs h =
    write_on-bound policy os (deliberate policy o cs).1 (deliberate-bound policy o cs h)

elapsed-suc :
    (wait factor seconds u : ℕ)
    → 1000 ≤ factor
    → elapsed seconds u < required wait factor u
    → elapsed seconds (suc u) < required wait factor (suc u)
unfolding elapsed required
elapsed-suc wait factor seconds u f h = omega (arith, mul-le-mul_right (required wait factor u) f)

pub too_soon-suc :
    (policy : ProactivePolicy) (u : ℕ) (last : Option ℕ) (moment : ℕ)
    → 1000 ≤ policy.backoff_thousandths
    → too_soon policy (suc u) last moment ≡ false
    → too_soon policy u last moment ≡ false
unfolding too_soon
too_soon-suc policy u none moment f h = refl
too_soon-suc policy u (some last) moment f h = ground (
  arith,
  elapsed-suc policy.min_seconds_between_contacts policy.backoff_thousandths (moment - last) u f,
)

assess-suc :
    (policy : ProactivePolicy) (s : StateSnapshot) (urgency : ℕ) (awake : Bool) (moment u : ℕ)
    (last : Option ℕ)
    → 1000 ≤ policy.backoff_thousandths
    → is_allowed (assess_from policy s urgency awake moment (suc u) last) ≡ true
    → is_allowed (assess_from policy s urgency awake moment u last) ≡ true
unfolding assess_from
assess-suc policy s urgency awake moment u last f h =
    ground (arith, too_soon-suc policy u last moment f)

silence_reduces :
    (policy : ProactivePolicy) (s : StateSnapshot) (urgency : ℕ) (awake : Bool) (moment u : ℕ)
    (last : Option ℕ)
    → 1000 ≤ policy.backoff_thousandths
    → is_allowed (assess_from policy s urgency awake moment u last) ≡ true
    → is_allowed (assess_from policy s urgency awake moment 0 last) ≡ true
silence_reduces policy s urgency awake moment zero last f h = h
silence_reduces policy s urgency awake moment (suc u) last f h =
    silence_reduces policy s urgency awake moment u last f
      (assess-suc policy s urgency awake moment u last f h)

last_contact_at-mark_answered :
    (t : ℕ) (cs : List Contact) → last_contact_at (mark_answered t cs) ≡ last_contact_at cs
unfolding mark_answered last_contact_at
last_contact_at-mark_answered t [] = refl
last_contact_at-mark_answered t (c ∷ cs) = elim (answered_at-cases c.answered_at) [
  | inl e ↦ rw (e, last_contact_at-mark_answered t cs) refl
  | inr (u, e) ↦ rw (e, last_contact_at-mark_answered t cs) refl
]

-- With a backoff multiplier of at least 1, a reply never takes away a contact: what is allowed
-- with contacts unanswered is allowed once they are answered.
pub answer_keeps_allowed :
    (policy : ProactivePolicy) (s : StateSnapshot) (urgency : ℕ) (awake : Bool) (moment now : ℕ)
    (cs : List Contact)
    → 1000 ≤ policy.backoff_thousandths
    → is_allowed (assess policy s urgency awake moment cs) ≡ true
    → is_allowed (assess policy s urgency awake moment (mark_answered now cs)) ≡ true
unfolding assess
answer_keeps_allowed policy s urgency awake moment now cs f h =
    rw (unanswered_count-mark_answered now cs, last_contact_at-mark_answered now cs)
      (silence_reduces policy s urgency awake moment (unanswered_count cs) (last_contact_at cs) f h)

-- However many occasions to write come after the user replied, and whatever they are, the bot
-- leaves at most max_unanswered messages without an answer.
pub silence_bounds :
    (policy : ProactivePolicy) (occasions : List Occasion) (now : ℕ) (cs : List Contact)
    → unanswered_count (write_on policy occasions (mark_answered now cs)) ≤ policy.max_unanswered
silence_bounds policy occasions now cs =
    write_on-bound policy occasions (mark_answered now cs)
      (omega (arith, unanswered_count-mark_answered now cs))
