-- ===== src/Jobs/Proactive/Spacing.antt =====
-- How far apart two contacts are.
use discord_personality_bot.Base.{
  ℕ, zero, suc, ◌+◌, ◌≤◌, ◌≡◌, refl, arith, String, Bool, true, false, Option, some, List, [], ◌∷◌,
}
use discord_personality_bot.State.Snapshot.{StateSnapshot}
use discord_personality_bot.Jobs.Proactive.{
  Contact, unanswered_count, last_contact_at, later_of, record_contact, ProactivePolicy, required,
  elapsed, too_soon, assess_from, assess, is_allowed,
}
use discord_personality_bot.Jobs.Proactive.Silence.{too_soon-suc}

later_of-bound : (t : ℕ) (o : Option ℕ) (m : ℕ) → o ≡ some m → m ≤ later_of t o
later_of-bound t o m e = rw e (ground arith)

last_contact_at-record_contact :
    (i : ℕ) (kind : String) (sent : ℕ) (cs : List Contact)
    → (l : ℕ) × (last_contact_at (record_contact i kind sent cs) ≡ some l) × (sent ≤ l)
unfolding record_contact last_contact_at
last_contact_at-record_contact i kind sent [] = (sent, refl, omega arith)
last_contact_at-record_contact i kind sent (c ∷ cs) =
    let (l, e, h) = last_contact_at-record_contact i kind sent cs in
    let before = last_contact_at (record_contact i kind sent cs) in
    (later_of c.sent_at before, refl, omega (arith, h, later_of-bound c.sent_at before l e))

too_soon_once :
    (policy : ProactivePolicy) (u last moment : ℕ)
    → 1000 ≤ policy.backoff_thousandths
    → too_soon policy u (some last) moment ≡ false
    → last + policy.min_seconds_between_contacts ≤ moment
unfolding too_soon required elapsed
too_soon_once policy zero last moment f h = ground arith
too_soon_once policy (suc u) last moment f h =
    too_soon_once policy u last moment f (too_soon-suc policy u (some last) moment f h)

assess-too_soon :
    (policy : ProactivePolicy) (s : StateSnapshot) (urgency : ℕ) (awake : Bool) (moment u : ℕ)
    (last : Option ℕ)
    → is_allowed (assess_from policy s urgency awake moment u last) ≡ true
    → too_soon policy u last moment ≡ false
unfolding assess_from
assess-too_soon policy s urgency awake moment u last h = ground arith

-- With a backoff multiplier of at least 1, contact is allowed after a recorded one only once the
-- minimum of time between contacts has passed.
pub contacts_spaced :
    (policy : ProactivePolicy) (s : StateSnapshot) (urgency : ℕ) (awake : Bool) (moment i : ℕ)
    (kind : String) (sent : ℕ) (cs : List Contact)
    → 1000 ≤ policy.backoff_thousandths
    → is_allowed (assess policy s urgency awake moment (record_contact i kind sent cs)) ≡ true
    → sent + policy.min_seconds_between_contacts ≤ moment
unfolding assess
contacts_spaced policy s urgency awake moment i kind sent cs f h =
    let (l, e, le) = last_contact_at-record_contact i kind sent cs in
    let u = unanswered_count (record_contact i kind sent cs) in
    let soon =
      assess-too_soon policy s urgency awake moment u
        (last_contact_at (record_contact i kind sent cs)) h in
    let far = too_soon_once policy u l moment f (rw e at soon) in omega (arith, far, le)
