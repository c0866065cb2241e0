-- ===== src/Jobs/Proactive/Sending.antt =====
-- What a message that is sent has passed.
use discord_personality_bot.Base.{
  ℕ, suc, ◌≡◌, refl, arith, Bool, true, false, not, Option, none, some, List, text_test, ◌==◌, ◌&&◌,
}
use discord_personality_bot.Jobs.Proactive.{
  Contact, unanswered_count, record_contact, ProactivePolicy, assess, is_allowed, Mode, off, shadow,
  live, acts, is_affirmative, Occasion, Ending, sent, unsent, send, deliberate,
}
use discord_personality_bot.Jobs.Proactive.Silence.{unanswered_count-record_contact}

-- The occasion has passed each gate.
pub record HasPassed (policy : ProactivePolicy) (o : Occasion) (cs : List Contact) : Type 0 where
  pub mode : o.mode ≡ live
  pub gate : is_allowed (assess policy o.snapshot o.urgency true o.moment cs) ≡ true
  pub judgment : o.judgment ≡ some true
  pub draft : (o.draft == "") ≡ false
  pub clean : o.clean ≡ true

acts-live : (m : Mode) (b : Bool) → acts m b ≡ true → (m ≡ live) × (b ≡ true)
unfolding acts
acts-live off b h = cc h
acts-live shadow b h = cc h
acts-live live b h = (refl, h)

affirmative_some : (j : Option Bool) → is_affirmative j ≡ true → j ≡ some true
unfolding is_affirmative
affirmative_some none h = cc h
affirmative_some (some b) h = rw h refl

deliberate-gates :
    (policy : ProactivePolicy) (o : Occasion) (cs : List Contact)
    → (deliberate policy o cs).0 ≡ sent
    → (is_allowed (assess policy o.snapshot o.urgency true o.moment cs) ≡ true)
      × (is_affirmative o.judgment ≡ true)
      × (acts o.mode (not (o.draft == "") && o.clean) ≡ true)
      × ((send o cs).0 ≡ sent)
      × ((deliberate policy o cs).1 ≡ (send o cs).1)
unfolding deliberate
deliberate-gates policy o cs h = ground arith

send-sent :
    (o : Occasion) (cs : List Contact)
    → (send o cs).0 ≡ sent
    → unanswered_count (send o cs).1 ≡ suc (unanswered_count cs)
unfolding send
send-sent o cs h = go o.confirmed h
  where
    go :
        (c : Option (ℕ × ℕ))
        → (elim c as (λ x. Ending × List Contact) [
          | none ↦ (unsent, cs)
          | some (now, i) ↦ (sent, record_contact i o.kind now cs)
        ]).0
          ≡ sent
        → unanswered_count
            (elim c as (λ x. Ending × List Contact) [
              | none ↦ (unsent, cs)
              | some (now, i) ↦ (sent, record_contact i o.kind now cs)
            ]).1
          ≡ suc (unanswered_count cs)
    go none h = cc h
    go (some (now, i)) h = unanswered_count-record_contact i o.kind now cs

-- A deliberation that ends with a sent message has the mode LIVE, passed the assessment, had an
-- affirmative judgment and a draft that is not empty and that the guard found clean, and leaves
-- one more contact without an answer.
pub deliberate_sends :
    (policy : ProactivePolicy) (o : Occasion) (cs : List Contact)
    → (deliberate policy o cs).0 ≡ sent
    → HasPassed policy o cs
      × (unanswered_count (deliberate policy o cs).1 ≡ suc (unanswered_count cs))
deliberate_sends policy o cs h =
    let (a, j, m, s, e) = deliberate-gates policy o cs h in
    let (live_mode, ready) = acts-live o.mode (not (o.draft == "") && o.clean) m in
    (
      record {
        mode = live_mode;
        gate = a;
        judgment = affirmative_some o.judgment j;
        draft = ground (arith, ready);
        clean = ground (arith, ready);
      },
      rw e (send-sent o cs s),
    )
