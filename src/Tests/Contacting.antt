-- ===== src/Tests/Contacting.antt =====
-- Two contacts without a reply, and one of them answered.
use discord_personality_bot.Base.{some, suc, ◌≡◌, refl, true, false, List, [], ◌∷◌}
use discord_personality_bot.Base.Int.{pos}
use discord_personality_bot.Number.{fin}
use discord_personality_bot.State.Snapshot.{StateSnapshot, number_of, get}
use discord_personality_bot.State.Value.{number, numeric}
use discord_personality_bot.Base.Dict.{lookup}
use discord_personality_bot.Tests.Cases.{snapshot, joy}
use discord_personality_bot.Jobs.Proactive.{
  Contact, ProactivePolicy, Occasion, live, deliberate, sent, send, acts, is_affirmative,
  unanswered_count, record_contact, assess, is_allowed, assess_from, too_soon, last_contact_at,
  required, elapsed, in_quiet_hours, desire, or_default, pull, push,
}
use discord_personality_bot.Jobs.Proactive.Sending.{HasPassed, deliberate_sends}

-- The policy of the configuration.
abbrev policy : ProactivePolicy
policy = record {
  min_seconds_between_contacts = 21600;
  max_unanswered = 2;
  backoff_thousandths = 3000;
  quiet_from = 15;
  quiet_until = 22;
  base_threshold = 550000000;
}

abbrev lonely : StateSnapshot
lonely = record snapshot {
  values =
      (("needs", "loneliness"), record joy { value = number (fin (pos 900000000)) })
      ∷ (("needs", "connection_desire"), record joy { value = number (fin (pos 900000000)) })
      ∷ [];
}

abbrev contacts : List Contact
contacts = record_contact 1 "walk" 1000 []

-- Seventeen and a half hours after a contact that was not answered, eighteen must pass.
waits : is_allowed (assess policy lonely 0 true 64000 contacts) ≡ false
unfolding assess assess_from too_soon unanswered_count last_contact_at record_contact required
    elapsed
waits = refl

-- They have passed, and it is not quiet time.
writes : is_allowed (assess policy lonely 0 true 90000 contacts) ≡ true
unfolding assess assess_from too_soon unanswered_count last_contact_at record_contact required
    elapsed in_quiet_hours desire or_default pull push number_of get lookup numeric
writes = refl

abbrev occasions : List Occasion
occasions =
    record {
      snapshot = lonely;
      urgency = 0;
      mode = live;
      judgment = some true;
      draft = "hello";
      clean = true;
      moment = 90000;
      confirmed = some (90060, 2);
      kind = "walk";
    }
    ∷ record {
      snapshot = lonely;
      urgency = 0;
      mode = live;
      judgment = some true;
      draft = "hello";
      clean = true;
      moment = 900000;
      confirmed = some (900060, 3);
      kind = "walk";
    }
    ∷ record {
      snapshot = lonely;
      urgency = 0;
      mode = live;
      judgment = some true;
      draft = "hello";
      clean = true;
      moment = 9000000;
      confirmed = some (9000060, 4);
      kind = "walk";
    }
    ∷ []

abbrev occasion : Occasion
occasion = record {
  snapshot = lonely;
  urgency = 0;
  moment = 90000;
  kind = "walk";
  mode = live;
  judgment = some true;
  draft = "hello";
  clean = true;
  confirmed = some (90060, 2);
}

occasion_sent : (deliberate policy occasion contacts).0 ≡ sent
unfolding deliberate send acts is_affirmative
occasion_sent = rw writes refl

deliberate_sends_example :
    HasPassed policy occasion contacts
    × (unanswered_count (deliberate policy occasion contacts).1 ≡ suc (unanswered_count contacts))
deliberate_sends_example = deliberate_sends policy occasion contacts occasion_sent
