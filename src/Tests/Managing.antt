-- ===== src/Tests/Managing.antt =====
-- The resource manager at work.
use discord_personality_bot.Base.{ℕ, ◌≡◌, refl, String, false, some, [], ◌∷◌, raised}
use discord_personality_bot.Base.Sort.{sort, insert_by}
use discord_personality_bot.Reliability.Resources.{
  Work, index_of, rank, is_background, more_urgent, goes_before, Manager, fresh, grant_from,
  admit_next, release, gave_way, user_input_arrived, checkpoint, acquiring, resuming, releasing,
  apply_all,
}
use discord_personality_bot.Reliability.Resources.Slots.{IsTight, slots-IsTight}
use discord_personality_bot.Reliability.Resources.Yielding.{user_first}

abbrev work : String → ℕ → Work
work priority sequence = record { priority = priority; sequence = sequence; name = priority }

slots-IsTight_example : IsTight 1 (
    apply_all (acquiring "P6" "" ∷ acquiring "P0" "reply" ∷ releasing (work "P6" 1) ∷ []) (fresh 1))
slots-IsTight_example =
    slots-IsTight 1 (acquiring "P6" "" ∷ acquiring "P0" "reply" ∷ releasing (work "P6" 1) ∷ [])

-- A diary entry holds the slot; an older memory job and a younger reply wait.
abbrev busy : Manager
busy = record {
  capacity = 1;
  in_flight = 1;
  waiting =
      record { work = work "P3" 2; cancelled = false }
      ∷ record { work = work "P0" 3; cancelled = false }
      ∷ [];
  sequence = 3;
  yield_requested = false;
  admitted = 1;
  yielded = 0;
  peak_waiting = 2;
  by_priority = [];
}

reply_granted : (release (work "P6" 1) busy).0 ≡ some (work "P0" 3)
unfolding release admit_next grant_from sort insert_by goes_before more_urgent rank index_of
    is_background
reply_granted = refl

user_first_example :
    (checkpoint "P6"
      (apply_all (acquiring "P0" "reply" ∷ resuming "P0" ∷ []) (user_input_arrived busy))).0
    ≡ raised gave_way
unfolding is_background rank index_of
user_first_example =
    user_first (acquiring "P0" "reply" ∷ resuming "P0" ∷ []) busy "P6" (refl, (refl, tt))
