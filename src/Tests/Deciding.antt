-- ===== src/Tests/Deciding.antt =====
-- A choice among three, of which two are near.
use Prim.Native.Nat.{◌%◌, ◌*◌}
use discord_personality_bot.Base.{
  ℕ, ◌≡◌, ◌≤◌, refl, arith, String, true, Option, none, some, [], ◌∷◌,
}
use discord_personality_bot.Agency.Decision.{
  DecisionPolicy, ActionCandidate, DecisionRecord, goal_directed, habitual, Engine, Call, choose,
}
use discord_personality_bot.Agency.Decision.Choice.{IsFairChoice, choose-IsFairChoice}

abbrev policy : DecisionPolicy
policy = record { tie_threshold = 80000; learning_rate = 200000 }

abbrev walk : ActionCandidate
walk = record {
  action = "walk";
  route = goal_directed;
  expected_value = 600000;
  goal_id = some 1;
  habit_id = none;
  reason = "";
}

abbrev tea : ActionCandidate
tea = record walk { action = "tea"; route = habitual; expected_value = 630000; habit_id = some 2 }

abbrev sleep : ActionCandidate
sleep = record walk { action = "sleep"; expected_value = 200000 }

abbrev draws : ℕ → ℕ
draws k = k % 2 * 40000

draws_small : (k : ℕ) → draws k ≤ 40000
draws_small k = omega arith

abbrev engine : Engine
engine = record { rows = []; next_id = 1; drawn = 0 }

abbrev call : Call
call = record { run_id = none; event_id = some 5; records = true; at = 100 }

abbrev chosen_action : Option DecisionRecord → String
chosen_action none = ""
chosen_action (some d) = d.chosen.action

-- The second number of the stream lifts the walk over the tea.
wavers : chosen_action (choose policy draws call (walk ∷ tea ∷ sleep ∷ []) engine).0 ≡ "walk"
unfolding choose
wavers = refl

clear : chosen_action (choose policy draws call (sleep ∷ tea ∷ []) engine).0 ≡ "tea"
unfolding choose
clear = refl

choose-IsFairChoice_example :
    (d : DecisionRecord) × ((choose policy draws call (walk ∷ tea ∷ sleep ∷ []) engine).0 ≡ some d)
    × IsFairChoice policy 40000 (walk ∷ tea ∷ sleep ∷ []) d.chosen
choose-IsFairChoice_example =
    choose-IsFairChoice policy draws 40000 call walk (tea ∷ sleep ∷ []) engine draws_small
