-- ===== src/Tests/Living.antt =====
-- A habit of two weeks, with its cue and without.
use discord_personality_bot.Base.{ℕ, ◌≡◌, refl, arith, true, false, some, List, [], ◌∷◌, map}
use discord_personality_bot.Agency.Habits.{
  HabitPolicy, Habit, Habits, HabitCall, observe, cue_encountered, set_context_available,
  apply_disuse, established, call, disused,
}
use discord_personality_bot.Agency.Habits.Closure.{after}
use discord_personality_bot.Agency.Habits.Histories.{
  HasAtLeast, HasAtMost, Extends, trace_remains, unpaired_builds_nothing,
}

abbrev policy : HabitPolicy
policy = record {
  automaticity_gain = 80000;
  automaticity_ceiling = 950000;
  decay_per_idle_day = 10000;
  trace_floor = 150000;
  established_at = 600000;
  automatic_trigger = 500000;
}

abbrev tea : Habit
tea = record {
  habit_id = 1;
  name = "tea";
  cue = "morning";
  action = "make_tea";
  automaticity = 800000;
  repetitions = 30;
  cue_encounters = 31;
  context_available = true;
  last_performed_at = some 0;
  last_cue_at = some 0;
  created_at = 0;
  updated_at = 0;
  status = established;
}

abbrev table : Habits
table = record { rows = tea ∷ []; next_id = 2 }

-- The decay of ten days, at one instant, once and twice.
disused_once : (disused policy 864000 tea).automaticity ≡ 700000
unfolding disused
disused_once = refl

disused_twice : (disused policy 864000 (disused policy 864000 tea)).automaticity ≡ 600000
unfolding disused
disused_twice = refl

paired_day :
    map
      (λ (h : Habit). h.automaticity)
      (call policy 86400 (observe "tea" "morning" "make_tea" true true) table).1.rows
    ≡ 802800 ∷ []
unfolding call
paired_day = refl

abbrev alone : List (ℕ × HabitCall)
alone =
    (86400, cue_encountered "morning")
    ∷ (172800, observe "tea" "morning" "make_tea" false true)
    ∷ (259200, observe "walk" "evening" "go_out" true false)
    ∷ (864000, set_context_available 1 false)
    ∷ (86400000, apply_disuse)
    ∷ []

trace_remains_example :
    HasAtLeast 1 150000 (after policy alone table) × Extends table (after policy alone table)
trace_remains_example =
    trace_remains policy 1 alone table (omega arith) 150000 (omega arith) (omega arith)
      ((λ e. omega arith), tt)

unpaired_builds_nothing_example : HasAtMost 1 800000 (after policy alone table)
unpaired_builds_nothing_example =
    unpaired_builds_nothing policy 1 alone table (omega arith) 800000
      (tt, (refl, (refl, (tt, (tt, tt))))) ((λ e. omega arith), tt)
