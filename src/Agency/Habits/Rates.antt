-- ===== src/Agency/Habits/Rates.antt =====
-- Bounds on decay, practice and rounding.
use discord_personality_bot.Base.{ℕ, ◌*◌, ◌≤◌, ◌≡◌, arith, Bool, true, false, not, ◌&&◌, text_test}
use discord_personality_bot.Consolidation.Dynamics.{round_parts}
use discord_personality_bot.Agency.Habits.{HabitPolicy, Habit, decayed, practised}

pub decayed_low :
    (policy : HabitPolicy) (now t : ℕ) (h : Habit)
    → t ≤ policy.trace_floor
    → t ≤ h.automaticity
    → t * 86400 ≤ decayed policy now h
unfolding decayed
decayed_low policy now t h f l = ground arith

pub decayed_high :
    (policy : HabitPolicy) (now : ℕ) (h : Habit) → decayed policy now h ≤ h.automaticity * 86400
unfolding decayed
decayed_high policy now h = ground arith

pub practised_low :
    (policy : HabitPolicy) (c p : Bool) (t a : ℕ)
    → t ≤ policy.automaticity_ceiling
    → t * 86400 ≤ a
    → t * 86400000000 ≤ practised policy c p a
unfolding practised
practised_low policy true true t a f l = ground arith
practised_low policy true false t a f l = omega arith
practised_low policy false p t a f l = omega arith

pub practised_high :
    (policy : HabitPolicy) (c p : Bool) (u a : ℕ)
    → not (c && p) ≡ true
    → a ≤ u * 86400
    → practised policy c p a ≤ u * 86400000000
unfolding practised
practised_high policy true true u a f l = cc f
practised_high policy true false u a f l = omega arith
practised_high policy false p u a f l = omega arith

pub round_day_up : (n k : ℕ) → n ≤ k * 86400 → round_parts n 86400 ≤ k
unfolding round_parts
round_day_up n k h = ground arith

pub round_day_down : (n k : ℕ) → k * 86400 ≤ n → k ≤ round_parts n 86400
unfolding round_parts
round_day_down n k h = ground arith

pub round_gain_up : (n k : ℕ) → n ≤ k * 86400000000 → round_parts n 86400000000 ≤ k
unfolding round_parts
round_gain_up n k h = ground arith

pub round_gain_down : (n k : ℕ) → k * 86400000000 ≤ n → k ≤ round_parts n 86400000000
unfolding round_parts
round_gain_down n k h = ground arith
