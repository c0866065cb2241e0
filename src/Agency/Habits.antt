-- ===== src/Agency/Habits.antt =====
-- app/agency/habits.py, with the rows of app/storage/repositories/agency.py. Automaticity is a number
-- of millionths, an instant a number of seconds; between two roundings it is exact.
pub mod Closure
pub mod Rates
pub mod Histories
use Prim.Native.Nat.{max, min}
use discord_personality_bot.Base.{
  ℕ, ◌+◌, ◌-◌, ◌*◌, suc, String, Bool, true, false, not, ◌&&◌, ◌||◌, Option, none, some, List, [],
  ◌∷◌, ◌++◌, map, ltb, leb, nat_beq, ◌==◌, text_test, if◌then◌else◌, Result, ok, raised,
}
use discord_personality_bot.Base.Lists.{keep}
use discord_personality_bot.Base.Sort.{sort}
use discord_personality_bot.Jobs.Scheduler.{first}
use discord_personality_bot.Consolidation.Dynamics.{round_parts}

pub data HabitStatus : Type 0 where
  forming established dormant extinguished : HabitStatus

pub record HabitPolicy : Type 0 where
  pub automaticity_gain : ℕ
  pub automaticity_ceiling : ℕ
  pub decay_per_idle_day : ℕ
  pub trace_floor : ℕ
  pub established_at : ℕ
  pub automatic_trigger : ℕ

pub record Habit : Type 0 where
  pub habit_id : ℕ
  pub name : String
  pub cue : String
  pub action : String
  pub automaticity : ℕ
  pub repetitions : ℕ
  pub cue_encounters : ℕ
  pub context_available : Bool
  pub last_performed_at : Option ℕ
  pub last_cue_at : Option ℕ
  pub created_at : ℕ
  pub updated_at : ℕ
  pub status : HabitStatus

-- The table, and the supply of its identifiers.
pub record Habits : Type 0 where
  pub rows : List Habit
  pub next_id : ℕ

-- `_decayed`, in parts of which 86400 (the seconds of a day) are a millionth
unfoldable pub decayed : HabitPolicy → ℕ → Habit → ℕ
decayed policy now h =
    let idle = now - (elim h.last_performed_at [ none ↦ h.created_at | some t ↦ t ]) in
    if nat_beq idle 0
    then h.automaticity * 86400
    else max (min policy.trace_floor h.automaticity * 86400)
        (h.automaticity * 86400 - policy.decay_per_idle_day * idle)

-- The automaticity of `observe`, in parts of which 86400000000 are a millionth: only the pairing of
-- cue and action builds it.
unfoldable pub practised : HabitPolicy → Bool → Bool → ℕ → ℕ
practised policy true true a =
    min (policy.automaticity_ceiling * 86400000000)
      (a * 1000000 + policy.automaticity_gain * (policy.automaticity_ceiling * 86400 - a))
practised policy _ _ a = a * 1000000

-- The row that `observe` writes
unfoldable pub observed : HabitPolicy → ℕ → Bool → Bool → Habit → Habit
unfolding decayed practised round_parts
observed policy now cue_present performed h =
    let a = practised policy cue_present performed (decayed policy now h) in
    record h {
      automaticity = round_parts a 86400000000;
      repetitions = if performed then suc h.repetitions else h.repetitions;
      cue_encounters = if cue_present then suc h.cue_encounters else h.cue_encounters;
      last_performed_at = if performed then some now else h.last_performed_at;
      last_cue_at = if cue_present then some now else h.last_cue_at;
      status = if leb (policy.established_at * 86400000000) a then established else h.status;
      updated_at = now;
    }

-- The row that `cue_encountered` writes, and whether the habit fires
unfoldable pub encountered : HabitPolicy → ℕ → Habit → Habit
unfolding decayed round_parts
encountered policy now h = record h {
  automaticity = round_parts (decayed policy now h) 86400;
  cue_encounters = suc h.cue_encounters;
  last_cue_at = some now;
  updated_at = now;
}

unfoldable pub fires : HabitPolicy → ℕ → Habit → Bool
unfolding decayed
fires policy now h =
    h.context_available && leb (policy.automatic_trigger * 86400) (decayed policy now h)

-- The row that `set_context_available` writes
unfoldable pub with_context : ℕ → Bool → Habit → Habit
with_context now available h = record h {
  context_available = available;
  status = if available then h.status else dormant;
  updated_at = now;
}

-- The row that `apply_disuse` writes, where the decay is more than 1e-9 of a unit
unfoldable pub disused : HabitPolicy → ℕ → Habit → Habit
unfolding decayed round_parts
disused policy now h = record h {
  automaticity = round_parts (decayed policy now h) 86400;
  updated_at = now;
}

unfoldable pub is_disused : HabitPolicy → ℕ → Habit → Bool
unfolding decayed
is_disused policy now h = ltb 86400 ((h.automaticity * 86400 - decayed policy now h) * 1000)

-- `HabitRepository.update`: the row with the identifier takes the fields of the statement.
unfoldable pub update : Habit → List Habit → List Habit
update h [] = []
update h (r ∷ rows) =
    let rest = update h rows in
    if nat_beq r.habit_id h.habit_id
    then record r {
      automaticity = h.automaticity;
      repetitions = h.repetitions;
      cue_encounters = h.cue_encounters;
      context_available = h.context_available;
      last_performed_at = h.last_performed_at;
      last_cue_at = h.last_cue_at;
      status = h.status;
      updated_at = h.updated_at;
    }
      ∷ rest
    else r ∷ rest

unfoldable pub update_all : List Habit → List Habit → List Habit
unfolding update
update_all [] rows = rows
update_all (h ∷ hs) rows = update_all hs (update h rows)

-- `find`, `get`
unfoldable pub find : String → String → List Habit → Option Habit
find name cue [] = none
find name cue (h ∷ rows) =
    let rest = find name cue rows in if h.name == name && h.cue == cue then some h else rest

unfoldable pub get : ℕ → List Habit → Option Habit
get i [] = none
get i (h ∷ rows) = let rest = get i rows in if nat_beq h.habit_id i then some h else rest

-- `ensure`: the row as it is, or a fresh one with the defaults of the table
unfoldable pub ensure : String → String → String → ℕ → Habits → Habit × Habits
unfolding find
ensure name cue action now s = elim (find name cue s.rows) [
  | some h ↦ (h, record s { next_id = suc s.next_id })
  | none ↦
      let h : Habit = record {
        habit_id = s.next_id;
        name = name;
        cue = cue;
        action = action;
        automaticity = 0;
        repetitions = 0;
        cue_encounters = 0;
        context_available = true;
        last_performed_at = none;
        last_cue_at = none;
        created_at = now;
        updated_at = now;
        status = forming;
      } in
      (h, record { rows = s.rows ++ h ∷ []; next_id = suc s.next_id })
]

-- `by_cue`, `all`
unfoldable pub by_cue : String → List Habit → List Habit
unfolding keep sort
by_cue cue rows =
    sort (λ (h j : Habit). ltb j.automaticity h.automaticity)
      (keep (λ (h : Habit). h.cue == cue) rows)

unfoldable pub all : List Habit → List Habit
unfolding sort first
all rows = first 500 (sort (λ (h j : Habit). ltb h.created_at j.created_at) rows)

-- The calls of the engine that write.
pub data HabitCall : Type 0 where
  observe : String → String → String → Bool → Bool → HabitCall
  cue_encountered : String → HabitCall
  set_context_available : ℕ → Bool → HabitCall
  apply_disuse : HabitCall

pub data HabitError : Type 0 where
  unknown_habit : ℕ → HabitError

-- What a call answers: the habits that fired, or `KeyError`.
unfoldable pub call : HabitPolicy → ℕ → HabitCall → Habits → Result HabitError (List Habit) × Habits
unfolding observed encountered fires with_context disused is_disused update update_all get ensure
    by_cue all keep
call policy now (observe name cue action cue_present performed) s =
    let (h, s') = ensure name cue action now s in
    (ok [], record s' { rows = update (observed policy now cue_present performed h) s'.rows })
call policy now (cue_encountered cue) s =
    let found = by_cue cue s.rows in
    (
      ok (keep (fires policy now) found),
      record s { rows = update_all (map (encountered policy now) found) s.rows },
    )
call policy now (set_context_available i available) s = elim (get i s.rows) [
  | none ↦ (raised (unknown_habit i), s)
  | some h ↦ (ok [], record s { rows = update (with_context now available h) s.rows })
]
call policy now apply_disuse s =
    let due = keep (is_disused policy now) (all s.rows) in
    (ok [], record s { rows = update_all (map (disused policy now) due) s.rows })
