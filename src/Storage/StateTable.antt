-- ===== src/Storage/StateTable.antt =====
-- app/storage/repositories/state.py: the values of the state and the history of their changes.
use discord_personality_bot.Base.{
  ℕ, ◌+◌, Option, none, some, [], ◌∷◌, ◌++◌, Key, key_test, nat_beq, number_test, not, is_some,
  ◌||◌, Bool, map, if◌then◌else◌, Result, ok, raised,
}
use discord_personality_bot.Base.Dict.{Dict, lookup, insert}
use discord_personality_bot.Base.Lists.{contains}
use discord_personality_bot.Number.{Float}
use discord_personality_bot.State.Value.{Value, StateValue, stored_form}
use discord_personality_bot.Storage.Tables.{Tables, Run, ChangeRow}
use discord_personality_bot.Storage.Database.{
  Exception, concurrent_state_write, integrity_error, other_error, Exec, Action, write_tables,
}

-- The arguments of `write_value`, less the version that the caller expects.
pub record Write : Type 0 where
  pub target : Key
  pub value : Value
  pub confidence : Option Float
  pub at : ℕ
  pub run : Option ℕ
  pub event : Option ℕ

unfoldable pub inserted : Write → StateValue
inserted a = record {
  value = a.value;
  confidence = a.confidence;
  version = 1;
  created_at = a.at;
  updated_at = a.at;
  updated_by_run = a.run;
  updated_by_event = a.event;
}

unfoldable pub updated : Write → StateValue → StateValue
updated a row = record row {
  value = a.value;
  confidence = a.confidence;
  version = row.version + 1;
  updated_at = a.at;
  updated_by_run = a.run;
  updated_by_event = a.event;
}

-- `write_value` on the table: the new version, or the lost race. `None` expects no row.
unfoldable pub write_row :
    Write → Option ℕ → Dict Key StateValue → Result Exception (ℕ × Dict Key StateValue)
unfolding inserted updated
write_row a none rows = elim (lookup a.target rows) [
  | none ↦ ok (1, insert a.target (inserted a) rows)
  | some row ↦ raised concurrent_state_write
]
write_row a (some expected) rows = elim (lookup a.target rows) [
  | none ↦ raised concurrent_state_write
  | some row ↦
      if nat_beq row.version expected
      then ok (expected + 1, insert a.target (updated a row) rows)
      else raised concurrent_state_write
]

-- `write_value` of a value in its stored form.
unfoldable pub write_stored : Write → Option ℕ → Exec ℕ
unfolding write_row
write_stored a expected w = elim (write_row a expected w.tables.state_values) [
  | ok (version, rows) ↦ (ok version, record w { tables = record w.tables { state_values = rows } })
  | raised e ↦ (raised e, w)
]

unfoldable pub write_value : Write → Option ℕ → Exec ℕ
unfolding stored_form write_stored
write_value a expected w = elim (stored_form a.value) [
  | none ↦ (raised (other_error "OverflowError"), w)
  | some v ↦ write_stored (record a { value = v }) expected w
]

-- The constraints of `state_changes`: a run and an event that are stored, and a proposal that no
-- other row has.
unfoldable pub is_refused : ChangeRow → Tables → Bool
unfolding contains
is_refused row t =
    not (contains row.run_id (map (λ (r : Run). r.run_id) t.runs))
    || (not (is_some (lookup row.source_event_id t.events))
        || contains row.proposal_id (map (λ (r : ChangeRow). r.proposal_id) t.state_changes))

unfoldable pub record_change : ChangeRow → Action
unfolding is_refused
record_change row w =
    if is_refused row w.tables
    then (raised integrity_error, w)
    else write_tables (λ t. record t { state_changes = t.state_changes ++ row ∷ [] }) w
