-- ===== src/Consolidation/Shifts.antt =====
-- `ValueEngine.apply_committed` of app/consolidation/values.py, with the priorities and their history
-- of app/storage/repositories/growth.py: after a commit, a candidate for a value that has passed the
-- gate is promoted, and the ledger takes every committed priority.
pub mod Deserving
use discord_personality_bot.Base.{
  ℕ, String, ◌&&◌, Option, none, some, List, [], ◌∷◌, ◌++◌, map, ◌==◌, text_test, key_test,
  if◌then◌else◌,
}
use discord_personality_bot.Base.Dict.{Dict, lookup, insert}
use discord_personality_bot.Consolidation.Candidates.{
  Candidate, target, all_accumulating, promoted, resolve,
}
use discord_personality_bot.Consolidation.Gate.{GateDecision, evaluate}
use discord_personality_bot.Consolidation.Growth.{GrowthPolicy, View}
use discord_personality_bot.Consolidation.Ledger.{Ledger, ValuePriority, ValueChange}

-- `set_priority`
unfoldable pub set_priority : String → ℕ → ℕ → List ValuePriority → List ValuePriority
set_priority name priority now [] = []
set_priority name priority now (v ∷ vs) =
    (if v.name == name then record v { priority = priority; updated_at = now } else v)
    ∷ set_priority name priority now vs

-- `{value.name: value.priority for value in …}`
abbrev pub priority_by_name : List ValuePriority → Dict String ℕ
priority_by_name vs = map (λ (v : ValuePriority). (v.name, v.priority)) vs

-- The priority that a committed target had, if it is a value of the ledger.
unfoldable pub known_priority : String → String → Dict String ℕ → Option ℕ
unfolding lookup
known_priority domain key before = if domain == "values" then lookup key before else none

-- The committed priorities in the ledger, each with its row of the history.
unfoldable pub set_each :
    Dict String ℕ → ℕ → Option ℕ → ℕ → View → Dict String ℕ × Ledger → Dict String ℕ × Ledger
unfolding known_priority set_priority insert
set_each before candidate_id run_id now [] state = state
set_each before candidate_id run_id now (((domain, key), x) ∷ committed) (after, ledger) =
    set_each before candidate_id run_id now committed (elim (known_priority domain key before) [
      | none ↦ (after, ledger)
      | some previous ↦ (
        insert key x after,
        record ledger {
          values = set_priority key x now ledger.values;
          value_history =
              ledger.value_history
              ++ record {
                value_name = key;
                previous_priority = some previous;
                new_priority = x;
                candidate_id = candidate_id;
                run_id = run_id;
                recorded_at = now;
              }
                ∷ [];
        },
      )
    ])

-- `ValueShift`
pub record ValueShift : Type 0 where
  pub candidate : Candidate
  pub raised : String
  pub before : Dict String ℕ
  pub after : Dict String ℕ
  pub decision : GateDecision

-- The value that was committed for a candidate for a value that passes the gate.
unfoldable pub shiftable : GrowthPolicy → View → Candidate → Option ℕ
unfolding lookup evaluate
shiftable policy committed c =
    if c.target_domain == "values" && (evaluate policy.gate c).passed
    then lookup (target c) committed
    else none

-- One shift: its record, and the ledger after it.
unfoldable pub shift : GrowthPolicy → View → Option ℕ → ℕ → Candidate → Ledger → ValueShift × Ledger
unfolding set_each resolve evaluate
shift policy committed run_id now c ledger =
    let before = priority_by_name ledger.values in
    let (after, ledger') = set_each before c.candidate_id run_id now committed (before, ledger) in
    (
      record {
        candidate = c;
        raised = c.target_key;
        before = before;
        after = after;
        decision = evaluate policy.gate c;
      },
      record ledger' { candidates = resolve c.candidate_id promoted now ledger'.candidates },
    )

unfoldable pub shift_each :
    GrowthPolicy → View → Option ℕ → ℕ → List Candidate → Ledger → List ValueShift × Ledger
unfolding shiftable shift
shift_each policy committed run_id now [] ledger = ([], ledger)
shift_each policy committed run_id now (c ∷ cs) ledger = elim (shiftable policy committed c) [
  | none ↦ shift_each policy committed run_id now cs ledger
  | some x ↦
      let (one, ledger') = shift policy committed run_id now c ledger in
      let (shifts, ledger'') = shift_each policy committed run_id now cs ledger' in
      (one ∷ shifts, ledger'')
]

-- `ValueEngine.apply_committed`
unfoldable pub apply_shifts : GrowthPolicy → View → Option ℕ → ℕ → Ledger → List ValueShift × Ledger
unfolding shift_each all_accumulating
apply_shifts policy committed run_id now ledger =
    shift_each policy committed run_id now (all_accumulating ledger.candidates) ledger
