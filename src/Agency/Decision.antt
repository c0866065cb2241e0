-- ===== src/Agency/Decision.antt =====
-- app/agency/decision.py, with the table of app/storage/repositories/agency.py. The values of
-- candidates, the band of a tie and the noise are numbers of a common unit, a millionth where a value is
-- rounded to six digits; the random stream is the function of its draws.
pub mod Choice
use Prim.Native.Nat.{min}
use discord_personality_bot.Base.{
  ℕ, ◌+◌, ◌-◌, ◌*◌, suc, String, Bool, true, false, Option, none, some, List, [], ◌∷◌, ◌++◌, map,
  ltb, leb, nat_beq, if◌then◌else◌,
}
use discord_personality_bot.Base.Lists.{keep, length}
use discord_personality_bot.Base.Sort.{sort}
use discord_personality_bot.Consolidation.Dynamics.{Direction, up, down, moved}

pub data DecisionRoute : Type 0 where
  goal_directed habitual reactive : DecisionRoute

pub record ActionCandidate : Type 0 where
  pub action : String
  pub route : DecisionRoute
  pub expected_value : ℕ
  pub goal_id : Option ℕ
  pub habit_id : Option ℕ
  pub reason : String

pub record DecisionPolicy : Type 0 where
  pub tie_threshold : ℕ
  pub learning_rate : ℕ

pub record DecisionRecord : Type 0 where
  pub decision_id : ℕ
  pub chosen : ActionCandidate
  pub considered : List ActionCandidate
  pub was_close : Bool
  pub decided_at : ℕ
  pub run_id : Option ℕ
  pub event_id : Option ℕ

-- A row of `decisions`
pub record DecisionRow : Type 0 where
  pub decision : DecisionRecord
  pub outcome_value : Option ℕ
  pub prediction_error : Option (Direction × ℕ)
  pub resolved_at : Option ℕ

-- The table, the supply of identifiers, and how many numbers the stream has given.
pub record Engine : Type 0 where
  pub rows : List DecisionRow
  pub next_id : ℕ
  pub drawn : ℕ

abbrev pub by_value : ActionCandidate → ActionCandidate → Bool
by_value a b = ltb b.expected_value a.expected_value

-- `contenders`: those within the band below the best
unfoldable pub contenders :
    DecisionPolicy → ActionCandidate → List ActionCandidate → List ActionCandidate
unfolding keep
contenders policy best ranked =
    keep
      (λ (c : ActionCandidate). leb (best.expected_value - c.expected_value) policy.tie_threshold)
      ranked

-- `noisy`: each contender takes the next number of the stream.
unfoldable pub noisy : (ℕ → ℕ) → ℕ → List ActionCandidate → List (ActionCandidate × ℕ)
noisy uniform n [] = []
noisy uniform n (c ∷ cs) = (c, c.expected_value + uniform n) ∷ noisy uniform (suc n) cs

-- `max(noisy, key=…)`: the first of the largest
unfoldable pub largest : ActionCandidate × ℕ → List (ActionCandidate × ℕ) → ActionCandidate × ℕ
largest best [] = best
largest best (c ∷ cs) = largest (if ltb best.1 c.1 then c else best) cs

unfoldable pub favourite : ActionCandidate → List (ActionCandidate × ℕ) → ActionCandidate
unfolding largest
favourite best [] = best
favourite best (c ∷ cs) = (largest c cs).0

-- `ranked[0]`, where there is one
abbrev pub head_or : ActionCandidate → List ActionCandidate → ActionCandidate
head_or c [] = c
head_or c (d ∷ ds) = d

-- The call of `choose`: its optional arguments, and the instant that its clock reads.
pub record Call : Type 0 where
  pub run_id : Option ℕ
  pub event_id : Option ℕ
  pub records : Bool
  pub at : ℕ

-- `DecisionRepository.record`
unfoldable pub record_decision : DecisionRecord → Engine → Engine
record_decision d s = record s {
  rows =
      s.rows
      ++ record { decision = d; outcome_value = none; prediction_error = none; resolved_at = none }
        ∷ [];
}

-- `choose`, where the stream gives `uniform k` as its number `k`
unfoldable pub choose :
    DecisionPolicy → (ℕ → ℕ) → Call → List ActionCandidate → Engine → Option DecisionRecord × Engine
unfolding sort contenders noisy favourite record_decision
choose policy uniform call [] s = (none, s)
choose policy uniform call (c ∷ cs) s =
    let ranked = sort by_value (c ∷ cs) in
    let best = head_or c ranked in
    let close = contenders policy best ranked in
    let was_close = ltb 1 (length close) in
    let decision : DecisionRecord = record {
      decision_id = s.next_id;
      chosen = if was_close then favourite best (noisy uniform s.drawn close) else best;
      considered = ranked;
      was_close = was_close;
      decided_at = call.at;
      run_id = call.run_id;
      event_id = call.event_id;
    } in
    let s' : Engine = record s {
      next_id = suc s.next_id;
      drawn = if was_close then s.drawn + length close else s.drawn;
    } in
    (some decision, if call.records then record_decision decision s' else s')

pub record Outcome : Type 0 where
  pub decision_id : ℕ
  pub achieved_value : ℕ
  pub expected_value : ℕ

-- `prediction_error`
abbrev pub prediction_error : Outcome → Direction × ℕ
prediction_error o =
    if ltb o.achieved_value o.expected_value
    then (down, o.expected_value - o.achieved_value)
    else (up, o.achieved_value - o.expected_value)

-- `DecisionRepository.resolve`
unfoldable pub resolve_row : Outcome → ℕ → List DecisionRow → List DecisionRow
resolve_row o now rows =
    map
      (λ (r : DecisionRow).
        if nat_beq r.decision.decision_id o.decision_id
        then record r {
          outcome_value = some o.achieved_value;
          prediction_error = some (prediction_error o);
          resolved_at = some now;
        }
        else r)
      rows

-- `resolve`
unfoldable pub resolve_decision : DecisionRecord → ℕ → ℕ → Engine → Outcome × Engine
unfolding resolve_row
resolve_decision d achieved now s =
    let o : Outcome = record {
      decision_id = d.decision_id;
      achieved_value = min 1000000 achieved;
      expected_value = d.chosen.expected_value;
    } in
    (o, record s { rows = resolve_row o now s.rows })

-- `updated_expectation`
unfoldable pub updated_expectation : DecisionPolicy → ℕ → Outcome → ℕ
unfolding moved
updated_expectation policy previous o =
    let (direction, size) = prediction_error o in
    moved previous direction (policy.learning_rate * size * 1000000)
