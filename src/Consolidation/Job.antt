-- ===== src/Consolidation/Job.antt =====
-- app/consolidation/job.py: committed changes become evidence, evidence becomes candidates, and after
-- a review, of which this takes what was committed, the candidates are promoted.
pub mod Tracing
pub mod Promoting
pub mod Patience
use discord_personality_bot.Base.{
  ℕ, suc, ◌+◌, ◌-◌, String, ◌&&◌, Bool, true, false, not, Option, none, some, List, [], ◌∷◌, ◌++◌,
  map, ltb, leb, ◌==◌, text_test, key_test, number_test, Key, if◌then◌else◌,
}
use discord_personality_bot.Text.{str_lt}
use discord_personality_bot.Base.Int.{ℤ, pos, ltb_ℤ, ◌+ℤ◌}
use discord_personality_bot.Base.Dict.{Dict, lookup, insert}
use discord_personality_bot.Base.Lists.{fromkeys, sum_over, keep, length}
use discord_personality_bot.Base.Sort.{sort}
use discord_personality_bot.Consolidation.Dynamics.{Direction, up, down, distance}
use discord_personality_bot.Consolidation.Candidates.{
  Candidate, expired, open_candidate, create, change, resolve, all_accumulating,
}
use discord_personality_bot.Consolidation.Gate.{is_expired, mood_is_ordinary}
use discord_personality_bot.Consolidation.Growth.{
  GrowthPolicy, Ledger, View, DeepUpdate, apply_committed,
}
use discord_personality_bot.Consolidation.Shifts.{ValueShift, apply_shifts}
use discord_personality_bot.Consolidation.Scanning.{
  Tallies, Row, JobPolicy, tally, note_row, scan_rows, in_order, observe_each, observe_all,
}
use discord_personality_bot.Consolidation.Adaptations.{
  AdaptationRules, Adaptation, Evidence, StateChange, evidence_from_change, signed,
  adaptation_named, observe, last_of,
}

-- `_Tally.direction`: the sign of the sum of the directions.
unfoldable pub direction_sum : List Evidence → ℤ
unfolding ◌+ℤ◌
direction_sum [] = pos 0
direction_sum (e ∷ es) = signed e.direction 1 +ℤ direction_sum es

unfoldable pub tally_direction : List Evidence → Option Direction
unfolding direction_sum
tally_direction es =
    if ltb_ℤ (pos 0) (direction_sum es)
    then some up
    else if ltb_ℤ (direction_sum es) (pos 0)
    then some down
    else none

-- What a tally adds to a candidate that is open.
unfoldable pub joined : ℕ → ℕ → List Evidence → Candidate → Candidate
unfolding fromkeys last_of keep
joined now magnitude es c = record c {
  pattern_count = c.pattern_count + 1;
  contexts = fromkeys (c.contexts ++ fromkeys (map (λ (e : Evidence). e.context) es));
  evidence_ids = last_of 50 (fromkeys (c.evidence_ids ++ map (λ (e : Evidence). e.evidence_id) es));
  outcome_weight = c.outcome_weight + sum_over (λ (e : Evidence). e.outcome_weight) es;
  mood_independent_count =
      c.mood_independent_count + length (keep (λ (e : Evidence). e.mood_independent) es);
  magnitude = magnitude;
  last_seen_at = now;
}

abbrev target_in : String → String → Dict String (String × Direction) → List (Key × Direction)
target_in domain name targets = elim (lookup name targets) [
  | none ↦ []
  | some (key, sign) ↦ ((domain, key), sign) ∷ []
]

-- `_deep_targets`
unfoldable pub deep_targets : JobPolicy → String → List (Key × Direction)
unfolding lookup
deep_targets policy name =
    target_in "personality" name policy.adaptation_to_trait
    ++ (target_in "values" name policy.adaptation_to_value
        ++ target_in "attachment_disposition" name policy.adaptation_to_disposition)

-- `direction if weight >= 0 else -direction`
abbrev pub turned : Direction → Direction → Direction
turned up d = d
turned down up = down
turned down down = up

-- The table of the candidates, the next identifier, and how many were raised.
pub record Raising : Type 0 where
  pub rows : List Candidate
  pub next_id : ℕ
  pub raised : ℕ

-- A target of a tally: its open candidate, or a new one, takes the evidence.
unfoldable pub raise_target :
    ℕ → String → ℕ → List Evidence → Direction → Key × Direction → Raising → Raising
unfolding open_candidate create change joined
raise_target now name magnitude es direction ((domain, key), sign) s =
    let d = turned sign direction in
    elim (open_candidate domain key d s.rows) [
      | some c ↦ record s { rows = change c.candidate_id (joined now magnitude es) s.rows }
      | none ↦ record {
        rows =
            change s.next_id (joined now magnitude es)
              (s.rows ++ create s.next_id domain key d (some name) now ∷ []);
        next_id = s.next_id + 1;
        raised = s.raised + 1;
      }
    ]

unfoldable pub raise_targets :
    ℕ → String → ℕ → List Evidence → Direction → List (Key × Direction) → Raising → Raising
unfolding raise_target
raise_targets now name magnitude es direction [] s = s
raise_targets now name magnitude es direction (t ∷ ts) s =
    raise_targets now name magnitude es direction ts
      (raise_target now name magnitude es direction t s)

-- A tally without a direction, or of an adaptation without a row, raises nothing.
unfoldable pub raise_tally :
    JobPolicy → ℕ → List Adaptation → String → List Evidence → Raising → Raising
unfolding raise_targets tally_direction adaptation_named deep_targets
raise_tally policy now adaptations name es s = elim (tally_direction es) [
  | none ↦ s
  | some direction ↦ elim (adaptation_named name adaptations) [
    | none ↦ s
    | some a ↦
        raise_targets now name (distance a.value a.baseline) es direction (deep_targets policy name)
          s
  ]
]

-- `_raise_candidates`
unfoldable pub raise_candidates : JobPolicy → ℕ → List Adaptation → Tallies → Raising → Raising
unfolding raise_tally
raise_candidates policy now adaptations [] s = s
raise_candidates policy now adaptations ((name, es) ∷ tallies) s =
    raise_candidates policy now adaptations tallies (raise_tally policy now adaptations name es s)

unfoldable pub expire_each : JobPolicy → ℕ → List Candidate → List Candidate → List Candidate
unfolding is_expired resolve
expire_each policy now [] rows = rows
expire_each policy now (c ∷ cs) rows = expire_each policy now cs (
    if is_expired policy.growth.gate (now - c.last_seen_at)
    then resolve c.candidate_id expired now rows
    else rows)

-- `_expire_stale_candidates`
unfoldable pub expire_stale : JobPolicy → ℕ → List Candidate → List Candidate
unfolding expire_each all_accumulating
expire_stale policy now rows = expire_each policy now (all_accumulating rows) rows

-- What a run reads and writes.
pub record Life : Type 0 where
  pub ledger : Ledger
  pub adaptations : List Adaptation
  pub next_id : ℕ

-- The steps of a run before its review. The adaptations are stamped with what the clock shows, and
-- all else with the moment of the run.
unfoldable pub prepare : JobPolicy → ℕ → ℕ → Option ℕ → List Row → Life → Life
unfolding scan_rows in_order observe_all raise_candidates expire_stale
prepare policy clock now mood rows life =
    let tallies = in_order (scan_rows policy mood rows []) in
    let adaptations = observe_all policy.adaptation clock tallies life.adaptations in
    let s =
      raise_candidates policy now adaptations tallies
        (record { rows = life.ledger.candidates; next_id = life.next_id; raised = 0 }) in
    record {
      ledger = record life.ledger { candidates = expire_stale policy now s.rows };
      adaptations = adaptations;
      next_id = s.next_id;
    }

-- `run`, of a life whose traits and values are seeded: the review is an event for the processor, of
-- which this takes the committed values. The themes and the facts of the memory are left out.
unfoldable pub run :
    JobPolicy
    → ℕ
    → ℕ
    → Option ℕ
    → List Row
    → (Life → View × ℕ)
    → Life
    → List DeepUpdate × List ValueShift × Life
unfolding prepare apply_committed apply_shifts
run policy clock now mood rows review life =
    let ready = prepare policy clock now mood rows life in
    let (committed, run_id) = review ready in
    let (updates, ledger) =
      apply_committed policy.growth committed (some run_id) now ready.ledger in
    let (shifts, ledger') = apply_shifts policy.growth committed (some run_id) now ledger in
    (updates, shifts, record ready { ledger = ledger' })
