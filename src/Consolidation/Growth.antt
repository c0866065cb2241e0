-- ===== src/Consolidation/Growth.antt =====
-- app/consolidation/growth.py, with the traits and their history of
-- app/storage/repositories/growth.py. The engine proposes a step for a candidate that has passed the
-- gate, and writes its ledger only from what a transaction has committed.
pub mod Steps
pub mod Promotion
pub mod Baselines
use Prim.Native.Nat.{min}
use discord_personality_bot.Base.{
  ℕ, ◌+◌, ◌-◌, ◌*◌, String, Bool, true, false, not, ◌&&◌, ◌||◌, Option, none, some, List, [], ◌∷◌,
  ◌++◌, ltb, leb, nat_beq, ◌==◌, text_test, is_some, if◌then◌else◌, Key, key_test,
}
use discord_personality_bot.Base.Dict.{Dict, lookup}
use discord_personality_bot.Base.Sort.{sort}
use discord_personality_bot.Jobs.Scheduler.{first}
use discord_personality_bot.Consolidation.Dynamics.{
  Direction, damped_step, moved, distance, round_parts, midpoint,
}
use discord_personality_bot.Consolidation.Candidates.{
  Candidate, target, all_accumulating, promoted, resolve,
}
use discord_personality_bot.Consolidation.Gate.{GateRules, Condition, GateDecision, evaluate}
pub use discord_personality_bot.Consolidation.Ledger.{
  Trait, TraitChange, Theme, StepRules, NarrativeRules, GrowthPolicy, Ledger,
}

-- `OWNED_DOMAINS`
unfoldable pub is_owned : String → Bool
is_owned domain =
    (domain == "personality")
    || (domain == "narrative_identity")
    || (domain == "attachment_disposition")

-- `by_name`
unfoldable pub by_name : String → List Trait → Option Trait
by_name name [] = none
by_name name (t ∷ ts) = if t.name == name then some t else by_name name ts

-- The committed numbers of the snapshot of the run, by domain and key.
abbrev pub View : Type 0
View = Dict Key ℕ

-- `view.number(…, fallback) or fallback`, which reads a committed zero as the fallback
unfoldable pub number_or : Key → ℕ → View → ℕ
unfolding lookup
number_or key fallback view = elim (lookup key view) [
  | none ↦ fallback
  | some x ↦ if nat_beq x 0 then fallback else x
]

unfoldable pub fallback : Candidate → List Trait → ℕ
unfolding by_name
fallback c traits =
    if c.target_domain == "personality"
    then elim (by_name c.target_key traits) [ none ↦ midpoint | some t ↦ t.baseline ]
    else midpoint

-- `_current_value`
unfoldable pub current_value : Candidate → List Trait → View → ℕ
unfolding number_or fallback
current_value c traits view = number_or (target c) (fallback c traits) view

unfoldable pub rules_for : GrowthPolicy → Candidate → StepRules
rules_for policy c =
    if c.target_domain == "personality" then policy.personality else policy.disposition

-- `_next_value`
unfoldable pub next_value : GrowthPolicy → Candidate → ℕ → ℕ
unfolding moved damped_step rules_for
next_value policy c current =
    let rules = rules_for policy c in
    moved current c.direction
      (damped_step current c.direction rules.max_step rules.extremity_damping rules.max_step)

-- A proposal to set a value, with what the engine gives it.
pub record GrowthProposal : Type 0 where
  pub target : Key
  pub value : ℕ
  pub satisfied : List Condition
  pub evidence_ids : List ℕ
  pub confidence : Option ℕ

-- `_proposals_for`
unfoldable pub proposals_for : GrowthPolicy → List Trait → View → Candidate → List GrowthProposal
unfolding evaluate current_value next_value
proposals_for policy traits view c =
    let decision = evaluate policy.gate c in
    let current = current_value c traits view in
    let value = next_value policy c current in
    if not decision.passed
    then []
    else if nat_beq value current
    then []
    else record {
      target = target c;
      value = value;
      satisfied = decision.satisfied;
      evidence_ids = c.evidence_ids;
      confidence = some (min 1000000 (c.pattern_count * 100000));
    }
      ∷ []

abbrev stronger : Theme → Theme → Bool
stronger a b = ltb b.strength a.strength

unfoldable pub theme_proposals : NarrativeRules → View → List Theme → List GrowthProposal
unfolding number_or
theme_proposals rules view [] = []
theme_proposals rules view (t ∷ ts) =
    let rest = theme_proposals rules view ts in
    let current = number_or ("narrative_identity", t.theme) 0 view in
    let goal = min rules.max_strength t.strength in
    if ltb t.supporting_memory_count rules.min_supporting_memories
    then rest
    else if leb goal current
    then rest
    else record {
      target = ("narrative_identity", t.theme);
      value = min (current + rules.strength_step) goal;
      satisfied = [];
      evidence_ids = t.supporting_memory_ids;
      confidence = none;
    }
      ∷ rest

-- `_narrative_proposals`
unfoldable pub narrative_proposals : NarrativeRules → View → List Theme → List GrowthProposal
unfolding theme_proposals first sort
narrative_proposals rules view themes =
    theme_proposals rules view (first rules.max_themes (sort stronger themes))

unfoldable pub proposals_of :
    GrowthPolicy → List Trait → View → List Candidate → List GrowthProposal
unfolding is_owned proposals_for
proposals_of policy traits view [] = []
proposals_of policy traits view (c ∷ cs) =
    let rest = proposals_of policy traits view cs in
    if is_owned c.target_domain then proposals_for policy traits view c ++ rest else rest

-- `handle`
unfoldable pub handle : GrowthPolicy → List Theme → View → Ledger → List GrowthProposal
unfolding proposals_of narrative_proposals all_accumulating
handle policy themes view ledger =
    proposals_of policy ledger.traits view (all_accumulating ledger.candidates)
    ++ narrative_proposals policy.narrative view themes

-- `round(baseline + rate * (committed - baseline), 6)`
unfoldable pub followed : ℕ → ℕ → ℕ → ℕ
unfolding round_parts
followed rate baseline committed =
    if leb baseline committed
    then round_parts (baseline * 1000000 + rate * (committed - baseline)) 1000000
    else round_parts (baseline * 1000000 - rate * (baseline - committed)) 1000000

-- `set_baseline`
unfoldable pub set_baseline : String → ℕ → ℕ → List Trait → List Trait
set_baseline name baseline now [] = []
set_baseline name baseline now (t ∷ ts) =
    (if t.name == name then record t { baseline = baseline; updated_at = now } else t)
    ∷ set_baseline name baseline now ts

-- `DeepUpdate`
pub record DeepUpdate : Type 0 where
  pub candidate : Candidate
  pub new_value : ℕ
  pub decision : GateDecision

-- The rows of a trait whose baseline follows a committed value.
unfoldable pub follow : GrowthPolicy → Candidate → ℕ → Option ℕ → ℕ → Ledger → Ledger
unfolding by_name followed set_baseline
follow policy c committed run_id now ledger = elim (by_name c.target_key ledger.traits) [
  | none ↦ ledger
  | some t ↦
      let after = followed policy.baseline_follow_rate t.baseline committed in
      record ledger {
        traits = set_baseline t.name after now ledger.traits;
        history =
            ledger.history
            ++ record {
              trait = t.name;
              previous_value = t.baseline;
              new_value = committed;
              baseline_after = after;
              candidate_id = c.candidate_id;
              run_id = run_id;
              recorded_at = now;
            }
              ∷ [];
      }
]

-- `_promote`
unfoldable pub promote : GrowthPolicy → Candidate → ℕ → Option ℕ → ℕ → Ledger → Ledger
unfolding follow resolve
promote policy c committed run_id now ledger =
    let ledger' =
      if c.target_domain == "personality"
      then follow policy c committed run_id now ledger
      else ledger in
    record ledger' { candidates = resolve c.candidate_id promoted now ledger'.candidates }

-- The value that was committed for a candidate that may be promoted.
unfoldable pub promotable : GrowthPolicy → View → Candidate → Option ℕ
unfolding is_owned lookup evaluate
promotable policy committed c =
    if is_owned c.target_domain && (evaluate policy.gate c).passed
    then lookup (target c) committed
    else none

unfoldable pub apply_each :
    GrowthPolicy → View → Option ℕ → ℕ → List Candidate → Ledger → List DeepUpdate × Ledger
unfolding promotable promote
apply_each policy committed run_id now [] ledger = ([], ledger)
apply_each policy committed run_id now (c ∷ cs) ledger = elim (promotable policy committed c) [
  | none ↦ apply_each policy committed run_id now cs ledger
  | some x ↦
      let (updates, ledger') =
        apply_each policy committed run_id now cs (promote policy c x run_id now ledger) in
      (
        record { candidate = c; new_value = x; decision = evaluate policy.gate c } ∷ updates,
        ledger',
      )
]

-- `apply_committed`
unfoldable pub apply_committed :
    GrowthPolicy → View → Option ℕ → ℕ → Ledger → List DeepUpdate × Ledger
unfolding apply_each all_accumulating
apply_committed policy committed run_id now ledger =
    apply_each policy committed run_id now (all_accumulating ledger.candidates) ledger
