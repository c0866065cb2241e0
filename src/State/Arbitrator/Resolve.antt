-- ===== src/State/Arbitrator/Resolve.antt =====
-- app/state/arbitrator.py: `_resolve_group`, the change that a group of proposals becomes.
use discord_personality_bot.Base.{
  ℕ, String, Bool, true, false, not, ◌&&◌, ◌||◌, Option, none, some, List, [], ◌∷◌, ◌++◌, map,
  nat_beq, if◌then◌else◌, text_test, ◌==◌, Result, ok, raised,
}
use discord_personality_bot.Base.Lists.{fromkeys}
use discord_personality_bot.Base.Int.{ℤ, pos, negsuc}
use discord_personality_bot.Number.{
  Float, fin, inf, neg_inf, zero_float, epsilon, float_lt, float_add, float_sub, float_abs, fsum,
  min_of,
}
use discord_personality_bot.State.Value.{
  Value, null, boolean, number, text, json, StateValue, numeric, numeric_of,
}
use discord_personality_bot.State.Policy.{DomainPolicy, ArbitrationPolicy, for_domain}
use discord_personality_bot.State.Proposal.{Operation, set, adjust, invalidate, Proposal}
use discord_personality_bot.State.Snapshot.{StateSnapshot, get}
use discord_personality_bot.State.Arbitrator.Records.{
  Reason, uninitialized_target, non_numeric_target, conflicting_operations, conflicting_set_values,
  delta_exceeds_policy, value_out_of_bounds, AcceptedChange, Rejection,
}
use discord_personality_bot.State.Arbitrator.Groups.{Group, members}

-- `_hashable`, as Python compares such values in a set: a Boolean equals 0 or 1, and the `repr` of
-- a container equals the text that reads so.
pub data Hashable : Type 0 where
  hash_none : Hashable
  hash_number : Float → Hashable
  hash_text : String → Hashable

unfoldable pub hashable : Value → Hashable
hashable null = hash_none
hashable (boolean true) = hash_number (fin (pos 1000000000))
hashable (boolean false) = hash_number zero_float
hashable (number x) = hash_number x
hashable (text s) = hash_text s
hashable (json s) = hash_text s

abbrev int_beq : ℤ → ℤ → Bool
int_beq (pos a) (pos b) = nat_beq a b
int_beq (negsuc a) (negsuc b) = nat_beq a b
int_beq _ _ = false

abbrev float_beq : Float → Float → Bool
float_beq (fin a) (fin b) = int_beq a b
float_beq inf inf = true
float_beq neg_inf neg_inf = true
float_beq _ _ = false

unfoldable pub hash_beq : Hashable → Hashable → Bool
hash_beq hash_none hash_none = true
hash_beq (hash_number x) (hash_number y) = float_beq x y
hash_beq (hash_text s) (hash_text t) = s == t
hash_beq _ _ = false

-- `len({_hashable(p.value) for p in proposals}) > 1`
unfoldable pub values_differ : Value → List Proposal → Bool
unfolding hash_beq hashable
values_differ v [] = false
values_differ v (p ∷ ps) = not (hash_beq (hashable v) (hashable p.value)) || values_differ v ps

abbrev operation_beq : Operation → Operation → Bool
operation_beq set set = true
operation_beq adjust adjust = true
operation_beq invalidate invalidate = true
operation_beq _ _ = false

-- `len({p.operation for p in proposals}) > 1`
unfoldable pub operations_differ : Operation → List Proposal → Bool
operations_differ o [] = false
operations_differ o (p ∷ ps) = not (operation_beq o p.operation) || operations_differ o ps

-- `_check_bounds`, true where it finds no error
unfoldable pub in_bounds : Value → DomainPolicy → Bool
in_bounds v policy = elim (numeric_of v) [
  | none ↦ true
  | some x ↦
      not (elim policy.value_min [ none ↦ false | some m ↦ float_lt x (float_sub m epsilon) ])
      && not (elim policy.value_max [ none ↦ false | some m ↦ float_lt (float_add m epsilon) x ])
]

-- `_check_delta`, true where it finds no error
unfoldable pub in_delta : Float → DomainPolicy → Bool
in_delta delta policy = elim policy.max_delta_per_event [
  | none ↦ true
  | some limit ↦ not (float_lt (float_add limit epsilon) (float_abs delta))
]

-- What a group becomes: the new value, and the change of a number.
pub record Resolution : Type 0 where
  pub new_value : Value
  pub delta : Option Float

abbrev pub resolved : Value → Option Float → Result Reason Resolution
resolved v d = ok (record { new_value = v; delta = d })

-- The change that a `set` of a number makes to a number.
unfoldable pub set_delta : Option StateValue → Value → Option Float
unfolding numeric
set_delta none v = none
set_delta (some current) v = elim (numeric current) [
  | none ↦ none
  | some base ↦ elim (numeric_of v) [ none ↦ none | some x ↦ some (float_sub x base) ]
]

unfoldable pub resolve_set : DomainPolicy → Option StateValue → Group → Result Reason Resolution
resolve_set policy current g =
    if values_differ g.first.value g.rest
    then raised conflicting_set_values
    else if not (in_bounds g.first.value policy)
    then raised value_out_of_bounds
    else elim (set_delta current g.first.value) [
      | none ↦ resolved g.first.value none
      | some d ↦
          if in_delta d policy then resolved g.first.value (some d) else raised delta_exceeds_policy
    ]

unfoldable pub resolve_invalidate : Option StateValue → Result Reason Resolution
resolve_invalidate none = raised uninitialized_target
resolve_invalidate (some current) = resolved null none

-- `float(p.magnitude or 0.0)`
unfoldable pub magnitude_or_zero : Proposal → Float
magnitude_or_zero p = elim p.magnitude [ none ↦ zero_float | some m ↦ m ]

unfoldable pub total_magnitude : Group → Float
unfolding magnitude_or_zero members
total_magnitude g = fsum (map magnitude_or_zero (members g))

-- The limits on an `adjust` of the number `base` by `delta`.
unfoldable pub adjust_number : DomainPolicy → Float → Float → Result Reason Resolution
adjust_number policy base delta =
    if not (in_delta delta policy)
    then raised delta_exceeds_policy
    else if not (in_bounds (number (float_add base delta)) policy)
    then raised value_out_of_bounds
    else resolved (number (float_add base delta)) (some delta)

unfoldable pub resolve_adjust : DomainPolicy → Option StateValue → Group → Result Reason Resolution
resolve_adjust policy none g = raised uninitialized_target
resolve_adjust policy (some current) g = elim (numeric current) [
  | none ↦ raised non_numeric_target
  | some base ↦ adjust_number policy base (total_magnitude g)
]

unfoldable pub resolve : DomainPolicy → Option StateValue → Group → Result Reason Resolution
resolve policy current g =
    if operations_differ g.first.operation g.rest
    then raised conflicting_operations
    else elim g.first.operation [
      | set ↦ resolve_set policy current g
      | adjust ↦ resolve_adjust policy current g
      | invalidate ↦ resolve_invalidate current
    ]

unfoldable pub confidences : List Proposal → List Float
confidences [] = []
confidences (p ∷ ps) = elim p.confidence [ none ↦ confidences ps | some c ↦ c ∷ confidences ps ]

unfoldable pub reasons_of : List Proposal → List String
reasons_of [] = []
reasons_of (p ∷ ps) = p.reason_codes ++ reasons_of ps

unfoldable pub evidence_of : List Proposal → List String
evidence_of [] = []
evidence_of (p ∷ ps) = p.evidence_ids ++ evidence_of ps

-- `ids_`
unfoldable pub ids_of : List Proposal → List ℕ
ids_of ps = map (λ p. p.proposal_id) ps

unfoldable pub accept_group : Option StateValue → Group → Resolution → AcceptedChange
unfolding members ids_of confidences reasons_of evidence_of
accept_group current g r = record {
  domain = g.key.0;
  key = g.key.1;
  operation = g.first.operation;
  previous_value = elim current [ none ↦ null | some c ↦ c.value ];
  new_value = r.new_value;
  delta = r.delta;
  confidence = min_of (confidences (members g));
  expected_version = elim current [ none ↦ none | some c ↦ some c.version ];
  source_module = g.first.source_module;
  source_event_id = g.first.source_event_id;
  proposal_id = g.first.proposal_id;
  merged_proposal_ids = ids_of (members g);
  reason_codes = fromkeys (reasons_of (members g));
  evidence_ids = fromkeys (evidence_of (members g));
}

unfoldable pub reject_group : Group → Reason → Rejection
unfolding members ids_of
reject_group g reason = record {
  reason_code = reason;
  proposal_ids = ids_of (members g);
  domain = g.key.0;
  key = g.key.1;
  source_modules = fromkeys (map (λ p. p.source_module) (members g));
}

-- The second loop of `arbitrate`, over the groups.
unfoldable pub resolve_all :
    ArbitrationPolicy → StateSnapshot → List Group → List AcceptedChange × List Rejection
resolve_all policy snapshot [] = ([], [])
resolve_all policy snapshot (g ∷ gs) =
    let (accepted, rejected) = resolve_all policy snapshot gs in
    elim (resolve (for_domain policy g.key.0) (get snapshot g.key) g) [
      | ok r ↦ (accept_group (get snapshot g.key) g r ∷ accepted, rejected)
      | raised reason ↦ (accepted, reject_group g reason ∷ rejected)
    ]
