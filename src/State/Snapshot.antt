-- ===== src/State/Snapshot.antt =====
-- app/state/snapshot.py: the state that one run reads, as it was when the run began. The order of
-- the entries is not observed by the code that is modelled.
use discord_personality_bot.Base.{ℕ, ◌+◌, Option, none, some, List, [], ◌∷◌, Key, key_test}
use discord_personality_bot.Base.Dict.{Dict, lookup, insert}
use discord_personality_bot.Number.{Float}
use discord_personality_bot.State.Value.{Value, StateValue, numeric}

pub record StateSnapshot : Type 0 where
  pub snapshot_id : ℕ
  pub created_at : ℕ
  pub root_event_id : Option ℕ
  pub values : Dict Key StateValue

-- `None` for a key that was never written: unknown is not zero.
unfoldable pub get : StateSnapshot → Key → Option StateValue
get s k = lookup k s.values

unfoldable pub version_of : StateSnapshot → Key → Option ℕ
unfolding get
version_of s k = elim (get s k) [ none ↦ none | some v ↦ some v.version ]

unfoldable pub number_of : StateSnapshot → Key → Option Float → Option Float
unfolding get
number_of s k default = elim (get s k) [ none ↦ default | some v ↦ numeric v ]

-- A change as `with_committed` takes it: the target, the new value and its confidence.
abbrev pub Change : Type 0
Change = Key × Value × Option Float

-- The entry that `with_committed` stores over the one that was there.
unfoldable pub merge_value : Option ℕ → ℕ → Option StateValue → Value → Option Float → StateValue
merge_value now taken_at none value confidence =
    let moment : ℕ = elim now [ none ↦ taken_at | some t ↦ t ] in
    record {
      value = value;
      confidence = confidence;
      version = 1;
      created_at = moment;
      updated_at = moment;
      updated_by_run = none;
      updated_by_event = none;
    }
merge_value now taken_at (some previous) value confidence = record previous {
  value = value;
  confidence = elim confidence [ none ↦ previous.confidence | some c ↦ some c ];
  version = previous.version + 1;
  updated_at = elim now [ none ↦ previous.updated_at | some t ↦ t ];
}

unfoldable pub merge_changes :
    Option ℕ → ℕ → List Change → Dict Key StateValue → Dict Key StateValue
unfolding merge_value
merge_changes now taken_at [] values = values
merge_changes now taken_at ((k, value, confidence) ∷ changes) values =
    merge_changes now taken_at changes
      (insert k (merge_value now taken_at (lookup k values) value confidence) values)

unfoldable pub with_committed : StateSnapshot → List Change → Option ℕ → StateSnapshot
unfolding merge_changes
with_committed s changes now = record s { values = merge_changes now s.created_at changes s.values }
