-- ===== src/State/Payload.antt =====
-- app/state/snapshot.py: `to_payload` and `from_payload`, the form in which a snapshot is stored.
-- The instants are not turned into texts.
pub mod Nested
pub mod RoundTrip
use discord_personality_bot.Base.{
  ℕ, String, Option, none, some, List, [], ◌∷◌, Key, key_test, text_test,
}
use discord_personality_bot.Base.Dict.{Dict, lookup, insert}
use discord_personality_bot.Number.{Float}
use discord_personality_bot.State.Value.{Value, StateValue}
use discord_personality_bot.State.Snapshot.{StateSnapshot}

-- What is stored of a value.
pub record Entry : Type 0 where
  pub value : Value
  pub confidence : Option Float
  pub version : ℕ
  pub updated_at : ℕ

abbrev pub Payload : Type 0
Payload = Dict String (Dict String Entry)

unfoldable pub entry_of : StateValue → Entry
entry_of v = record {
  value = v.value;
  confidence = v.confidence;
  version = v.version;
  updated_at = v.updated_at;
}

abbrev pub or_empty : Option (Dict String Entry) → Dict String Entry
or_empty none = []
or_empty (some entries) = entries

-- `payload.setdefault(domain, {})[key] = …`
unfoldable pub add_entry : Key → Entry → Payload → Payload
add_entry (domain, key) e payload =
    insert domain (insert key e (or_empty (lookup domain payload))) payload

unfoldable pub add_entries : Dict Key StateValue → Payload → Payload
unfolding add_entry entry_of
add_entries [] payload = payload
add_entries ((k, v) ∷ values) payload = add_entries values (add_entry k (entry_of v) payload)

-- `to_payload`
unfoldable pub to_payload : StateSnapshot → Payload
unfolding add_entries
to_payload s = add_entries s.values []

-- The value that a stored entry becomes.
unfoldable pub restored : Entry → StateValue
restored e = record {
  value = e.value;
  confidence = e.confidence;
  version = e.version;
  created_at = e.updated_at;
  updated_at = e.updated_at;
  updated_by_run = none;
  updated_by_event = none;
}

unfoldable pub restore_keys : String → Dict String Entry → Dict Key StateValue → Dict Key StateValue
unfolding restored
restore_keys domain [] values = values
restore_keys domain ((key, e) ∷ entries) values =
    restore_keys domain entries (insert (domain, key) (restored e) values)

unfoldable pub restore_domains : Payload → Dict Key StateValue → Dict Key StateValue
unfolding restore_keys
restore_domains [] values = values
restore_domains ((domain, entries) ∷ payload) values =
    restore_domains payload (restore_keys domain entries values)

-- `from_payload`
unfoldable pub from_payload : ℕ → ℕ → Payload → Option ℕ → StateSnapshot
unfolding restore_domains
from_payload snapshot_id created_at payload root_event_id = record {
  snapshot_id = snapshot_id;
  created_at = created_at;
  root_event_id = root_event_id;
  values = restore_domains payload [];
}
