-- ===== src/Tests/Cases.antt =====
-- Concrete data for the examples.
use discord_personality_bot.Base.{ℕ, ◌+◌, String, false, Option, none, some, List, [], ◌∷◌}
use discord_personality_bot.Base.Int.{pos}
use discord_personality_bot.Number.{Float, fin}
use discord_personality_bot.State.Value.{Value, number, null, StateValue}
use discord_personality_bot.State.Policy.{ArbitrationPolicy}
use discord_personality_bot.State.Proposal.{Operation, set, adjust, normal, Proposal}
use discord_personality_bot.State.Snapshot.{StateSnapshot}
use discord_personality_bot.Events.Model.{Event, social, real_discord, p0}
use discord_personality_bot.Storage.Tables.{Run, RuntimeMode, running, no_rows}
use discord_personality_bot.Storage.Database.{World}

abbrev pub policy : ArbitrationPolicy
policy = record {
  policy_version = 1;
  defaults = record {
    value_min = some (fin (pos 0));
    value_max = some (fin (pos 1000000000));
    max_delta_per_event = some (fin (pos 300000000));
    requires_consolidation = false;
    min_evidence_count = 0;
  };
  domains = [];
}

abbrev pub proposal : ℕ → String → String → String → Operation → Value → Option Float → Proposal
proposal i writer domain key operation value magnitude = record {
  proposal_id = i;
  source_event_id = 7;
  source_module = writer;
  target_domain = domain;
  target_key = key;
  operation = operation;
  value = value;
  magnitude = magnitude;
  confidence = some (fin (pos 800000000));
  reason_codes = "praise" ∷ [];
  evidence_ids = "ev_1" ∷ [];
  priority = normal;
  created_at = 40;
}

abbrev pub joy_up : Proposal
joy_up = proposal 1 "emotion_engine" "emotion" "joy" adjust null (some (fin (pos 100000000)))

abbrev pub joy_more : Proposal
joy_more = proposal 2 "emotion_engine" "emotion" "joy" adjust null (some (fin (pos 50000000)))

-- A deep trait, set by its owner.
abbrev pub open_up : Proposal
open_up =
    proposal 3 "growth_engine" "personality" "openness" set (number (fin (pos 600000000))) none

-- Not the owner of the domain.
abbrev pub intruder : Proposal
intruder = proposal 4 "mood_engine" "emotion" "joy" set (number (fin (pos 900000000))) none

abbrev pub proposals : List Proposal
proposals = open_up ∷ joy_up ∷ intruder ∷ joy_more ∷ []

abbrev pub joy : StateValue
joy = record {
  value = number (fin (pos 500000000));
  confidence = none;
  version = 3;
  created_at = 10;
  updated_at = 20;
  updated_by_run = none;
  updated_by_event = none;
}

abbrev pub snapshot : StateSnapshot
snapshot = record {
  snapshot_id = 5;
  created_at = 30;
  root_event_id = some 7;
  values = (("emotion", "joy"), joy) ∷ [];
}

abbrev pub clock : ℕ → ℕ
clock n = 1000 + n

abbrev pub praised : Event
praised = record {
  event_id = 7;
  event_type = "user_message";
  category = social;
  occurred_at = 40;
  recorded_at = 41;
  root_event_id = 7;
  parent_event_id = none;
  priority = p0;
  origin = real_discord;
  payload = "{}";
}

abbrev pub under_way : Run
under_way = record {
  run_id = 9;
  root_event_id = 7;
  snapshot_id = 5;
  mode = RuntimeMode.normal;
  priority = p0;
  status = running;
  started_at = 42;
  finished_at = none;
  proposals_received = 0;
  proposals_accepted = 0;
  proposals_rejected = 0;
  error = none;
  retry_of_run_id = none;
  commit_attempt = 1;
  conflict_count = 0;
}

-- The process with the rows of the snapshot, where a run of the event is under way.
abbrev pub world : World
world = record {
  tables = record no_rows {
    state_values = snapshot.values;
    events = (7, praised) ∷ [];
    runs = under_way ∷ [];
  };
  saved = no_rows;
  depth = 0;
  next_id = 100;
  ticks = 0;
}
