-- ===== src/Storage/EventTable.antt =====
-- app/events/store.py and app/storage/repositories/events.py: the events, which are only appended.
use discord_personality_bot.Base.{
  ℕ, ◌+◌, Bool, none, some, List, [], ◌∷◌, ◌++◌, number_test, if◌then◌else◌, not, is_some,
}
use discord_personality_bot.Base.Dict.{Dict, lookup}
use discord_personality_bot.Events.Model.{Event}
use discord_personality_bot.Storage.Database.{
  Exec, pure, ◌>>=◌, ◌>>◌, read_tables, write_tables, transaction,
}

-- `INSERT OR IGNORE INTO events`
unfoldable pub insert_event : Event → Dict ℕ Event → Dict ℕ Event
insert_event e events = elim (lookup e.event_id events) [
  | none ↦ events ++ (e.event_id, e) ∷ []
  | some old ↦ events
]

-- `append`: whether the event was stored by this call.
unfoldable pub append : Event → Exec Bool
unfolding insert_event
append e = do
  t ← read_tables
  write_tables (λ t. record t { events = insert_event e t.events })
  pure (not (is_some (lookup e.event_id t.events)))

-- The loop of `append_all`, with the two counts.
unfoldable pub append_each : List Event → ℕ → ℕ → Exec (ℕ × ℕ)
append_each [] inserted duplicates = pure (inserted, duplicates)
append_each (e ∷ es) inserted duplicates = do
  fresh ← append e
  append_each es (if fresh then inserted + 1 else inserted)
      (if fresh then duplicates else duplicates + 1)

unfoldable pub append_all : List Event → Exec (ℕ × ℕ)
unfolding append_each transaction
append_all es = transaction (append_each es 0 0)
