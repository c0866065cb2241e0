-- ===== src/Tests/Storing.antt =====
-- A snapshot stored and read back.
use discord_personality_bot.Base.{◌≡◌, none, some}
use discord_personality_bot.Base.Dict.{lookup}
use discord_personality_bot.State.Snapshot.{get}
use discord_personality_bot.State.Payload.{to_payload, from_payload}
use discord_personality_bot.State.Payload.RoundTrip.{payload_round_trip}
use discord_personality_bot.Tests.Cases.{joy, snapshot}

payload_round_trip_example :
    get (from_payload 6 60 (to_payload snapshot) (some 7)) ("emotion", "joy")
    ≡ some
        (record joy { created_at = joy.updated_at; updated_by_run = none; updated_by_event = none })
unfolding get lookup
payload_round_trip_example = payload_round_trip snapshot 6 60 (some 7) "emotion" "joy" (tt, tt)
