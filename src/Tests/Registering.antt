-- ===== src/Tests/Registering.antt =====
-- The registries of domains, of their writers and of their layers.
use discord_personality_bot.Base.{◌≡◌, refl, [], ◌∷◌, ok, raised, text_test}
use discord_personality_bot.Base.Lists.{contains, keep}
use discord_personality_bot.Base.Sort.{sort, insert_by}
use discord_personality_bot.Base.Dict.{lookup}
use discord_personality_bot.Text.{str_lt, codes_lt}
use discord_personality_bot.State.Ownership.{
  ownership, known_domains, is_known_domain, owner_of, may_write, assert_may_write, not_owner,
}
use discord_personality_bot.State.Layers.{layers, domains_in_layer, validate_registry, interpretive}

registry_valid : validate_registry ≡ ok tt
unfolding validate_registry known_domains domains_in_layer is_known_domain ownership layers sort
    insert_by str_lt codes_lt keep contains lookup
registry_valid = refl

interpretive_domains : domains_in_layer interpretive ≡ ("appraisal" ∷ "user_state_estimate" ∷ [])
unfolding domains_in_layer layers sort insert_by str_lt codes_lt keep
interpretive_domains = refl

mood_refused :
    assert_may_write "mood" "emotion_engine"
    ≡ raised (not_owner "emotion_engine" "mood" "mood_engine")
unfolding assert_may_write may_write owner_of ownership lookup
mood_refused = refl
