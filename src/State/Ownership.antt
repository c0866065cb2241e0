-- ===== src/State/Ownership.antt =====
-- app/state/ownership.py: every domain has exactly one writer.
use discord_personality_bot.Base.{
  String, Bool, true, false, none, some, List, [], ◌∷◌, map, is_some, ◌==◌, text_test,
  if◌then◌else◌, Result, ok, raised,
}
use discord_personality_bot.Base.Sort.{sort}
use discord_personality_bot.Text.{str_lt}
use discord_personality_bot.Base.Dict.{Dict, lookup}

abbrev pub system_writer : String
system_writer = "system_bootstrap"

abbrev pub admin_writer : String
admin_writer = "admin_control_plane"

-- `_OWNERSHIP`, from the domain to its writer.
unfoldable pub ownership : Dict String String
ownership =
    ("world", "world_service")
    ∷ ("emotion", "emotion_engine")
    ∷ ("mood", "mood_engine")
    ∷ ("needs", "need_engine")
    ∷ ("relationship", "relationship_engine")
    ∷ ("attachment", "attachment_engine")
    ∷ ("beliefs", "belief_engine")
    ∷ ("self_schema", "self_engine")
    ∷ ("user_model", "social_cognition_engine")
    ∷ ("user_model_counters", "social_cognition_engine")
    ∷ ("characteristic_adaptations", "adaptation_engine")
    ∷ ("npc_relationships", "npc_relationship_engine")
    ∷ ("group_belonging", "group_engine")
    ∷ ("goals", "goal_engine")
    ∷ ("habits", "habit_engine")
    ∷ ("personality", "growth_engine")
    ∷ ("values", "value_engine")
    ∷ ("subjective_memory", "memory_engine")
    ∷ ("attachment_disposition", "growth_engine")
    ∷ ("narrative_identity", "growth_engine")
    ∷ ("system", system_writer)
    ∷ []

-- `OwnershipError`, of an unknown domain, or of a module, a domain and its owner
pub data OwnershipError : Type 0 where
  unknown_domain : String → OwnershipError
  not_owner : String → String → String → OwnershipError

unfoldable pub known_domains : List String
unfolding sort ownership
known_domains = sort str_lt (map (λ (entry : String × String). entry.0) ownership)

unfoldable pub owner_of : String → Result OwnershipError String
unfolding ownership
owner_of domain = elim (lookup domain ownership) [
  | none ↦ raised (unknown_domain domain)
  | some writer ↦ ok writer
]

unfoldable pub is_known_domain : String → Bool
is_known_domain domain = is_some (lookup domain ownership)

unfoldable pub may_write : String → String → Bool
may_write domain module_name = elim (lookup domain ownership) [
  | none ↦ false
  | some writer ↦ if module_name == admin_writer then true else writer == module_name
]

-- `assert_may_write`: the text of its error asks for the owner, which raises where there is none.
unfoldable pub assert_may_write : String → String → Result OwnershipError Unit
unfolding may_write owner_of
assert_may_write domain module_name =
    if may_write domain module_name then ok tt else elim (owner_of domain) [
      | raised e ↦ raised e
      | ok owner ↦ raised (not_owner module_name domain owner)
    ]
