-- ===== src/State/Layers.antt =====
-- app/state/dependency_graph.py: the layer of every domain, and the order of commits. `none`
-- stands for a raised `LayerError`.
use discord_personality_bot.Base.{
  ℕ, String, Bool, true, false, not, ◌||◌, ◌&&◌, Option, none, some, List, [], ◌∷◌, map, ltb,
  nat_beq, ◌==◌, text_test, if◌then◌else◌, Result, ok, raised,
}
use discord_personality_bot.Base.Lists.{contains, keep}
use discord_personality_bot.Base.Sort.{sort}
use discord_personality_bot.Base.Dict.{Dict, lookup}
use discord_personality_bot.State.Ownership.{known_domains, is_known_domain}
use discord_personality_bot.Text.{str_lt}

abbrev pub objective : ℕ
objective = 0

abbrev pub interpretive : ℕ
interpretive = 1

abbrev pub immediate : ℕ
immediate = 2

abbrev pub adaptive : ℕ
adaptive = 3

abbrev pub deep : ℕ
deep = 4

-- `_LAYERS`
unfoldable pub layers : Dict String ℕ
layers =
    ("world", objective)
    ∷ ("system", objective)
    ∷ ("appraisal", interpretive)
    ∷ ("user_state_estimate", interpretive)
    ∷ ("emotion", immediate)
    ∷ ("mood", immediate)
    ∷ ("needs", immediate)
    ∷ ("relationship", adaptive)
    ∷ ("attachment", adaptive)
    ∷ ("beliefs", adaptive)
    ∷ ("self_schema", adaptive)
    ∷ ("user_model", adaptive)
    ∷ ("user_model_counters", adaptive)
    ∷ ("characteristic_adaptations", adaptive)
    ∷ ("npc_relationships", adaptive)
    ∷ ("group_belonging", adaptive)
    ∷ ("goals", adaptive)
    ∷ ("habits", adaptive)
    ∷ ("subjective_memory", adaptive)
    ∷ ("personality", deep)
    ∷ ("values", deep)
    ∷ ("attachment_disposition", deep)
    ∷ ("narrative_identity", deep)
    ∷ []

unfoldable pub layer_of : String → Option ℕ
layer_of domain = lookup domain layers

unfoldable pub is_deep : String → Option Bool
unfolding layer_of
is_deep domain = elim (layer_of domain) [ none ↦ none | some layer ↦ some (nat_beq layer deep) ]

unfoldable pub domains_in_layer : ℕ → List String
unfolding sort keep layers
domains_in_layer layer = sort str_lt (
    map (λ (entry : String × ℕ). entry.0)
      (keep (λ (entry : String × ℕ). nat_beq entry.1 layer) layers))

unfoldable pub is_consolidation_writer : String → Bool
is_consolidation_writer module_name =
    module_name == "growth_engine" || module_name == "value_engine"

-- `commit_order_key`, and the order of such keys.
abbrev pub OrderKey : Type 0
OrderKey = ℕ × String

unfoldable pub commit_order_key : String → Option OrderKey
unfolding layer_of
commit_order_key domain = elim (layer_of domain) [ none ↦ none | some layer ↦ some (layer, domain) ]

unfoldable pub order_key_lt : OrderKey → OrderKey → Bool
order_key_lt (l, d) (m, e) = if nat_beq l m then str_lt d e else ltb l m

-- `LayerError` of `validate_registry`
pub data RegistryError : Type 0 where
  without_layer without_owner : List String → RegistryError

abbrev is_given : List String → Bool
is_given [] = false
is_given (d ∷ ds) = true

-- `validate_registry`: the domains of the interpretive layer need no owner.
unfoldable pub validate_registry : Result RegistryError Unit
unfolding sort keep contains layers is_known_domain known_domains domains_in_layer
validate_registry =
    let layered = map (λ (entry : String × ℕ). entry.0) layers in
    let missing_layer = keep (λ d. not (contains d layered)) known_domains in
    let unowned =
      keep (λ d. not (is_known_domain d) && not (contains d (domains_in_layer interpretive)))
        layered in
    if is_given missing_layer
    then raised (without_layer missing_layer)
    else if is_given unowned
    then raised (without_owner (sort str_lt unowned))
    else ok tt
