-- ===== src/Tests/Remembering.antt =====
-- Three memories of the sea: one out of the model's labels, one out of reach, one recalled.
use discord_personality_bot.Base.{◌+◌, ◌≡◌, ◌≤◌, refl, false, none, List, [], ◌∷◌, map}
use discord_personality_bot.Base.Lists.{All, length}
use discord_personality_bot.Memory.Relevance.{
  EpisodicMemory, Reply, broken, answered, relevant, strong,
}
use discord_personality_bot.Memory.Selection.{RetrievalPolicy, RecalledMemory, retrieve}
use discord_personality_bot.Memory.Gate.{IsEarned, retrieve-IsEarned}
use discord_personality_bot.Memory.Conservation.{
  found_as, recalled_as, rejected_as, IsPassedOver, retrieve_conserves,
}
use discord_personality_bot.Memory.Practice.{Shelf, PracticePolicy, reflective}
use discord_personality_bot.Memory.Practice.Repetition.{
  recalls, recalls_in, delivered, delivered_practises_once,
}

abbrev policy : RetrievalPolicy
policy = record {
  rules = record { accept_weak = false; max_recalled = 3; min_availability = 350000 };
  rerank_batch = 16;
  accessibility_weight = 450000;
  salience_weight = 200000;
  importance_weight = 200000;
  recency_weight = 150000;
  strong_relevance_bonus = 150000;
  recency = λ age. 500000000000;
}

abbrev practice : PracticePolicy
practice = record {
  boost = 150000;
  power = λ k. 1000000;
  window = 86400;
  max_accessibility = 900000000000;
}

abbrev sea : EpisodicMemory
sea = record {
  memory_id = 1;
  summary = "the sea at night";
  topics = "sea" ∷ [];
  importance = 600000000000;
  emotional_intensity = 500000000000;
  accessibility = 700000000000;
  occurred_at = 0;
  recall_count = 2;
  last_recalled_at = none;
  updated_at = 0;
}

abbrev harbour : EpisodicMemory
harbour = record sea {
  memory_id = 2;
  summary = "the harbour";
  accessibility = 10000000000;
  importance = 0;
}

abbrev school : EpisodicMemory
school = record sea { memory_id = 3; summary = "the school" }

abbrev found : List EpisodicMemory
found = school ∷ harbour ∷ sea ∷ []

abbrev labels : Reply
labels = answered ((1, relevant) ∷ (2, relevant) ∷ (9, strong) ∷ [])

recalled_ids :
    map
      (λ (m : RecalledMemory). m.memory.memory_id)
      (retrieve policy labels "the sea" 100 7 found).selected
    ≡ 1 ∷ []
unfolding retrieve
recalled_ids = refl

-- With no model, the words decide, and "the" is one.
fallback_ids :
    map
      (λ (m : RecalledMemory). m.memory.memory_id)
      (retrieve policy broken "the sea" 100 7 found).selected
    ≡ 3 ∷ 1 ∷ []
unfolding retrieve
fallback_ids = refl

retrieve-IsEarned_example :
    All
      (IsEarned policy labels "the sea" found)
      (retrieve policy labels "the sea" 100 7 found).selected
retrieve-IsEarned_example = retrieve-IsEarned policy labels "the sea" 100 7 found

retrieve_conserves_example :
    (found_as 1 found
      ≡ recalled_as 1 (retrieve policy labels "the sea" 100 7 found).selected
        + rejected_as 1 (retrieve policy labels "the sea" 100 7 found).rejected_candidates)
    × (length (retrieve policy labels "the sea" 100 7 found).selected ≤ 3)
    × All
        (IsPassedOver 350000 (retrieve policy labels "the sea" 100 7 found).selected)
        (retrieve policy labels "the sea" 100 7 found).rejected_candidates
retrieve_conserves_example = retrieve_conserves policy labels "the sea" 100 7 1 found

abbrev shelf : Shelf
shelf = record { memories = found; retrievals = [] }

practised_once :
    recalls 1 (delivered policy practice reflective labels "the sea" 100 7 "sea" 200 found shelf)
    ≡ 3
unfolding delivered recalls_in
practised_once = refl

delivered_practises_once_example :
    recalls 1 (delivered policy practice reflective labels "the sea" 100 7 "sea" 200 found shelf)
    ≤ recalls 1 shelf + recalled_as 1 (retrieve policy labels "the sea" 100 7 found).selected
delivered_practises_once_example =
    delivered_practises_once policy practice reflective labels "the sea" 100 7 "sea" 200 1 found
      shelf
