-- ===== src/Consolidation/Mirror.antt =====
-- `AdaptationEngine.handle` of app/consolidation/adaptations.py: the ledger of the adaptations is
-- proposed as the state that is shown.
pub mod Healing
use discord_personality_bot.Base.{
  ℕ, String, Bool, true, false, not, ◌&&◌, Option, none, some, List, [], ◌∷◌, map, nat_beq,
  if◌then◌else◌, zero, suc,
}
use discord_personality_bot.Base.Lists.{keep}
use discord_personality_bot.Base.Sort.{sort}
use discord_personality_bot.Text.{str_lt}
use discord_personality_bot.Consolidation.Adaptations.{Adaptation}

-- `StateChangeProposal.set_value` in the domain of the adaptations
pub record MirrorProposal : Type 0 where
  pub target_key : String
  pub value : ℕ
  pub contexts : List (String × String)
  pub evidence_ids : List ℕ

unfoldable pub first_three {ℓ} : {A : Type ℓ} → List A → List A
first_three (x ∷ y ∷ z ∷ xs) = x ∷ y ∷ z ∷ []
first_three xs = xs

-- The committed value is the one of the ledger.
abbrev pub agrees : Option ℕ → ℕ → Bool
agrees none value = false
agrees (some x) value = nat_beq x value

abbrev pub has_evidence : List ℕ → Bool
has_evidence [] = false
has_evidence (e ∷ es) = true

-- The two conditions on which the loop goes on to the next adaptation, turned round.
unfoldable pub is_due : (String → Option ℕ) → Adaptation → Bool
is_due view a = not (agrees (view a.name) a.value) && has_evidence a.evidence_ids

unfoldable pub mirror : Adaptation → MirrorProposal
unfolding first_three
mirror a = record {
  target_key = a.name;
  value = a.value;
  contexts = first_three a.contexts;
  evidence_ids = a.evidence_ids;
}

abbrev pub by_name : Adaptation → Adaptation → Bool
by_name a b = str_lt a.name b.name

-- `AdaptationRepository.all`
unfoldable pub all_adaptations : List Adaptation → List Adaptation
unfolding sort
all_adaptations rows = sort by_name rows

-- `handle`
unfoldable pub mirror_all : (String → Option ℕ) → List Adaptation → List MirrorProposal
unfolding keep is_due mirror all_adaptations
mirror_all view rows = map mirror (keep (is_due view) (all_adaptations rows))
