-- ===== src/Tests/Mirroring.antt =====
-- Three adaptations, of which one is shown as it is and one has no evidence.
use discord_personality_bot.Base.{
  ℕ, ◌≡◌, ◌==◌, refl, String, Option, none, some, List, [], ◌∷◌, map, text_test, if◌then◌else◌,
}
use discord_personality_bot.Base.Int.{pos}
use discord_personality_bot.Base.Lists.{All}
use discord_personality_bot.Text.{str_lt}
use discord_personality_bot.Consolidation.Adaptations.{Adaptation}
use discord_personality_bot.Consolidation.Mirror.{MirrorProposal, mirror_all}
use discord_personality_bot.Consolidation.Mirror.Healing.{after, evidenced, mirror_all_heals}

abbrev row : String → ℕ → List ℕ → Adaptation
row name value evidence_ids = record {
  name = name;
  value = value;
  baseline = 500000;
  pending_evidence = pos 0;
  supporting_count = 3;
  contradicting_count = 0;
  contexts = ("mood", "mood_engine") ∷ [];
  evidence_ids = evidence_ids;
  first_evidence_at = none;
  last_evidence_at = none;
  updated_at = 10;
}

abbrev rows : List Adaptation
rows =
    row "openness_to_user" 540000 (1 ∷ 2 ∷ [])
    ∷ row "independence" 480000 (3 ∷ [])
    ∷ row "caution" 500000 []
    ∷ []

abbrev view : String → Option ℕ
view name = if name == "independence" then some 480000 else none

proposed_names :
    map {B = String} (λ (p : MirrorProposal). p.target_key) (mirror_all view rows)
    ≡ "openness_to_user" ∷ []
unfolding mirror_all str_lt
proposed_names = refl

mirror_all_heals_example :
    (mirror_all (after view (mirror_all view rows)) rows ≡ [])
    × All
        (λ (a : Adaptation). after view (mirror_all view rows) a.name ≡ some a.value)
        (evidenced rows)
mirror_all_heals_example =
    mirror_all_heals view rows (((λ p. cc p), ((λ p. cc p), tt)), (((λ p. cc p), tt), (tt, tt)))
