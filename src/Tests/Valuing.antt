-- ===== src/Tests/Valuing.antt =====
-- Priorities of three values, of which one is raised.
use discord_personality_bot.Base.{◌≡◌, ◌≢◌, refl, arith, String, false, ◌==◌, text_test, [], ◌∷◌}
use discord_personality_bot.Base.Int.{pos, neg_ℤ}
use discord_personality_bot.Consolidation.Dynamics.{up, down}
use discord_personality_bot.Consolidation.Values.{Priorities, sum_of, sum_ℤ, redistribute}
use discord_personality_bot.Consolidation.Values.Totals.{redistribute_total}
use discord_personality_bot.Consolidation.Values.Exact.{redistribute_plainly, redistribute_exact}

apart : (a b : String) → (a == b) ≡ false → a ≢ b
apart a b h p = ground (arith, h, (text_test.test_iff a b).1 p)

abbrev priorities : Priorities
priorities = ("security", 333333) ∷ ("power", 333334) ∷ ("hedonism", 333333) ∷ []

raised :
    redistribute priorities "power" up 10000
    ≡ ("security", pos 328333) ∷ ("power", pos 343334) ∷ ("hedonism", pos 328333) ∷ []
unfolding redistribute neg_ℤ
raised = refl

redistribute_total_example : sum_ℤ (redistribute priorities "power" up 10000) ≡ pos 1000000
unfolding sum_of
redistribute_total_example = redistribute_total priorities "power" up 10000

redistribute_exact_example :
    redistribute priorities "power" down 10000 ≡ redistribute_plainly priorities "power" down 10000
redistribute_exact_example = redistribute_exact priorities "power" down 10000 (
  (apart "security" "power" refl, (apart "security" "hedonism" refl, tt)),
  ((apart "power" "hedonism" refl, tt), (tt, tt)),
)
