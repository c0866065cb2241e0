-- ===== src/Text.antt =====
-- The order of Python's strings, by code points, and of tuples of strings.
use Prim.Native.Char.{code}
use discord_personality_bot.Base.{
  ℕ, String, Bool, true, false, List, [], ◌∷◌, ltb, nat_beq, if◌then◌else◌, Key, ◌==◌, text_test,
}

abbrev pub codes : String → List ℕ
codes String.[] = []
codes (String.◌∷◌ c s) = code c ∷ codes s

unfoldable pub codes_lt : List ℕ → List ℕ → Bool
codes_lt [] [] = false
codes_lt [] (c ∷ cs) = true
codes_lt (c ∷ cs) [] = false
codes_lt (c ∷ cs) (d ∷ ds) = if nat_beq c d then codes_lt cs ds else ltb c d

unfoldable pub str_lt : String → String → Bool
unfolding codes_lt
str_lt s t = codes_lt (codes s) (codes t)

-- `(a, b) < (c, d)`
unfoldable pub key_lt : Key → Key → Bool
unfolding str_lt
key_lt (a, b) (c, d) = if a == c then str_lt b d else str_lt a c
