-- ===== src/Memory/Tokens.antt =====
-- The tokens of app/memory/relevance.py and app/memory/engine.py: characters, less the particles of
-- grammar, and pairs of characters.
use discord_personality_bot.Base.{
  ℕ, String, Bool, false, not, ◌&&◌, ◌||◌, List, [], ◌∷◌, ◌++◌, map, ltb, leb, nat_beq, number_test,
  if◌then◌else◌,
}
use discord_personality_bot.Base.Lists.{contains, keep, length}
use discord_personality_bot.Text.{codes}

pub data Token : Type 0 where
  single : ℕ → Token
  pair : ℕ → ℕ → Token

abbrev pub token_beq : Token → Token → Bool
token_beq (single a) (single b) = nat_beq a b
token_beq (pair a b) (pair c d) = nat_beq a c && nat_beq b d
token_beq _ _ = false

unfoldable pub holds : Token → List Token → Bool
holds t [] = false
holds t (u ∷ us) = token_beq t u || holds t us

-- `frozenset(…)`
unfoldable pub token_set : List Token → List Token
unfolding holds
token_set [] = []
token_set (t ∷ ts) = let rest = token_set ts in if holds t ts then rest else t ∷ rest

-- `_PARTICLES`
unfoldable pub particles : List ℕ
particles = codes "はがをにでとへもやのねよなかだですますましたたるらしいうくっ、。！？!?" ++ 0x3000 ∷ 32 ∷ []

-- `_kept`
unfoldable pub kept : List ℕ → List ℕ
unfolding particles keep contains
kept text = keep (λ c. not (contains c particles)) text

unfoldable pub pairs : List ℕ → List Token
pairs [] = []
pairs (a ∷ []) = []
pairs (a ∷ b ∷ cs) = pair a b ∷ pairs (b ∷ cs)

-- `_query_tokens`
unfoldable pub query_tokens : String → List Token
unfolding kept pairs token_set
query_tokens text =
    let cs = kept (codes text) in token_set (if leb (length cs) 2 then map single cs else pairs cs)

-- `_haystack_tokens`
unfoldable pub haystack_tokens : List ℕ → List Token
unfolding kept pairs token_set
haystack_tokens text = let cs = kept text in token_set (map single cs ++ pairs cs)

-- `_content_tokens`
unfoldable pub content_tokens : String → List Token
unfolding kept pairs token_set
content_tokens text =
    let cs = kept (codes text) in token_set (if ltb (length cs) 2 then map single cs else pairs cs)

-- The members of both sets
unfoldable pub shared : List Token → List Token → List Token
unfolding keep holds
shared ts us = keep (λ t. holds t us) ts
