-- ===== src/State/Arbitrator/Groups.antt =====
-- app/state/arbitrator.py: `_group`, the admissible proposals by their target.
use discord_personality_bot.Base.{List, [], ◌∷◌, ◌++◌, Bool, Key, key_test, ◌==◌, if◌then◌else◌}
use discord_personality_bot.Base.Sort.{sort}
use discord_personality_bot.Text.{key_lt}
use discord_personality_bot.State.Proposal.{Proposal, target}

-- The proposals for one target, in the order in which they came; there is at least one.
pub record Group : Type 0 where
  pub key : Key
  pub first : Proposal
  pub rest : List Proposal

unfoldable pub members : Group → List Proposal
members g = g.first ∷ g.rest

-- `groups.setdefault`, then `append`: one more proposal in its group.
unfoldable pub add_to_group : Proposal → List Group → List Group
unfolding target
add_to_group p [] = record { key = target p; first = p; rest = [] } ∷ []
add_to_group p (g ∷ gs) =
    if g.key == target p then record g { rest = g.rest ++ p ∷ [] } ∷ gs else g ∷ add_to_group p gs

unfoldable pub collect : List Proposal → List Group → List Group
unfolding add_to_group
collect [] gs = gs
collect (p ∷ ps) gs = collect ps (add_to_group p gs)

abbrev pub group_lt : Group → Group → Bool
group_lt g h = key_lt g.key h.key

-- `_group`
unfoldable pub group : List Proposal → List Group
unfolding collect
group ps = sort group_lt (collect ps [])
