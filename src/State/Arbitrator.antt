-- ===== src/State/Arbitrator.antt =====
-- app/state/arbitrator.py: which proposals may be committed, and as what change. The texts of the
-- rejections are left out; the groups of one target hold a first proposal and the others.
pub mod Records
pub mod Screen
pub mod Groups
pub mod Resolve
pub mod Overflow
use discord_personality_bot.Base.{
  ℕ, if◌then◌else◌, Option, none, some, List, [], ◌∷◌, ◌++◌, map, Bool, Result, ok, raised, ◌>>=◌,
}
use discord_personality_bot.Base.Lists.{length}
use discord_personality_bot.Base.Sort.{sort}
use discord_personality_bot.State.Layers.{OrderKey, commit_order_key, order_key_lt}
use discord_personality_bot.State.Policy.{ArbitrationPolicy}
use discord_personality_bot.State.Proposal.{Proposal}
use discord_personality_bot.State.Snapshot.{StateSnapshot}
use Records.{AcceptedChange, ArbitrationResult}
use Screen.{screen_all}
use Groups.{group}
use Resolve.{resolve_all}
use Overflow.{any_overflows}

-- What a call raises: the LayerError of `dependency_graph.layer_of`, or an OverflowError.
pub data ArbitrationError : Type 0 where
  no_layer overflow : ArbitrationError

abbrev pub Keyed : Type 0
Keyed = OrderKey × AcceptedChange

abbrev pub keyed_lt : Keyed → Keyed → Bool
keyed_lt a b = order_key_lt a.0 b.0

-- `list.sort` computes every key first; one that raises ends the sort.
unfoldable pub with_keys : List AcceptedChange → Result ArbitrationError (List Keyed)
unfolding commit_order_key
with_keys [] = ok []
with_keys (c ∷ cs) = elim (commit_order_key c.domain) [
  | none ↦ raised no_layer
  | some k ↦ elim (with_keys cs) [ raised e ↦ raised e | ok ks ↦ ok ((k, c) ∷ ks) ]
]

unfoldable pub sort_changes : List AcceptedChange → Result ArbitrationError (List AcceptedChange)
unfolding with_keys
sort_changes cs = do keyed ← with_keys cs; ok (map (λ (e : Keyed). e.1) (sort keyed_lt keyed))

unfoldable pub arbitrate :
    ArbitrationPolicy → List Proposal → StateSnapshot → Result ArbitrationError ArbitrationResult
unfolding any_overflows
arbitrate policy proposals snapshot =
    let (admissible, screened) = screen_all policy proposals in
    let (accepted, refused) = resolve_all policy snapshot (group admissible) in
    if any_overflows snapshot (group admissible) then raised overflow else (do
      ordered ← sort_changes accepted
      ok (record {
        accepted = ordered;
        rejected = screened ++ refused;
        received = length proposals;
      }))
