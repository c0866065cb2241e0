-- ===== src/State/Arbitration/Order.antt =====
-- The accepted changes: one for each target, from shallow layers to deep ones.
use discord_personality_bot.Base.{
  ℕ, true, false, ◌≡◌, ◌≢◌, ◌≤◌, inl, inr, none, some, List, [], ◌∷◌, map, arith, Result-cases, ok,
  Key,
}
use discord_personality_bot.Base.Lists.{
  All, DistinctBy, DistinctBy-map, DistinctBy-of_map, All-mono,
}
use discord_personality_bot.Base.Sort.{
  sort, sort-All, sort-DistinctBy, Rises, sort-Rises, Rises-map,
}
use discord_personality_bot.State.Layers.{layer_of, commit_order_key, order_key_lt}
use discord_personality_bot.State.Policy.{ArbitrationPolicy, for_domain}
use discord_personality_bot.State.Proposal.{Proposal}
use discord_personality_bot.State.Snapshot.{StateSnapshot, get}
use discord_personality_bot.State.Arbitrator.Records.{
  AcceptedChange, ArbitrationResult, change_target,
}
use discord_personality_bot.State.Arbitrator.Groups.{Group, group}
use discord_personality_bot.State.Arbitrator.Resolve.{resolve, accept_group, resolve_all}
use discord_personality_bot.State.Arbitrator.{Keyed, keyed_lt, arbitrate}
use discord_personality_bot.State.Arbitration.Merging.{admissible, group-DistinctBy}
use discord_personality_bot.State.Arbitration.Provenance.{
  arbitrate-Returns, IsKeyed, with_keys-IsKeyed,
}

-- The layer of the domain of a change.
unfoldable pub layer : AcceptedChange → ℕ
layer c = elim (layer_of c.domain) [ none ↦ 0 | some l ↦ l ]

module _ (policy : ArbitrationPolicy) (snapshot : StateSnapshot) where
  resolve_all-ne :
      (k : Key) (gs : List Group)
      → All (λ (g : Group). k ≢ g.key) gs
      → All (λ c. k ≢ change_target c) (resolve_all policy snapshot gs).0
  unfolding resolve_all accept_group change_target
  resolve_all-ne k [] h = tt
  resolve_all-ne k (g ∷ gs) h =
      elim (Result-cases (resolve (for_domain policy g.key.0) (get snapshot g.key) g)) [
        | inl (r, e) ↦ rw (e, resolve_all, All) (h.0, resolve_all-ne k gs h.1)
        | inr (reason, e) ↦ rw (e, resolve_all, All) (resolve_all-ne k gs h.1)
      ]

  resolve_all-DistinctBy :
      (gs : List Group)
      → DistinctBy (λ (g : Group). g.key) gs
      → DistinctBy change_target (resolve_all policy snapshot gs).0
  unfolding resolve_all accept_group change_target
  resolve_all-DistinctBy [] d = tt
  resolve_all-DistinctBy (g ∷ gs) d =
      elim (Result-cases (resolve (for_domain policy g.key.0) (get snapshot g.key) g)) [
        | inl (r, e) ↦
            rw (e, resolve_all, DistinctBy)
              (resolve_all-ne g.key gs d.0, resolve_all-DistinctBy gs d.1)
        | inr (reason, e) ↦ rw (e, resolve_all, DistinctBy) (resolve_all-DistinctBy gs d.1)
      ]

abbrev depth_of : Keyed → ℕ
depth_of k = k.0.0

keyed_lt-up : (a b : Keyed) → keyed_lt a b ≡ true → depth_of a ≤ depth_of b
unfolding order_key_lt
keyed_lt-up a b h = ground arith

keyed_lt-down : (a b : Keyed) → keyed_lt a b ≡ false → depth_of b ≤ depth_of a
unfolding order_key_lt
keyed_lt-down a b h = ground arith

layer-keyed : (k : Keyed) → IsKeyed k → layer k.1 ≡ depth_of k
unfolding layer commit_order_key
layer-keyed k h = ground arith

-- The accepted changes have distinct targets, and each is followed only by changes of the same or
-- a deeper layer.
pub accepted_in_order :
    (policy : ArbitrationPolicy) (ps : List Proposal) (snapshot : StateSnapshot)
    (r : ArbitrationResult)
    → arbitrate policy ps snapshot ≡ ok r
    → DistinctBy change_target r.accepted × Rises layer r.accepted
accepted_in_order policy ps snapshot r h =
    let ret = arbitrate-Returns policy ps snapshot r h in
    let cs = (resolve_all policy snapshot (group (admissible policy ps))).0 in
    let keyed = with_keys-IsKeyed cs ret.keyed ret.keys_of in
    let change : Keyed → AcceptedChange = λ k. k.1 in
    let apart : DistinctBy change_target (map change ret.keyed) = rw keyed.0 (
      resolve_all-DistinctBy policy snapshot (group (admissible policy ps))
        (group-DistinctBy (admissible policy ps))) in
    rw ret.ordered (
      DistinctBy-map change_target change (sort keyed_lt ret.keyed) (
          sort-DistinctBy keyed_lt (λ k. change_target (change k)) ret.keyed
            (DistinctBy-of_map change_target change ret.keyed apart)),
      Rises-map depth_of layer change (sort keyed_lt ret.keyed)
          (sort-All keyed_lt (λ k. layer (change k) ≡ depth_of k) ret.keyed
            (All-mono IsKeyed (λ k. layer (change k) ≡ depth_of k) ret.keyed layer-keyed keyed.1))
          (sort-Rises keyed_lt depth_of keyed_lt-up keyed_lt-down ret.keyed),
    )
