-- ===== src/State/Arbitration/Accounting.antt =====
-- No proposal is lost or counted twice, and each accepted change merges what it should.
use mathlib.Core.List.{Memᴰ}
use discord_personality_bot.Base.{
  ℕ, ◌+◌, ◌≡◌, refl, sym, ap, ◌∙◌, inl, inr, List, [], ◌∷◌, ◌++◌, map, arith, nat_beq,
  if◌then◌else◌, Bool-cases, Result-cases, ok, key_beq,
}
use discord_personality_bot.Base.Lists.{length, sum_over, All-mem}
use discord_personality_bot.Base.Sort.{sort, sum_over-sort}
use discord_personality_bot.State.Policy.{ArbitrationPolicy, for_domain}
use discord_personality_bot.State.Proposal.{Proposal, target}
use discord_personality_bot.State.Snapshot.{StateSnapshot, get}
use discord_personality_bot.State.Arbitrator.Records.{
  AcceptedChange, Rejection, ArbitrationResult, change_target,
}
use discord_personality_bot.State.Arbitrator.Screen.{reject_one, screen_all}
use discord_personality_bot.State.Arbitrator.Groups.{
  Group, members, add_to_group, collect, group, group_lt,
}
use discord_personality_bot.State.Arbitrator.Resolve.{
  ids_of, resolve, accept_group, reject_group, resolve_all,
}
use discord_personality_bot.State.Arbitrator.{Keyed, keyed_lt, arbitrate}
use discord_personality_bot.State.Arbitration.Merging.{
  admissible, for_target, screen_all-admissible,
}
use discord_personality_bot.State.Arbitration.Provenance.{
  Stems, arbitrate-Stems, arbitrate-Returns, with_keys-IsKeyed,
}

-- How often an id stands in a list.
unfoldable pub occurs : ℕ → List ℕ → ℕ
occurs i [] = 0
occurs i (j ∷ js) = (if nat_beq i j then 1 else 0) + occurs i js

-- How often a proposal's id stands among the accepted changes, and among the rejections.
unfoldable pub in_accepted : ℕ → List AcceptedChange → ℕ
in_accepted i = sum_over (λ c. occurs i c.merged_proposal_ids)

unfoldable pub in_rejected : ℕ → List Rejection → ℕ
in_rejected i = sum_over (λ r. occurs i r.proposal_ids)

module _ (i : ℕ) where
  in_group : Group → ℕ
  in_group g = occurs i (ids_of (members g))

  occurs-append : (js ks : List ℕ) → occurs i (js ++ ks) ≡ occurs i js + occurs i ks
  unfolding occurs
  occurs-append [] ks = omega arith
  occurs-append (j ∷ js) ks = omega (arith, occurs-append js ks)

  occurs-ids_append :
      (ps qs : List Proposal)
      → occurs i (ids_of (ps ++ qs)) ≡ occurs i (ids_of ps) + occurs i (ids_of qs)
  unfolding occurs ids_of
  occurs-ids_append [] qs = omega arith
  occurs-ids_append (p ∷ ps) qs = omega (arith, occurs-ids_append ps qs)

  sum_over-append {ℓ} :
      {A : Type ℓ} (f : A → ℕ) (xs ys : List A)
      → sum_over f (xs ++ ys) ≡ sum_over f xs + sum_over f ys
  sum_over-append f [] ys = omega arith
  sum_over-append f (x ∷ xs) ys = omega (arith, sum_over-append f xs ys)

  screen_all-occurs :
      (policy : ArbitrationPolicy) (ps : List Proposal)
      → occurs i (ids_of (screen_all policy ps).0) + in_rejected i (screen_all policy ps).1
        ≡ occurs i (ids_of ps)
  unfolding screen_all ids_of occurs in_rejected reject_one
  screen_all-occurs policy [] = omega arith
  screen_all-occurs policy (p ∷ ps) = ground (arith, screen_all-occurs policy ps)

  add_to_group-occurs :
      (p : Proposal) (gs : List Group)
      → sum_over in_group (add_to_group p gs) ≡ occurs i (ids_of (p ∷ [])) + sum_over in_group gs
  unfolding add_to_group in_group members occurs ids_of
  add_to_group-occurs p [] = omega arith
  add_to_group-occurs p (g ∷ gs) = elim (Bool-cases (key_beq g.key (target p))) [
    | inl e ↦ rw e (omega (arith, occurs-ids_append g.rest (p ∷ [])))
    | inr e ↦ rw e (omega (arith, add_to_group-occurs p gs))
  ]

  collect-occurs :
      (ps : List Proposal) (gs : List Group)
      → sum_over in_group (collect ps gs) ≡ occurs i (ids_of ps) + sum_over in_group gs
  unfolding collect occurs ids_of
  collect-occurs [] gs = omega arith
  collect-occurs (p ∷ ps) gs =
      omega (arith, collect-occurs ps (add_to_group p gs), add_to_group-occurs p gs)

  group-occurs : (ps : List Proposal) → sum_over in_group (group ps) ≡ occurs i (ids_of ps)
  unfolding group
  group-occurs ps =
      omega (arith, sum_over-sort group_lt in_group (collect ps []), collect-occurs ps [])

  resolve_all-occurs :
      (policy : ArbitrationPolicy) (snapshot : StateSnapshot) (gs : List Group)
      → let R = resolve_all policy snapshot gs in
        in_accepted i R.0 + in_rejected i R.1 ≡ sum_over in_group gs
  unfolding resolve_all in_accepted in_rejected in_group accept_group reject_group
  resolve_all-occurs policy snapshot [] = omega arith
  resolve_all-occurs policy snapshot (g ∷ gs) =
      elim (Result-cases (resolve (for_domain policy g.key.0) (get snapshot g.key) g)) [
        | inl (r, e) ↦ rw (e, resolve_all) (omega (arith, resolve_all-occurs policy snapshot gs))
        | inr (x, e) ↦ rw (e, resolve_all) (omega (arith, resolve_all-occurs policy snapshot gs))
      ]

  sum_over-map :
      (ks : List Keyed)
      → in_accepted i (map (λ (k : Keyed). k.1) ks)
        ≡ sum_over (λ (k : Keyed). occurs i k.1.merged_proposal_ids) ks
  unfolding in_accepted
  sum_over-map [] = refl
  sum_over-map (k ∷ ks) = omega (arith, sum_over-map ks)

-- If arbitration returns, an id stands as often among the merged proposals of the accepted changes
-- and the proposals of the rejections as among the proposals received, whose number is reported.
pub arbitrate_accounts :
    (policy : ArbitrationPolicy) (ps : List Proposal) (snapshot : StateSnapshot)
    (r : ArbitrationResult) (i : ℕ)
    → arbitrate policy ps snapshot ≡ ok r
    → (in_accepted i r.accepted + in_rejected i r.rejected ≡ occurs i (ids_of ps))
      × (r.received ≡ length ps)
arbitrate_accounts policy ps snapshot r i h =
    let ret = arbitrate-Returns policy ps snapshot r h in
    let gs = group (admissible policy ps) in
    let cs = (resolve_all policy snapshot gs).0 in
    let same = (with_keys-IsKeyed cs ret.keyed ret.keys_of).0 in
    let f = λ (k : Keyed). occurs i k.1.merged_proposal_ids in
    let refused : in_rejected i r.rejected
        ≡ in_rejected i (screen_all policy ps).1
          + in_rejected i (resolve_all policy snapshot gs).1 =
      rw ret.refused (
        unfold in_rejected in
        sum_over-append i (λ (x : Rejection). occurs i x.proposal_ids) (screen_all policy ps).1
          (resolve_all policy snapshot gs).1) in
    let taken : in_accepted i r.accepted ≡ in_accepted i cs = rw ret.ordered (
      sum_over-map i (sort keyed_lt ret.keyed)
      ∙ sum_over-sort keyed_lt f ret.keyed
      ∙ sym (sum_over-map i ret.keyed)
      ∙ ap (in_accepted i) same) in
    (
      omega (
        arith,
        refused,
        taken,
        resolve_all-occurs i policy snapshot gs,
        group-occurs i (admissible policy ps),
        (rw (screen_all-admissible policy ps) at (screen_all-occurs i policy ps)),
      ),
      ret.counted,
    )

-- An accepted change merges exactly the proposals for its target that passed the screening, in the
-- order in which they were received.
pub merged_exactly :
    (policy : ArbitrationPolicy) (ps : List Proposal) (snapshot : StateSnapshot)
    (r : ArbitrationResult) (c : AcceptedChange)
    → arbitrate policy ps snapshot ≡ ok r
    → Memᴰ c r.accepted
    → c.merged_proposal_ids ≡ ids_of (for_target (change_target c) (admissible policy ps))
unfolding accept_group change_target
merged_exactly policy ps snapshot r c h m =
    let s =
      All-mem (Stems policy ps snapshot) c r.accepted (arbitrate-Stems policy ps snapshot r h) m in
    rw s.change (ap ids_of s.exact)
