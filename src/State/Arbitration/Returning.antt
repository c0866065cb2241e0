-- ===== src/State/Arbitration/Returning.antt =====
-- When an arbitration returns.
use discord_personality_bot.Base.{
  ◌≡◌, ◌≢◌, refl, sym, ap, ◌∙◌, inl, inr, arith, false, none, Option-cases, List, [], ◌∷◌, ◌++◌,
  map, Key, ok,
}
use discord_personality_bot.Base.Lists.{length, All, All-mono}
use discord_personality_bot.Base.Sort.{sort}
use discord_personality_bot.State.Layers.{layer_of, is_deep, commit_order_key}
use discord_personality_bot.State.Policy.{ArbitrationPolicy}
use discord_personality_bot.State.Proposal.{Proposal, target}
use discord_personality_bot.State.Snapshot.{StateSnapshot}
use discord_personality_bot.State.Arbitrator.Records.{AcceptedChange, ArbitrationResult}
use discord_personality_bot.State.Arbitrator.Screen.{screen_reason, screen_all}
use discord_personality_bot.State.Arbitrator.Groups.{members, group}
use discord_personality_bot.State.Arbitrator.Resolve.{accept_group, resolve_all}
use discord_personality_bot.State.Arbitrator.Overflow.{any_overflows}
use discord_personality_bot.State.Arbitrator.{Keyed, keyed_lt, with_keys, sort_changes, arbitrate}
use discord_personality_bot.State.Arbitration.Merging.{admissible, screen_all-admissible}
use discord_personality_bot.State.Arbitration.Provenance.{Stems, members-IsAdmitted, group-Stems}

with_keys-total :
    (cs : List AcceptedChange)
    → All (λ c. layer_of c.domain ≢ none) cs
    → (ks : List Keyed) × (with_keys cs ≡ ok ks)
unfolding with_keys commit_order_key
with_keys-total [] h = ([], refl)
with_keys-total (c ∷ cs) h = elim (Option-cases (layer_of c.domain)) [
  | inl e ↦ absurd (h.0 e)
  | inr (l, e) ↦ let (ks, f) = with_keys-total cs h.1 in (((l, c.domain), c) ∷ ks, ground arith)
]

screened-layer :
    (policy : ArbitrationPolicy) (p : Proposal)
    → screen_reason policy p ≡ none
    → layer_of p.target_domain ≢ none
unfolding screen_reason is_deep
screened-layer policy p h e = ground arith

Stems-layer :
    (policy : ArbitrationPolicy) (ps : List Proposal) (snapshot : StateSnapshot)
    (c : AcceptedChange)
    → Stems policy ps snapshot c
    → layer_of c.domain ≢ none
unfolding accept_group members target
Stems-layer policy ps snapshot c s =
    let g = s.source in
    let first = (members-IsAdmitted policy ps g s.exact).0 in
    let domain : c.domain ≡ g.first.target_domain =
      ap (λ (x : AcceptedChange). x.domain) s.change ∙ sym (ap (λ (k : Key). k.0) first.1) in
    rw domain (screened-layer policy g.first first.0)

-- Where none of the conversions and of the running sums that an arbitration makes for its groups
-- of admissible proposals overflows a float, it returns: no admissible proposal has a domain
-- without a layer.
pub arbitrate_returns :
    (policy : ArbitrationPolicy) (ps : List Proposal) (snapshot : StateSnapshot)
    → any_overflows snapshot (group (admissible policy ps)) ≡ false
    → (r : ArbitrationResult) × (arbitrate policy ps snapshot ≡ ok r)
unfolding arbitrate sort_changes
arbitrate_returns policy ps snapshot fits =
    let P = Stems policy ps snapshot in
    let R = resolve_all policy snapshot (group (admissible policy ps)) in
    let (ks, e) = with_keys-total R.0 (
      All-mono P (λ c. layer_of c.domain ≢ none) R.0 (Stems-layer policy ps snapshot)
        (group-Stems policy ps snapshot)) in
    (
      record {
        accepted = map (λ (k : Keyed). k.1) (sort keyed_lt ks);
        rejected = (screen_all policy ps).1 ++ R.1;
        received = length ps;
      },
      ground (arith, screen_all-admissible policy ps, fits),
    )
