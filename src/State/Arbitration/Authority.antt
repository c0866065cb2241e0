-- ===== src/State/Arbitration/Authority.antt =====
-- Who may change what: only the registered writer, and deep state only by consolidation.
use mathlib.Core.List.{Memᴰ}
use text.Mathlib.TextEquality.{eq_iff}
use discord_personality_bot.Base.{
  true, ◌≡◌, ◌≢◌, refl, ap, ◌⊎◌, inl, inr, none, some, List, String, Option-cases, arith, text_test,
  Key, ok,
}
use discord_personality_bot.Base.Lists.{All-mem}
use discord_personality_bot.Base.Dict.{lookup}
use discord_personality_bot.State.Ownership.{ownership, admin_writer, may_write}
use discord_personality_bot.State.Layers.{layer_of, is_deep, deep, is_consolidation_writer}
use discord_personality_bot.State.Policy.{ArbitrationPolicy}
use discord_personality_bot.State.Proposal.{Proposal, target}
use discord_personality_bot.State.Snapshot.{StateSnapshot}
use discord_personality_bot.State.Arbitrator.Records.{AcceptedChange, ArbitrationResult}
use discord_personality_bot.State.Arbitrator.Screen.{screen_reason, screen_policy}
use discord_personality_bot.State.Arbitrator.Groups.{members}
use discord_personality_bot.State.Arbitrator.Resolve.{accept_group}
use discord_personality_bot.State.Arbitrator.{arbitrate}
use discord_personality_bot.State.Arbitration.Provenance.{
  Stems, arbitrate-Stems, members-IsAdmitted,
}

-- The module is the registered writer of the domain, or the admin control plane at a known domain.
abbrev pub IsWriter : String → String → Type 0
IsWriter domain m =
    (lookup domain ownership ≡ some m) ⊎ ((m ≡ admin_writer) × (lookup domain ownership ≢ none))

may_write-IsWriter : (d m : String) → may_write d m ≡ true → IsWriter d m
unfolding may_write
may_write-IsWriter d m h = elim (Option-cases (lookup d ownership)) [
  | inl e ↦ absurd (ground arith)
  | inr (w, e) ↦ ground (arith, eq_iff m admin_writer, eq_iff w m)
]

screened-IsWriter :
    (policy : ArbitrationPolicy) (p : Proposal)
    → screen_reason policy p ≡ none
    → may_write p.target_domain p.source_module ≡ true
unfolding screen_reason
screened-IsWriter policy p h = ground arith

abbrev pub Consolidates : String → Type 0
Consolidates m = (m ≡ "growth_engine") ⊎ (m ≡ "value_engine")

screened_deep :
    (policy : ArbitrationPolicy) (p : Proposal)
    → screen_reason policy p ≡ none
    → layer_of p.target_domain ≡ some deep
    → Consolidates p.source_module
unfolding screen_reason screen_policy is_deep is_consolidation_writer
screened_deep policy p h l =
    ground (arith, eq_iff p.source_module "growth_engine", eq_iff p.source_module "value_engine")

not-admin : (m : String) → Consolidates m → m ≢ admin_writer
not-admin m c e = elim c [
  | inl g ↦ ground (arith, eq_iff "growth_engine" admin_writer)
  | inr v ↦ ground (arith, eq_iff "value_engine" admin_writer)
]

module _ (policy : ArbitrationPolicy) (ps : List Proposal) (snapshot : StateSnapshot)
    (r : ArbitrationResult) (c : AcceptedChange) (returned : arbitrate policy ps snapshot ≡ ok r)
    (m : Memᴰ c r.accepted) where
  -- An accepted change stems from a screened proposal with its domain and its module.
  change_source :
      (p : Proposal) × (screen_reason policy p ≡ none)
      × (p.target_domain ≡ c.domain)
      × (p.source_module ≡ c.source_module)
  unfolding accept_group members target
  change_source =
      let s =
        All-mem (Stems policy ps snapshot) c r.accepted
          (arbitrate-Stems policy ps snapshot r returned) m in
      let first = (members-IsAdmitted policy ps s.source s.exact).0 in
      rw s.change (s.source.first, first.0, ap (λ (k : Key). k.0) first.1, refl)

  -- The module of an accepted change is the registered writer of its domain, or the admin control
  -- plane at a known domain.
  pub accepted_by-IsWriter : IsWriter c.domain c.source_module
  accepted_by-IsWriter =
      let (p, e, d, w) = change_source in
      rw (← d, ← w)
        (may_write-IsWriter p.target_domain p.source_module (screened-IsWriter policy p e))

  -- An accepted change of a deep domain comes from the writer registered for the domain, and this
  -- is the growth engine or the value engine, so never the admin control plane.
  pub deep_by_owner :
      layer_of c.domain ≡ some deep
      → (lookup c.domain ownership ≡ some c.source_module)
        × Consolidates c.source_module
        × (c.source_module ≢ admin_writer)
  deep_by_owner l =
      let (p, e, d, w) = change_source in
      let by : Consolidates c.source_module = rw (← w) (screened_deep policy p e (rw d l)) in
      let other = not-admin c.source_module by in
      elim accepted_by-IsWriter [ inl o ↦ (o, by, other) | inr a ↦ absurd (other a.0) ]
