-- ===== src/State/Arbitration/Provenance.antt =====
-- Where an accepted change comes from: one group of admissible proposals, resolved against the
-- snapshot.
use discord_personality_bot.Base.{
  true, ◌≡◌, refl, sym, ap, inl, inr, none, some, List, [], ◌∷◌, ◌++◌, map, arith, Bool-cases,
  Option-cases, Result-cases, Key, key_beq, key_beq_iff, ok,
}
use discord_personality_bot.Base.Lists.{
  length, All, All-mono, All-both, All-keep, keep, keep-All, All-map, All-of_map,
}
use discord_personality_bot.Base.Sort.{sort, sort-All}
use discord_personality_bot.State.Layers.{commit_order_key}
use discord_personality_bot.State.Policy.{ArbitrationPolicy, for_domain}
use discord_personality_bot.State.Proposal.{Proposal, target}
use discord_personality_bot.State.Snapshot.{StateSnapshot, get}
use discord_personality_bot.State.Arbitrator.Records.{AcceptedChange, ArbitrationResult}
use discord_personality_bot.State.Arbitrator.Screen.{screen_reason, screen_all}
use discord_personality_bot.State.Arbitrator.Groups.{Group, members, group}
use discord_personality_bot.State.Arbitrator.Resolve.{
  Resolution, resolve, accept_group, resolve_all,
}
use discord_personality_bot.State.Arbitrator.Overflow.{any_overflows}
use discord_personality_bot.State.Arbitrator.{Keyed, keyed_lt, with_keys, sort_changes, arbitrate}
use discord_personality_bot.State.Arbitration.Merging.{
  passes, admissible, for_target, IsExact, screen_all-admissible, group-IsExact,
}

-- The change is what the group of its target became.
pub record Stems (policy : ArbitrationPolicy) (ps : List Proposal) (snapshot : StateSnapshot)
    (c : AcceptedChange) : Type 0 where
  pub source : Group
  pub exact : IsExact (admissible policy ps) source
  pub resolution : Resolution
  pub resolves :
      resolve (for_domain policy source.key.0) (get snapshot source.key) source ≡ ok resolution
  pub change : c ≡ accept_group (get snapshot source.key) source resolution

-- Every proposal of the group passed the screening, and is for the target of the group.
abbrev pub IsAdmitted : ArbitrationPolicy → Key → Proposal → Type 0
IsAdmitted policy k p = (screen_reason policy p ≡ none) × (target p ≡ k)

passes-none :
    (policy : ArbitrationPolicy) (p : Proposal)
    → passes policy p ≡ true
    → screen_reason policy p ≡ none
passes-none policy p h = elim (Option-cases (screen_reason policy p)) [
  | inl e ↦ e
  | inr (a, e) ↦ absurd (cc (rw e at h))
]

pub members-IsAdmitted :
    (policy : ArbitrationPolicy) (ps : List Proposal) (g : Group)
    → IsExact (admissible policy ps) g
    → All (IsAdmitted policy g.key) (members g)
unfolding for_target admissible
members-IsAdmitted policy ps g exact =
    let test = λ (p : Proposal). key_beq g.key (target p) in
    let kept = keep (passes policy) ps in
    let screened =
      All-mono (λ p. passes policy p ≡ true) (λ p. screen_reason policy p ≡ none) kept
        (passes-none policy) (keep-All (passes policy) ps) in
    let aimed =
      All-mono (λ p. test p ≡ true) (λ p. target p ≡ g.key) (keep test kept)
        (λ p e. sym ((key_beq_iff g.key (target p)).0 e)) (keep-All test kept) in
    rw exact (
      All-both (λ p. screen_reason policy p ≡ none) (λ p. target p ≡ g.key) (keep test kept)
        (All-keep (λ p. screen_reason policy p ≡ none) test kept screened) aimed)

resolve_all-Stems :
    (policy : ArbitrationPolicy) (ps : List Proposal) (snapshot : StateSnapshot) (gs : List Group)
    → All (IsExact (admissible policy ps)) gs
    → All (Stems policy ps snapshot) (resolve_all policy snapshot gs).0
unfolding resolve_all
resolve_all-Stems policy ps snapshot [] h = tt
resolve_all-Stems policy ps snapshot (g ∷ gs) h =
    elim (Result-cases (resolve (for_domain policy g.key.0) (get snapshot g.key) g)) [
      | inl (r, e) ↦
          rw (e, resolve_all, All)
            (
              record { source = g; exact = h.0; resolution = r; resolves = e; change = refl },
              resolve_all-Stems policy ps snapshot gs h.1,
            )
      | inr (reason, e) ↦ rw (e, resolve_all, All) (resolve_all-Stems policy ps snapshot gs h.1)
    ]

-- What a call that returned has sorted, and what it returned.
pub record Returns (policy : ArbitrationPolicy) (ps : List Proposal) (snapshot : StateSnapshot)
    (r : ArbitrationResult) : Type 0 where
  pub keyed : List Keyed
  pub keys_of : with_keys (resolve_all policy snapshot (group (admissible policy ps))).0 ≡ ok keyed
  pub ordered : r.accepted ≡ map (λ (k : Keyed). k.1) (sort keyed_lt keyed)
  pub refused :
      r.rejected
      ≡ (screen_all policy ps).1 ++ (resolve_all policy snapshot (group (admissible policy ps))).1
  pub counted : r.received ≡ length ps

pub arbitrate-Returns :
    (policy : ArbitrationPolicy) (ps : List Proposal) (snapshot : StateSnapshot)
    (r : ArbitrationResult)
    → arbitrate policy ps snapshot ≡ ok r
    → Returns policy ps snapshot r
unfolding arbitrate sort_changes
arbitrate-Returns policy ps snapshot r h =
    let h' = rw (screen_all-admissible policy ps) at h in
    elim (Bool-cases (any_overflows snapshot (group (admissible policy ps)))) [
      | inl large ↦ absurd (cc (rw large at h'))
      | inr fits ↦
          let h'' = rw fits at h' in
          elim (Result-cases
            (with_keys (resolve_all policy snapshot (group (admissible policy ps))).0)) [
              | inl (ks, e) ↦ record {
                keyed = ks;
                keys_of = e;
                ordered = ground (arith, h'');
                refused = ground (arith, h'');
                counted = ground (arith, h'');
              }
              | inr (x, e) ↦ absurd (ground (arith, h''))
            ]
    ]

-- Every change carries the key of its domain.
abbrev pub IsKeyed : Keyed → Type 0
IsKeyed k = commit_order_key k.1.domain ≡ some k.0

pub with_keys-IsKeyed :
    (cs : List AcceptedChange) (ks : List Keyed)
    → with_keys cs ≡ ok ks
    → (map (λ (k : Keyed). k.1) ks ≡ cs) × All IsKeyed ks
unfolding with_keys
with_keys-IsKeyed [] ks h = let e : ks ≡ [] = ground arith in rw e (refl, tt)
with_keys-IsKeyed (c ∷ cs) ks h = elim (Option-cases (commit_order_key c.domain)) [
  | inl e ↦ absurd (ground arith)
  | inr (k, e) ↦ elim (Result-cases (with_keys cs)) [
    | inl (rest, f) ↦
        let whole : ks ≡ (k, c) ∷ rest = ground arith in
        let tails = with_keys-IsKeyed cs rest f in rw whole (ap (◌∷◌ c) tails.0, (e, tails.1))
    | inr (x, f) ↦ absurd (ground arith)
  ]
]

pub group-Stems :
    (policy : ArbitrationPolicy) (ps : List Proposal) (snapshot : StateSnapshot)
    → All (Stems policy ps snapshot) (resolve_all policy snapshot (group (admissible policy ps))).0
group-Stems policy ps snapshot =
    resolve_all-Stems policy ps snapshot (group (admissible policy ps))
      (group-IsExact (admissible policy ps))

pub arbitrate-Stems :
    (policy : ArbitrationPolicy) (ps : List Proposal) (snapshot : StateSnapshot)
    (r : ArbitrationResult)
    → arbitrate policy ps snapshot ≡ ok r
    → All (Stems policy ps snapshot) r.accepted
arbitrate-Stems policy ps snapshot r h =
    let ret = arbitrate-Returns policy ps snapshot r h in
    let P = Stems policy ps snapshot in
    let cs = (resolve_all policy snapshot (group (admissible policy ps))).0 in
    let same = (with_keys-IsKeyed cs ret.keyed ret.keys_of).0 in
    let each : All P (map (λ (k : Keyed). k.1) ret.keyed) =
      rw same (group-Stems policy ps snapshot) in
    rw ret.ordered (
      All-map P (λ (k : Keyed). k.1) (sort keyed_lt ret.keyed)
        (sort-All keyed_lt (λ (k : Keyed). P k.1) ret.keyed
          (All-of_map P (λ (k : Keyed). k.1) ret.keyed each)))
