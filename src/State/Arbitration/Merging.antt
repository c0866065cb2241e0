-- ===== src/State/Arbitration/Merging.antt =====
-- The groups of the arbitrator: one for each target, with exactly the admissible proposals for it.
use mathlib.Core.List.{append_assoc, append-nil}
use discord_personality_bot.Base.{
  Bool, ◌≡◌, refl, sym, ap, ◌∙◌, ◌≢◌, inl, inr, List, [], ◌∷◌, ◌++◌, arith, Bool-cases, Key,
  key_test, key_beq, key_beq_iff, is_some, not,
}
use discord_personality_bot.Base.Lists.{All, DistinctBy, keep, keep-append}
use discord_personality_bot.Base.Sort.{sort-All, sort-DistinctBy}
use discord_personality_bot.State.Policy.{ArbitrationPolicy}
use discord_personality_bot.State.Proposal.{Proposal, target}
use discord_personality_bot.State.Arbitrator.Screen.{screen_reason, screen_all}
use discord_personality_bot.State.Arbitrator.Groups.{
  Group, members, add_to_group, collect, group, group_lt,
}

-- The proposals that screening lets through, in order.
abbrev pub passes : ArbitrationPolicy → Proposal → Bool
passes policy p = not (is_some (screen_reason policy p))

unfoldable pub admissible : ArbitrationPolicy → List Proposal → List Proposal
unfolding keep
admissible policy = keep (passes policy)

unfoldable pub for_target : Key → List Proposal → List Proposal
for_target k = keep (λ p. key_beq k (target p))

pub screen_all-admissible :
    (policy : ArbitrationPolicy) (ps : List Proposal)
    → (screen_all policy ps).0 ≡ admissible policy ps
unfolding screen_all admissible
screen_all-admissible policy [] = refl
screen_all-admissible policy (p ∷ ps) = ground (arith, screen_all-admissible policy ps)

for_target-append_self :
    (k : Key) (p : Proposal) (seen : List Proposal)
    → k ≡ target p
    → for_target k (seen ++ p ∷ []) ≡ for_target k seen ++ p ∷ []
unfolding for_target
for_target-append_self k p seen e =
    keep-append (λ q. key_beq k (target q)) seen (p ∷ [])
    ∙ (unfold keep in rw ((key_beq_iff k (target p)).1 e))

for_target-append_ne :
    (k : Key) (p : Proposal) (seen : List Proposal)
    → k ≢ target p
    → for_target k (seen ++ p ∷ []) ≡ for_target k seen
unfolding for_target
for_target-append_ne k p seen ne = elim (Bool-cases (key_beq k (target p))) [
  | inl e ↦ absurd (ne ((key_beq_iff k (target p)).0 e))
  | inr e ↦
      keep-append (λ q. key_beq k (target q)) seen (p ∷ [])
      ∙ (unfold keep in rw e (append-nil (keep (λ q. key_beq k (target q)) seen)))
]

-- The group holds exactly the proposals for its target.
abbrev pub IsExact : List Proposal → Group → Type 0
IsExact seen g = members g ≡ for_target g.key seen

-- No group is for `k`.
abbrev Lacks : Key → List Group → Type 0
Lacks k gs = All (λ (g : Group). g.key ≢ k) gs

IsExact-others :
    (p : Proposal) (seen : List Proposal) (gs : List Group)
    → Lacks (target p) gs
    → All (IsExact seen) gs
    → All (IsExact (seen ++ p ∷ [])) gs
IsExact-others p seen [] ne h = tt
IsExact-others p seen (g ∷ gs) ne h =
    (h.0 ∙ sym (for_target-append_ne g.key p seen ne.0), IsExact-others p seen gs ne.1 h.1)

Lacks-of_distinct :
    (k l : Key) (gs : List Group) → k ≡ l → All (λ (g : Group). k ≢ g.key) gs → Lacks l gs
Lacks-of_distinct k l [] e h = tt
Lacks-of_distinct k l (g ∷ gs) e h = ((λ q. h.0 (e ∙ sym q)), Lacks-of_distinct k l gs e h.1)

add_to_group-IsExact :
    (p : Proposal) (seen : List Proposal) (gs : List Group)
    → (Lacks (target p) gs → for_target (target p) seen ≡ [])
    → DistinctBy (λ (g : Group). g.key) gs
    → All (IsExact seen) gs
    → All (IsExact (seen ++ p ∷ [])) (add_to_group p gs)
unfolding add_to_group members
add_to_group-IsExact p seen [] none_yet d h =
    (sym (for_target-append_self (target p) p seen refl ∙ ap (λ l. l ++ p ∷ []) (none_yet tt)), tt)
add_to_group-IsExact p seen (g ∷ gs) none_yet d h = elim (Bool-cases (key_beq g.key (target p))) [
  | inl e ↦
      let same : g.key ≡ target p = (key_beq_iff g.key (target p)).0 e in
      rw e (
        ap (λ l. l ++ p ∷ []) h.0 ∙ sym (for_target-append_self g.key p seen same),
        IsExact-others p seen gs (Lacks-of_distinct g.key (target p) gs same d.0) h.1,
      )
  | inr e ↦
      let other : g.key ≢ target p = (λ q. cc (e, (key_beq_iff g.key (target p)).1 q)) in
      rw e (
        h.0 ∙ sym (for_target-append_ne g.key p seen other),
        add_to_group-IsExact p seen gs (λ l. none_yet (other, l)) d.1 h.1,
      )
]

-- A key that the groups lacked before and after is not the target of the proposal.
add_to_group-Lacks :
    (k : Key) (p : Proposal) (gs : List Group)
    → Lacks k (add_to_group p gs)
    → Lacks k gs × (target p ≢ k)
unfolding add_to_group
add_to_group-Lacks k p [] h = (tt, h.0)
add_to_group-Lacks k p (g ∷ gs) h = elim (Bool-cases (key_beq g.key (target p))) [
  | inl e ↦
      let kept : Lacks k (record g { rest = g.rest ++ p ∷ [] } ∷ gs) = rw e at h in
      ((kept.0, kept.1), (λ q. kept.0 ((key_beq_iff g.key (target p)).0 e ∙ q)))
  | inr e ↦
      let kept : Lacks k (g ∷ add_to_group p gs) = rw e at h in
      let r = add_to_group-Lacks k p gs kept.1 in ((kept.0, r.0), r.1)
]

add_to_group-All_ne :
    (k : Key) (p : Proposal) (gs : List Group)
    → k ≢ target p
    → All (λ (g : Group). k ≢ g.key) gs
    → All (λ (g : Group). k ≢ g.key) (add_to_group p gs)
unfolding add_to_group
add_to_group-All_ne k p [] ne h = (ne, tt)
add_to_group-All_ne k p (g ∷ gs) ne h = elim (Bool-cases (key_beq g.key (target p))) [
  | inl e ↦ rw e h
  | inr e ↦ rw e (h.0, add_to_group-All_ne k p gs ne h.1)
]

add_to_group-DistinctBy :
    (p : Proposal) (gs : List Group)
    → DistinctBy (λ (g : Group). g.key) gs
    → DistinctBy (λ (g : Group). g.key) (add_to_group p gs)
unfolding add_to_group
add_to_group-DistinctBy p [] d = (tt, tt)
add_to_group-DistinctBy p (g ∷ gs) d = elim (Bool-cases (key_beq g.key (target p))) [
  | inl e ↦ rw e d
  | inr e ↦ rw e (
    add_to_group-All_ne g.key p gs (λ q. cc (e, (key_beq_iff g.key (target p)).1 q)) d.0,
    add_to_group-DistinctBy p gs d.1,
  )
]

record IsGrouping (seen : List Proposal) (gs : List Group) : Type 0 where
  exact : All (IsExact seen) gs
  distinct : DistinctBy (λ (g : Group). g.key) gs
  covers : (k : Key) → Lacks k gs → for_target k seen ≡ []

add_to_group-IsGrouping :
    (p : Proposal) (seen : List Proposal) (gs : List Group)
    → IsGrouping seen gs
    → IsGrouping (seen ++ p ∷ []) (add_to_group p gs)
add_to_group-IsGrouping p seen gs h = record {
  exact = add_to_group-IsExact p seen gs (h.covers (target p)) h.distinct h.exact;
  distinct = add_to_group-DistinctBy p gs h.distinct;
  covers = λ k l.
      let r = add_to_group-Lacks k p gs l in
      for_target-append_ne k p seen (λ q. r.1 (sym q)) ∙ h.covers k r.0;
}

collect-IsGrouping :
    (ps seen : List Proposal) (gs : List Group)
    → IsGrouping seen gs
    → IsGrouping (seen ++ ps) (collect ps gs)
unfolding collect
collect-IsGrouping [] seen gs h = rw (append-nil seen) h
collect-IsGrouping (p ∷ ps) seen gs h = rw (append_assoc seen (p ∷ []) ps) at (
    collect-IsGrouping ps (seen ++ p ∷ []) (add_to_group p gs)
      (add_to_group-IsGrouping p seen gs h))

grouping : (ps : List Proposal) → IsGrouping ps (collect ps [])
unfolding for_target keep
grouping ps =
    collect-IsGrouping ps [] [] (record { exact = tt; distinct = tt; covers = λ k l. refl })

pub group-IsExact : (ps : List Proposal) → All (IsExact ps) (group ps)
unfolding group
group-IsExact ps = sort-All group_lt (IsExact ps) (collect ps []) (grouping ps).exact

pub group-DistinctBy : (ps : List Proposal) → DistinctBy (λ (g : Group). g.key) (group ps)
unfolding group
group-DistinctBy ps =
    sort-DistinctBy group_lt (λ (g : Group). g.key) (collect ps []) (grouping ps).distinct
