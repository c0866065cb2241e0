-- ===== src/FirstBoot/Earning.antt =====
-- What a completed first boot has passed.
use discord_personality_bot.Base.{
  ℕ, ◌≡◌, refl, inl, inr, arith, String, Bool, true, false, not, Option-cases, List, [], ◌∷◌,
  number_test, ok,
}
use discord_personality_bot.Base.Dict.{lookup, lookup-insert_self}
use discord_personality_bot.FirstBoot.Status.{
  Status, complete, landing_failed, contradiction, audit_failed, model_unavailable, is_auditing,
}
use discord_personality_bot.FirstBoot.Store.{
  pure, LifeAnchors, BootState, Store, ◌>>=◌, on_list, now, transition, finish_run, emit, touch,
  save_report,
}
use discord_personality_bot.FirstBoot.Landing.{final_consistency}
use discord_personality_bot.FirstBoot.Machine.{status_at}
use discord_personality_bot.FirstBoot.Orchestrator.{
  Progress, Environment, is_nil, is_whole, block, conclude, commit, check_in, bring_home, settle,
  failed_audits, finalise, judge, drive,
}
use discord_personality_bot.FirstBoot.Ensuring.{
  Ensures, Ensures-bind, Ensures-list, Ensures-result, Ensures-if, block-Ensures, nil_of,
  Ensures-mono, IsApart, apart_rules, conclude-IsApart,
}

transition_moved :
    (e : ℕ) (expected : Status → Bool) (to : Status) (f : BootState → BootState) (s : Store)
    → ((row : BootState) → (f row).status ≡ row.status)
    → (transition e expected to f s).0 ≡ true
    → status_at e (transition e expected to f s).1 ≡ to
unfolding transition
transition_moved e expected to f s hs h = elim (Option-cases (lookup e s.states)) [
  | inl p ↦ let q = rw (p, transition) at h in cc q
  | inr (row, p) ↦
      let q = rw (p, transition) at h in
      rw (p, transition, q, lookup-insert_self e (f (record row { status = to })) s.states)
        (hs (record row { status = to }))
]

module _ (env : Environment) (e r : ℕ) where
  abbrev pub IsComplete : Store → Type 0
  IsComplete t = status_at e t ≡ complete

  conclude_ok :
      (moved : Bool) (s : Store)
      → (conclude env e r moved s).0.ok ≡ true
      → (moved ≡ true) × ((conclude env e r moved s).1.states ≡ s.states)
  unfolding conclude ◌>>=◌ now emit finish_run
  conclude_ok true s h = (refl, refl)
  conclude_ok false s h = absurd (ground (arith, h))

  moved-Ensures :
      (f : BootState → BootState)
      → ((row : BootState) → (f row).status ≡ row.status)
      → Ensures IsComplete (transition e is_auditing complete f >>= conclude env e r)
  unfolding ◌>>=◌
  moved-Ensures f hs = record {
    at = λ s h.
        let (moved, s') = transition e is_auditing complete f s in
        let (m, same) = conclude_ok moved s' h in
        rw same (transition_moved e is_auditing complete f s hs m);
  }

  commit-Ensures : Ensures IsComplete (commit env e r)
  unfolding commit
  commit-Ensures = Ensures-bind _ _ λ s.
      Ensures-bind _ _
        λ s. Ensures-bind _ _ λ s. Ensures-bind _ _ λ s. moved-Ensures _ (λ row. refl)

  check_in-Ensures : Ensures IsComplete (check_in env e r)
  unfolding check_in
  check_in-Ensures = Ensures-bind _ _ λ s. Ensures-bind _ _ λ s. commit-Ensures

  check_in-IsApart : IsApart (check_in env e r)
  unfolding check_in commit touch save_report
  check_in-IsApart = search (apart_rules, conclude-IsApart) depth 16

  module _ (a : LifeAnchors) where
    -- The landing left nothing behind.
    abbrev pub IsConsistent : Store → Type 0
    IsConsistent t = (final_consistency env.facts a t).0 ≡ []

    consistency_same :
        (s t : Store) → t.jobs ≡ s.jobs → t.life_day ≡ s.life_day → IsConsistent s → IsConsistent t
    unfolding final_consistency
    consistency_same s t j d h = rw (j, d) h

    checked :
        (problems : List String) (s : Store)
        → (on_list problems (check_in env e r) (block env e r contradiction) s).0.ok ≡ true
        → (problems ≡ [] → IsConsistent s)
        → let t = (on_list problems (check_in env e r) (block env e r contradiction) s).1 in
          IsComplete t × IsConsistent t
    unfolding on_list
    checked [] s h c = (
      check_in-Ensures.at s h,
      consistency_same s (check_in env e r s).1 (check_in-IsApart.jobs s)
          (check_in-IsApart.life_day s) (c refl),
    )
    checked (x ∷ xs) s h c =
        (block-Ensures {Q = λ t. IsComplete t × IsConsistent t} env e r contradiction x).at s h

    checked-Ensures :
        Ensures
          (λ t. IsComplete t × IsConsistent t)
          (final_consistency env.facts a >>= λ problems.
            on_list problems (check_in env e r) (block env e r contradiction))
    unfolding ◌>>=◌ final_consistency
    checked-Ensures = record { at = λ s h. checked (final_consistency env.facts a s).0 s h λ q. q }

    bring_home-Ensures : Ensures (λ t. IsComplete t × IsConsistent t) (bring_home env e r a)
    unfolding bring_home
    bring_home-Ensures = Ensures-bind _ _ λ s. Ensures-bind _ _ λ s. Ensures-bind _ _ λ s.
        Ensures-result _ _ _ (λ x. block-Ensures env e r landing_failed x)
          λ n landed. Ensures-bind _ _ λ s. Ensures-bind _ _ λ s. checked-Ensures

    settle-Ensures : Ensures (λ t. IsComplete t × IsConsistent t) (settle env e r a)
    unfolding settle pure
    settle-Ensures = Ensures-bind _ _ λ s.
        Ensures-result _ _ _ (λ x. record { at = λ s h. absurd (ground (arith, h)) })
          λ u promoted. bring_home-Ensures

    -- Every audit passed.
    abbrev pub IsAudited : Type 0
    IsAudited = (u : Store) × (failed_audits (env.first_boot_audits r a u).0 ≡ [])

    finalise-Ensures : Ensures (λ t. IsComplete t × IsConsistent t × IsAudited) (finalise env e r a)
    unfolding finalise
    finalise-Ensures = Ensures-bind _ _ λ s. Ensures-bind _ _ λ s. Ensures-bind _ _ λ u.
        Ensures-list _ _ _
          (λ none_left. Ensures-mono _ settle-Ensures λ t c. (c.0, c.1, (u, none_left)))
          (λ x. block-Ensures env e r audit_failed x.name)

    -- The generation came back with nothing left to do and nothing against it.
    abbrev pub IsGrown : Progress → Type 0
    IsGrown p = (p.blocked_by ≡ []) × (p.unavailable_critics ≡ []) × (is_whole p ≡ true)

    judge-Ensures :
        (p : Progress)
        → Ensures (λ t. IsComplete t × IsConsistent t × IsAudited × IsGrown p) (judge env e r a p)
    unfolding judge
    judge-Ensures p = Ensures-if (not (is_nil p.blocked_by)) _ _ (block-Ensures _ _ _ _ _) λ q1.
        Ensures-if (not (is_nil p.unavailable_critics)) _ _ (block-Ensures _ _ _ _ _) λ q2.
          Ensures-if (not (is_whole p)) _ _ (block-Ensures _ _ _ _ _) λ q3.
            Ensures-mono _ finalise-Ensures λ t c. (
              c.0,
              c.1,
              c.2,
              (nil_of p.blocked_by q1, nil_of p.unavailable_critics q2, ground (arith, q3)),
            )

    -- What a completed boot has passed, each at the store in which it was looked at.
    pub record IsEarned (t : Store) : Type 0 where
      pub stored : IsComplete t
      pub consistent : IsConsistent t
      pub audited : IsAudited
      pub grown : (u : Store) × (p : Progress) × ((env.generate a r u).0 ≡ ok p) × IsGrown p

    drive-Ensures : Ensures IsEarned (drive env e r a)
    unfolding drive
    drive-Ensures = Ensures-bind _ _ λ u.
        Ensures-result _ _ _ (λ x. block-Ensures env e r model_unavailable x)
          λ p reply. Ensures-bind _ _ λ s. Ensures-bind _ _ λ s.
            Ensures-mono _ (judge-Ensures p) λ t c. record {
              stored = c.0;
              consistent = c.1;
              audited = c.2;
              grown = (u, p, reply, c.3);
            }

    -- If driving an epoch ends well, then the epoch is stored as complete, the store that is left
    -- passes the final consistency check, at some store every audit passed, and at some store the
    -- generation replied with a whole life, with no contradiction and no critic missing.
    pub completion-IsEarned :
        (s : Store) → (drive env e r a s).0.ok ≡ true → IsEarned (drive env e r a s).1
    completion-IsEarned s h = drive-Ensures.at s h
