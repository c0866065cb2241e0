-- ===== src/FirstBoot/Driving.antt =====
-- A generation that comes back clean is landed, checked and completed.
use discord_personality_bot.Base.{
  ℕ, ◌≤◌, ◌≡◌, refl, ap, arith, String, Option, none, some, List, [], number_test, text_test,
  Result, ok,
}
use discord_personality_bot.Base.Lists.{keep, length}
use discord_personality_bot.Jobs.Scheduler.{Job, is_pending, retire, pending_jobs}
use discord_personality_bot.FirstBoot.Status.{running, auditing, is_at_work}
use discord_personality_bot.FirstBoot.Store.{LifeAnchors, Store, Exec, ◌>>=◌, on_list, on_result}
use discord_personality_bot.FirstBoot.Landing.{
  land, final_consistency, overdue_jobs, is_overdue, day_problems,
}
use discord_personality_bot.FirstBoot.Landed.{landing_clears}
use discord_personality_bot.FirstBoot.Orchestrator.{
  Progress, Environment, Outcome, bring_home, settle, failed_audits, finalise, judge, drive,
}
use discord_personality_bot.FirstBoot.Earning.{IsGrown}
use discord_personality_bot.FirstBoot.Leading.{
  IsSound, consistent, IsPresent, IsAt, Completes, EndsWell-bind, Completes-Stays,
  Completes-transition, now-Stays, touch-Stays, check_in-Completes,
}

-- Before the landing no more jobs are pending than it looks at, and the life day is not of the past.
abbrev pub IsLandable : LifeAnchors → List Job → Option ℕ → Type 0
IsLandable a jobs day = (length (keep is_pending jobs) ≤ 1000) × IsPresent a.present_datetime day

abbrev IsLanded : LifeAnchors → List Job → Option ℕ → Type 0
IsLanded a jobs day =
    (overdue_jobs a.present_datetime jobs ≡ []) × (day_problems a.present_datetime day ≡ [])

day_fits :
    (present : ℕ) (day : Option ℕ)
    → IsPresent present day
    → day_problems present (elim day [ none ↦ some present | some d ↦ some d ]) ≡ []
unfolding day_problems
day_fits present none h = ground arith
day_fits present (some d) h = ground arith

-- Nothing goes wrong: the generation, the audits and the promotion, from the status in which they are
-- called, come back clean, whatever else they change; the landing does not raise; and the facts are sound.
pub record IsSmooth (env : Environment) (e r : ℕ) (a : LifeAnchors) : Type 0 where
  pub generates :
      (s : Store)
      → IsAt e running (IsLandable a) s
      → (p : Progress) × ((env.generate a r s).0 ≡ ok p)
        × IsGrown env e r a p
        × IsAt e running (IsLandable a) (env.generate a r s).1
  pub audits :
      (s : Store)
      → IsAt e auditing (IsLandable a) s
      → (failed_audits (env.first_boot_audits r a s).0 ≡ [])
        × IsAt e auditing (IsLandable a) (env.first_boot_audits r a s).1
  pub promotes :
      (s : Store)
      → IsAt e auditing (IsLandable a) s
      → ((env.promote_survivors r a s).0 ≡ ok tt)
        × IsAt e auditing (IsLandable a) (env.promote_survivors r a s).1
  pub no_fault : env.landing_fault ≡ none
  pub sound : IsSound a.present_datetime env.facts

module _ (e r : ℕ) (a : LifeAnchors) (env : Environment) (smooth : IsSmooth env e r a) where
  -- The store after a landing that does not raise.
  abbrev landed_store : Store → Store
  landed_store s = record s {
    jobs =
        (retire (is_overdue a.present_datetime) a.present_datetime (pending_jobs 1000 s.jobs)
          s.jobs).1;
    life_day = elim s.life_day [ none ↦ some a.present_datetime | some day ↦ some day ];
  }

  land_lem : (s : Store) → (n : ℕ) × (land env.landing_fault a s ≡ (ok n, landed_store s))
  unfolding land
  land_lem s = (
    (retire (is_overdue a.present_datetime) a.present_datetime (pending_jobs 1000 s.jobs) s.jobs).0,
    rw (smooth.no_fault, land) refl,
  )

  land-Completes :
      (f : Result String ℕ → Exec Outcome)
      → ((n : ℕ) → Completes e (IsAt e auditing (IsLanded a)) (f (ok n)))
      → Completes e (IsAt e auditing (IsLandable a)) (land env.landing_fault a >>= f)
  land-Completes f h = record {
    at = λ s p.
        let (n, landed) = land_lem s in
        EndsWell-bind e (land env.landing_fault a) f s (ok n) (landed_store s) landed (
          (h n).at (landed_store s) (record {
            status = p.status;
            rest = (
              landing_clears a.present_datetime s.jobs p.rest.0,
              day_fits a.present_datetime s.life_day p.rest.1,
            );
          }));
  }

  consistency-Completes :
      (f : List String → Exec Outcome)
      → Completes e (IsAt e auditing (IsLanded a)) (f [])
      → Completes e (IsAt e auditing (IsLanded a)) (final_consistency env.facts a >>= f)
  consistency-Completes f h = record {
    at = λ s p.
        EndsWell-bind e (final_consistency env.facts a) f s [] s
          (consistent env.facts a s smooth.sound p.rest.0 p.rest.1) (h.at s p);
  }

  bring_home-Completes : Completes e (IsAt e auditing (IsLandable a)) (bring_home env e r a)
  unfolding bring_home on_list on_result
  bring_home-Completes = Completes-Stays e _ _ (now-Stays e _) λ t.
      Completes-Stays e _ _ (touch-Stays e _ _ _ _) λ u. land-Completes _ λ n.
        Completes-Stays e _ _ (now-Stays e _) λ t.
          Completes-Stays e _ _ (touch-Stays e _ _ _ _)
            λ u. consistency-Completes _ (check_in-Completes e env r)

  settle-Completes : Completes e (IsAt e auditing (IsLandable a)) (settle env e r a)
  unfolding settle on_result
  settle-Completes = record {
    at = λ s p.
        let (promoted, there) = smooth.promotes s p in
        let t : Store = (env.promote_survivors r a s).1 in
        EndsWell-bind e (env.promote_survivors r a) _ s (ok tt) t (ap (λ x. (x, t)) promoted)
          (bring_home-Completes.at t there);
  }

  finalise-Completes : Completes e (IsAt e running (IsLandable a)) (finalise env e r a)
  unfolding finalise is_at_work on_list
  finalise-Completes = Completes-Stays e _ _ (now-Stays e _) λ t.
      Completes-transition e is_at_work auditing _ _ refl refl (λ row. refl)
        (record {
          at = λ s p.
              let (clean, there) = smooth.audits s p in
              EndsWell-bind e (env.first_boot_audits r a) _ s (env.first_boot_audits r a s).0
                (env.first_boot_audits r a s).1 refl
                (rw (clean, on_list) (settle-Completes.at (env.first_boot_audits r a s).1 there));
        })

  judge-Completes :
      (p : Progress)
      → IsGrown env e r a p
      → Completes e (IsAt e running (IsLandable a)) (judge env e r a p)
  unfolding judge
  judge-Completes p g = rw (g.2, g.0, g.1) finalise-Completes

  pub drive-Completes : Completes e (IsAt e running (IsLandable a)) (drive env e r a)
  unfolding drive on_result
  drive-Completes = record {
    at = λ s p.
        let (q, reply, grown, there) = smooth.generates s p in
        let t : Store = (env.generate a r s).1 in
        EndsWell-bind e (env.generate a r) _ s (ok q) t (ap (λ x. (x, t)) reply) (
          (Completes-Stays e _ _ (now-Stays e _)
              λ u. Completes-Stays e _ _ (touch-Stays e _ _ _ _) λ u. judge-Completes q grown).at
            t there);
  }
