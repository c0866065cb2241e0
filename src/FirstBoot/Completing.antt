-- ===== src/FirstBoot/Completing.antt =====
-- A resume that finds nothing wrong completes the first boot.
use discord_personality_bot.Base.{
  ℕ, ◌≡◌, refl, ap, inl, inr, arith, String, Bool, true, false, not, ◌&&◌, Option, none, some,
  Option-cases, number_test, text_test, ◌==◌,
}
use discord_personality_bot.Base.Dict.{lookup, beq_refl}
use discord_personality_bot.FirstBoot.Status.{
  Status, running, complete, is_resumable, is_complete, is_blocked_fatal,
}
use discord_personality_bot.FirstBoot.Store.{
  LifeAnchors, BootState, Lease, Store, Exec, pure, ◌>>=◌, ◌>>◌, on_option, now, get, acquire,
  release, lease_is_live, is_live,
}
use discord_personality_bot.FirstBoot.Machine.{status_at}
use discord_personality_bot.FirstBoot.Orchestrator.{
  Environment, Outcome, stored_anchors, with_lease, carry_on, resume_run, resume,
}
use discord_personality_bot.FirstBoot.Legal.{release_same}
use discord_personality_bot.FirstBoot.Leading.{
  IsExpired, is_pending_status, IsAt, Completes, EndsWell, EndsWell-bind, EndsWell-option,
  EndsWell-else, Completes-Stays, Completes-transition, now-Stays, bump_attempt-Stays, emit-Stays,
}
use discord_personality_bot.FirstBoot.Driving.{IsLandable, IsSmooth, drive-Completes}

abbrev is_free : ℕ → Option Lease → Bool
is_free t none = true
is_free t (some lease) = not (is_live t lease)

free_now :
    (env : Environment) (lease : Option Lease) (t : ℕ)
    → IsExpired env lease
    → is_free (env.clock t) lease ≡ true
free_now env none t h = refl
free_now env (some lease) t h = rw (h t) refl

not_alive :
    (env : Environment) (s : Store) (t : ℕ)
    → IsExpired env s.lease
    → lease_is_live (env.clock t) s ≡ (false, s)
unfolding lease_is_live
not_alive env s t h = elim (Option-cases s.lease) [
  | inl p ↦ rw p refl
  | inr (lease, p) ↦ let dead : IsExpired env (some lease) = rw p at h in rw (p, dead t) refl
]

same_hash : (x y : String) → x ≡ y → (not (x == "") && not (x == y)) ≡ false
same_hash x y h = rw h (ground (arith, beq_refl y))

resumable_row : (st : Status) → is_resumable st ≡ true → is_pending_status st ≡ false
unfolding is_resumable
resumable_row st h = ground arith

resumable_open :
    (st : Status)
    → is_resumable st ≡ true
    → (is_complete st ≡ false) × (is_blocked_fatal st ≡ false)
unfolding is_resumable
resumable_open st h = (ground arith, ground arith)

module _ (e r : ℕ) (a : LifeAnchors) (env : Environment) (smooth : IsSmooth env e r a) where
  carry_on-Completes :
      (state : BootState) (st : Status)
      → is_pending_status st ≡ false
      → is_resumable st ≡ true
      → Completes e (IsAt e st (IsLandable a)) (carry_on env e r a state)
  unfolding carry_on
  carry_on-Completes state st there again = Completes-Stays e _ _ (now-Stays e _) λ t.
      Completes-transition e is_resumable running _ _ there again (λ row. refl)
        (Completes-Stays e _ _ (bump_attempt-Stays e _)
          λ u. Completes-Stays e _ _ (emit-Stays e _) λ u. drive-Completes e r a env smooth)

  acquire_free :
      (s : Store) (t : ℕ)
      → is_free t s.lease ≡ true
      → (lease : Lease) × (acquire e t env.process s ≡ (true, record s { lease = some lease }))
  unfolding acquire
  acquire_free s t h = (
    record { epoch_id = e; holder = env.process; acquired_at = t; heartbeat_at = t },
    ground arith,
  )

  release_ends :
      (body : Exec Outcome) (s : Store)
      → EndsWell e (body s)
      → EndsWell e ((body >>= λ o. release env.process >> pure o) s)
  unfolding ◌>>=◌
  release_ends body s h = (h.0, rw (release_same env.process (body s).1) h.1)

  -- The lease is free whenever it is looked at, so that it is taken.
  with_lease-Completes :
      (old st : Status) (body : Exec Outcome) (s : Store)
      → IsExpired env s.lease
      → IsAt e st (IsLandable a) s
      → Completes e (IsAt e st (IsLandable a)) body
      → EndsWell e (with_lease env e old body s)
  unfolding with_lease now
  with_lease-Completes old st body s free p k =
      let s1 : Store = (now env.clock s).1 in
      let (lease, taken) =
        acquire_free s1 (env.clock s.ticks) (free_now env s.lease s.ticks free) in
      EndsWell-bind e (now env.clock) _ s (env.clock s.ticks) s1 refl (
        EndsWell-bind e (acquire e (env.clock s.ticks) env.process) _ s1 true
          (record s1 { lease = some lease }) taken
          (release_ends body (record s1 { lease = some lease })
            (k.at (record s1 { lease = some lease })
              (record { status = p.status; rest = p.rest }))))

  resume_run-Completes :
      (state : BootState) (s : Store)
      → IsExpired env s.lease
      → IsAt e state.status (IsLandable a) s
      → is_resumable state.status ≡ true
      → lookup r s.life_anchors ≡ some a
      → state.anchors_fingerprint ≡ env.fingerprint a
      → EndsWell e (resume_run env e r state s)
  unfolding resume_run now lease_is_live stored_anchors on_option
  resume_run-Completes state s free p again saved hash =
      let s1 : Store = (now env.clock s).1 in
      EndsWell-bind e (now env.clock) _ s (env.clock s.ticks) s1 refl (
        EndsWell-bind e (lease_is_live (env.clock s.ticks)) _ s1 false s1
          (not_alive env s1 s.ticks free)
          (EndsWell-bind e (stored_anchors r) _ s1 (some a) s1 (ap (λ x. (x, s1)) saved) (
            rw (same_hash state.anchors_fingerprint (env.fingerprint a) hash) (
              with_lease-Completes state.status state.status (carry_on env e r a state) s1 free
                (record { status = p.status; rest = p.rest })
                (carry_on-Completes state state.status (resumable_row state.status again) again)))))

-- A first boot with a row that may be resumed, with a run, with stored anchors that match its
-- fingerprint, and with no live lease, ends well when it is resumed and is stored as complete, if
-- the generation, the audits and the promotion of the survivors come back clean and leave the
-- status and the fit of the jobs and the life day, the landing does not raise, the facts are
-- sound, at most 1000 jobs are pending, and no life day of the past is open.
pub resume_completes :
    (env : Environment) (e r : ℕ) (a : LifeAnchors) (state : BootState) (s : Store)
    → IsSmooth env e r a
    → env.epoch ≡ some e
    → lookup e s.states ≡ some state
    → is_resumable state.status ≡ true
    → state.genesis_run_id ≡ some r
    → lookup r s.life_anchors ≡ some a
    → state.anchors_fingerprint ≡ env.fingerprint a
    → IsExpired env s.lease
    → IsLandable a s.jobs s.life_day
    → ((resume env s).0.ok ≡ true) × (status_at e (resume env s).1 ≡ complete)
unfolding resume get
resume_completes env e r a state s smooth epoch row again run saved hash free fit =
    EndsWell-option e env.epoch e _ _ s epoch (
      EndsWell-bind e (get e) _ s (lookup e s.states) s refl (
        EndsWell-option e (lookup e s.states) state _ _ s row (
          EndsWell-else e (is_complete state.status) _ _ s (resumable_open state.status again).0 (
            EndsWell-else e (is_blocked_fatal state.status) _ _ s
              (resumable_open state.status again).1
              (EndsWell-else e (not (is_resumable state.status)) _ _ s (ap not again) (
                EndsWell-option e state.genesis_run_id r _ _ s run (
                  resume_run-Completes e r a env smooth state s free
                    (record { status = rw row refl; rest = fit }) again saved hash)))))))
