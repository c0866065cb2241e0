-- ===== src/FirstBoot/Leading.antt =====
-- Rules for calls that end well and leave an epoch complete.
use mathlib.Core.Path.{subst}
use discord_personality_bot.Base.{
  ◌∙◌, ℕ, ◌≤◌, ◌<◌, ◌≡◌, refl, sym, inl, inr, arith, String, Bool, true, false, Bool-cases, Option,
  none, some, Option-cases, List, [], nat_beq, nat_beq_iff, number_test, text_test, if◌then◌else◌,
}
use discord_personality_bot.Base.Dict.{lookup, insert, lookup-insert, lookup-insert_self}
use discord_personality_bot.Jobs.Scheduler.{Job}
use discord_personality_bot.FirstBoot.Status.{Status, pending, auditing, complete, is_auditing}
use discord_personality_bot.FirstBoot.Store.{
  LifeAnchors, BootState, Lease, Lifecycle, Store, Exec, ◌>>=◌, on_option, now, update, transition,
  finish_run, emit, touch, save_report, bump_attempt, is_live,
}
use discord_personality_bot.FirstBoot.Landing.{
  Facts, final_consistency, overdue_jobs, stale_emotions, total, day_problems,
}
use discord_personality_bot.FirstBoot.Machine.{status_at}
use discord_personality_bot.FirstBoot.Orchestrator.{
  Environment, Outcome, is_nil, conclude, commit, check_in,
}

-- The facts of a life that is not empty and has come to rest.
pub record IsSound (present : ℕ) (facts : Facts) : Type 0 where
  pub years : is_nil facts.months ≡ false
  pub months : 0 < total facts.months
  pub experiences : 0 < facts.experiences
  pub memories : 0 < facts.memories
  pub idle : facts.has_activity ≡ false
  pub awake : facts.is_asleep ≡ false
  pub calm : stale_emotions present facts.emotions ≡ []

pub consistent :
    (facts : Facts) (a : LifeAnchors) (s : Store)
    → IsSound a.present_datetime facts
    → overdue_jobs a.present_datetime s.jobs ≡ []
    → day_problems a.present_datetime s.life_day ≡ []
    → final_consistency facts a s ≡ ([], s)
unfolding final_consistency
consistent facts a s sound o d = ground (arith, sound.calm, o, d)

-- No lease is live, whenever the clock is read.
abbrev pub IsExpired : Environment → Option Lease → Type 0
IsExpired env none = Unit
IsExpired env (some lease) = (t : ℕ) → is_live (env.clock t) lease ≡ false

-- No life day is open, or one that starts in the present.
abbrev pub IsPresent : ℕ → Option ℕ → Type 0
IsPresent present none = Unit
IsPresent present (some day) = present ≤ day

abbrev pub is_pending_status : Status → Bool
is_pending_status pending = true
is_pending_status _ = false

-- The status of the epoch, and a condition on the jobs and the life day.
pub record IsAt (e : ℕ) (st : Status) (J : List Job → Option ℕ → Type 0) (s : Store) : Type 0 where
  pub status : status_at e s ≡ st
  pub rest : J s.jobs s.life_day

module _ (e : ℕ) where
  -- The call leaves alone what such a condition speaks of.
  pub record Stays {A : Type 0} (m : Exec A) : Type 0 where
    pub status : (s : Store) → status_at e (m s).1 ≡ status_at e s
    pub jobs : (s : Store) → (m s).1.jobs ≡ s.jobs
    pub life_day : (s : Store) → (m s).1.life_day ≡ s.life_day

  abbrev pub EndsWell : Outcome × Store → Type 0
  EndsWell p = (p.0.ok ≡ true) × (status_at e p.1 ≡ complete)

  -- A step of which the result and the store are known.
  pub EndsWell-bind :
      {A : Type 0} (m : Exec A) (f : A → Exec Outcome) (s : Store) (b : A) (t : Store)
      → m s ≡ (b, t)
      → EndsWell (f b t)
      → EndsWell ((m >>= f) s)
  unfolding ◌>>=◌
  EndsWell-bind m f s b t q h = subst (λ x. EndsWell (f x.0 x.1)) (sym q) h

  pub EndsWell-option :
      {A : Type 0} (o : Option A) (a : A) (m : Exec Outcome) (f : A → Exec Outcome) (s : Store)
      → o ≡ some a
      → EndsWell (f a s)
      → EndsWell (on_option o m f s)
  unfolding on_option
  EndsWell-option o a m f s q h = rw q h

  pub EndsWell-else :
      (b : Bool) (m n : Exec Outcome) (s : Store)
      → b ≡ false
      → EndsWell (n s)
      → EndsWell ((if b then m else n) s)
  EndsWell-else b m n s q h = rw q h

  -- From `P` the call ends well, and leaves the epoch complete.
  pub record Completes (P : Store → Type 0) (m : Exec Outcome) : Type 0 where
    pub at : (s : Store) → P s → ((m s).0.ok ≡ true) × (status_at e (m s).1 ≡ complete)

  module _ {A : Type 0} {st : Status} {J : List Job → Option ℕ → Type 0} where
    pub Completes-Stays :
        (m : Exec A) (f : A → Exec Outcome)
        → Stays m
        → ((a : A) → Completes (IsAt e st J) (f a))
        → Completes (IsAt e st J) (m >>= f)
    unfolding ◌>>=◌
    Completes-Stays m f k h = record {
      at = λ s p.
          (h (m s).0).at (m s).1
            (record { status = k.status s ∙ p.status; rest = rw (k.jobs s, k.life_day s) p.rest });
    }

  transition_lem :
      (expected : Status → Bool) (to : Status) (g : BootState → BootState) (s : Store)
      → is_pending_status (status_at e s) ≡ false
      → expected (status_at e s) ≡ true
      → ((row : BootState) → (g row).status ≡ row.status)
      → ((transition e expected to g s).0 ≡ true)
        × (status_at e (transition e expected to g s).1 ≡ to)
        × ((transition e expected to g s).1.jobs ≡ s.jobs)
        × ((transition e expected to g s).1.life_day ≡ s.life_day)
  unfolding transition
  transition_lem expected to g s there q hs = elim (Option-cases (lookup e s.states)) [
    | inl p ↦ let n = rw p at there in cc n
    | inr (row, p) ↦
        let q' = rw p at q in
        rw (p, transition, q')
          (
            refl,
            rw (lookup-insert_self e (g (record row { status = to })) s.states)
                (hs (record row { status = to })),
            refl,
            refl,
          )
  ]

  module _ {st : Status} {J : List Job → Option ℕ → Type 0} where
    pub Completes-transition :
        (expected : Status → Bool) (to : Status) (g : BootState → BootState)
        (f : Bool → Exec Outcome)
        → is_pending_status st ≡ false
        → expected st ≡ true
        → ((row : BootState) → (g row).status ≡ row.status)
        → Completes (IsAt e to J) (f true)
        → Completes (IsAt e st J) (transition e expected to g >>= f)
    unfolding ◌>>=◌
    Completes-transition expected to g f there q hs h = record {
      at = λ s p.
          let (m, t, js, d) =
            transition_lem expected to g s (rw p.status there) (rw p.status q) hs in
          let h' : Completes (IsAt e to J) (f (transition e expected to g s).0) = rw m h in
          (h'.at (transition e expected to g s).1
            (record { status = t; rest = rw (js, d) p.rest }));
    }

  insert_status :
      (i : ℕ) (row new : BootState) (s : Store)
      → lookup i s.states ≡ some row
      → new.status ≡ row.status
      → status_at e (record s { states = insert i new s.states }) ≡ status_at e s
  insert_status i row new s p h = elim (Bool-cases (nat_beq i e)) [
    | inl q ↦ rw (lookup-insert i e new s.states, q, ← (nat_beq_iff i e).0 q, p) h
    | inr q ↦ rw (lookup-insert i e new s.states, q) refl
  ]

  update-Stays :
      (i : ℕ) (f : BootState → BootState)
      → ((row : BootState) → (f row).status ≡ row.status)
      → Stays (update i f)
  unfolding update
  update-Stays i f hs = record {
    status = λ s. elim (Option-cases (lookup i s.states)) [
      | inl p ↦ rw (p, update) refl
      | inr (row, p) ↦ rw (p, update) (insert_status i row (f row) s p (hs row))
    ];
    jobs = λ s. elim (Option-cases (lookup i s.states)) [
      | inl p ↦ rw (p, update) refl
      | inr (row, p) ↦ rw (p, update) refl
    ];
    life_day = λ s. elim (Option-cases (lookup i s.states)) [
      | inl p ↦ rw (p, update) refl
      | inr (row, p) ↦ rw (p, update) refl
    ];
  }

  pub now-Stays : (clock : ℕ → ℕ) → Stays (now clock)
  unfolding now
  now-Stays clock = record { status = λ s. refl; jobs = λ s. refl; life_day = λ s. refl }

  pub touch-Stays : (i t : ℕ) (stage checkpoint : String) → Stays (touch i t stage checkpoint)
  unfolding touch
  touch-Stays i t stage checkpoint = update-Stays i _ (λ row. refl)

  pub save_report-Stays : (i : ℕ) (r : String) → Stays (save_report i r)
  unfolding save_report
  save_report-Stays i r = update-Stays i _ (λ row. refl)

  pub bump_attempt-Stays : (i : ℕ) → Stays (bump_attempt i)
  unfolding bump_attempt
  bump_attempt-Stays i = update-Stays i _ (λ row. refl)

  pub emit-Stays : (x : Lifecycle) → Stays (emit x)
  unfolding emit
  emit-Stays x = record { status = λ s. refl; jobs = λ s. refl; life_day = λ s. refl }

  pub conclude-Completes :
      {J : List Job → Option ℕ → Type 0} (env : Environment) (r : ℕ)
      → Completes (IsAt e complete J) (conclude env e r true)
  unfolding conclude ◌>>=◌ now finish_run emit
  conclude-Completes env r = record { at = λ s p. (refl, p.status) }

  module _ (env : Environment) (r : ℕ) {J : List Job → Option ℕ → Type 0} where
    pub check_in-Completes : Completes (IsAt e auditing J) (check_in env e r)
    unfolding check_in commit
    check_in-Completes = Completes-Stays _ _ (now-Stays _) λ t.
        Completes-Stays _ _ (touch-Stays _ _ _ _) λ u.
          Completes-Stays _ _ (save_report-Stays _ _) λ u. Completes-Stays _ _ (now-Stays _) λ t.
            Completes-Stays _ _ (touch-Stays _ _ _ _) λ u. Completes-Stays _ _ (now-Stays _) λ t.
              Completes-transition is_auditing complete _ _ refl refl (λ row. refl)
                (conclude-Completes env r)
