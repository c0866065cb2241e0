-- ===== src/FirstBoot/Starting.antt =====
-- `start` keeps to the machine: it gives a run only to an epoch that has none.
use discord_personality_bot.Base.{
  [], ℕ, ◌≡◌, refl, inl, inr, Bool, true, false, not, Option, none, some, Option-cases, number_test,
  is_some, if◌then◌else◌,
}
use discord_personality_bot.Base.Dict.{Dict, lookup, lookup-insert_self}
use discord_personality_bot.FirstBoot.Status.{
  Status, pending, ready, running, is_startable, is_complete,
}
use discord_personality_bot.FirstBoot.Store.{
  LifeAnchors, BootState, Store, Exec, pure, ◌>>=◌, ◌>>◌, now, run_or, new_state, ensure, update,
  attach_run, acquire, release, start_run,
}
use discord_personality_bot.FirstBoot.Preflight.{all_passed, run_preflight}
use discord_personality_bot.FirstBoot.Machine.{
  Arrow, here, pending_running, ready_running, IsLegal, IsLegal-refl, IsLegal-trans, IsLegal-insert,
  KeepsFrom, KeepsFrom-Keeps, KeepsFrom-if, KeepsFrom-quiet, IsQuiet, KeepsFrom-then, run_at, Keeps,
  Keeps-pure, Keeps-option, transition-Keeps,
}
use discord_personality_bot.FirstBoot.Legal.{
  keeps_rules, IsPolite, drive-Keeps, acquire_same, acquire_moves,
}
use discord_personality_bot.FirstBoot.Orchestrator.{
  Environment, Outcome, begin, launch, with_lease, start, start_epoch, known_runs,
}

to_running : (a : Status) → is_startable a ≡ true → Arrow a running
unfolding is_startable
to_running pending h = pending_running
to_running ready h = ready_running
to_running _ h = cc h

attach_run-IsLegal : (e r : ℕ) (s : Store) → run_at e s ≡ none → IsLegal s (attach_run e r s).1
unfolding attach_run
attach_run-IsLegal e r s h = elim (Option-cases (lookup e s.states)) [
  | inl p ↦ rw (p, update) (IsLegal-refl s)
  | inr (row, p) ↦
      rw (p, update)
        (IsLegal-insert s e (record row { genesis_run_id = some r }) [] (rw p here)
          (λ i other. here) (rw h tt))
]

-- The row that `ensure` gives is the row of the table after it.
ensure-row :
    (e v : ℕ) (s : Store)
    → IsLegal s (ensure e v s).1 × (lookup e (ensure e v s).1.states ≡ some (ensure e v s).0)
unfolding ensure
ensure-row e v s = elim (Option-cases (lookup e s.states)) [
  | inl p ↦
      rw (p, ensure)
        (
          IsLegal-insert s e (new_state v) [] (rw p here) (λ i other. here) (rw p tt),
          lookup-insert_self e (new_state v) s.states,
        )
  | inr (row, p) ↦ rw (p, ensure) (IsLegal-refl s, p)
]

abbrev HasNoRun : ℕ → Dict ℕ BootState → Type 0
HasNoRun e states = run_or (lookup e states) ≡ none

abbrev HasRow : ℕ → BootState → Dict ℕ BootState → Type 0
HasRow e state states = lookup e states ≡ some state

now-IsQuiet : (clock : ℕ → ℕ) → IsQuiet (now clock)
unfolding now
now-IsQuiet clock = record { states = λ s. refl; moves = λ s. refl }

start_run-IsQuiet : IsQuiet start_run
unfolding start_run
start_run-IsQuiet = record { states = λ s. refl; moves = λ s. refl }

acquire-IsQuiet : (e t h : ℕ) → IsQuiet (acquire e t h)
acquire-IsQuiet e t h = record { states = acquire_same e t h; moves = acquire_moves e t h }

known_runs-IsQuiet : IsQuiet known_runs
unfolding known_runs
known_runs-IsQuiet = record { states = λ s. refl; moves = λ s. refl }

attach_run-KeepsFrom : (e r : ℕ) → KeepsFrom (HasNoRun e) (attach_run e r)
attach_run-KeepsFrom e r = record { at = attach_run-IsLegal e r }

ruleset from_rules = (
  KeepsFrom-if, KeepsFrom-quiet, now-IsQuiet, start_run-IsQuiet, acquire-IsQuiet,
  known_runs-IsQuiet,
)

is_some-false : (o : Option ℕ) → is_some o ≡ false → o ≡ none
is_some-false none h = refl
is_some-false (some n) h = cc h

KeepsFrom-free :
    {P : Dict ℕ BootState → Type 0} (b : Bool) (m n : Exec Outcome)
    → KeepsFrom P m
    → (b ≡ false → KeepsFrom P n)
    → KeepsFrom P (if b then m else n)
KeepsFrom-free true m n km kn = km
KeepsFrom-free false m n km kn = kn refl

refused-KeepsFrom : {P : Dict ℕ BootState → Type 0} (o : Outcome) → KeepsFrom P (pure o)
refused-KeepsFrom o = KeepsFrom-Keeps (pure o) (Keeps-pure o)

module _ (env : Environment) (polite : IsPolite env) where
  begin-Keeps : (e r : ℕ) (a : LifeAnchors) → Keeps (begin env e r a)
  unfolding begin
  begin-Keeps e r a =
      search (keeps_rules, transition-Keeps, to_running, drive-Keeps env polite) depth 14

  attach-KeepsFrom :
      (e r : ℕ) (a : LifeAnchors) → KeepsFrom (HasNoRun e) (attach_run e r >> begin env e r a)
  attach-KeepsFrom e r a =
      KeepsFrom-then (attach_run e r) (λ u. begin env e r a) (attach_run-KeepsFrom e r)
        (λ u. begin-Keeps e r a)

  launch-KeepsFrom :
      (e : ℕ) (old : Status) (a : LifeAnchors) → KeepsFrom (HasNoRun e) (launch env e old a)
  unfolding launch
  launch-KeepsFrom e old a = search (from_rules, refused-KeepsFrom, attach-KeepsFrom)

  leave-KeepsFrom :
      {P : Dict ℕ BootState → Type 0} (body : Exec Outcome)
      → KeepsFrom P body
      → KeepsFrom P (body >>= λ o. release env.process >> pure o)
  leave-KeepsFrom body k =
      KeepsFrom-then body (λ o. release env.process >> pure o) k (λ o. search keeps_rules)

  with_lease-KeepsFrom :
      {P : Dict ℕ BootState → Type 0} (e : ℕ) (old : Status) (body : Exec Outcome)
      → KeepsFrom P body
      → KeepsFrom P (with_lease env e old body)
  unfolding with_lease
  with_lease-KeepsFrom e old body k = KeepsFrom-quiet (now env.clock) _ (now-IsQuiet env.clock) λ t.
      KeepsFrom-quiet (acquire e t env.process) _ (acquire-IsQuiet e t env.process) λ taken.
        KeepsFrom-if (not taken) _ _
          (refused-KeepsFrom (record {
            ok = false;
            status = old;
            reason = "another process is already running first boot";
            has_escaped = false;
          }))
          (leave-KeepsFrom body k)

  launch_row :
      (e : ℕ) (a : LifeAnchors) (state : BootState)
      → state.genesis_run_id ≡ none
      → KeepsFrom (HasRow e state) (launch env e state.status a)
  launch_row e a state free = record {
    at = λ s h. (launch-KeepsFrom e state.status a).at s (rw h free);
  }

  start_epoch-KeepsFrom :
      (e : ℕ) (a : LifeAnchors) (state : BootState)
      → KeepsFrom (HasRow e state) (start_epoch env e a state)
  unfolding start_epoch
  start_epoch-KeepsFrom e a state = KeepsFrom-quiet known_runs _ known_runs-IsQuiet λ runs.
      KeepsFrom-if (is_complete state.status) _ _ (refused-KeepsFrom _) (
        KeepsFrom-free (is_some state.genesis_run_id) _ _ (refused-KeepsFrom _) λ free.
          KeepsFrom-if (not (is_startable state.status)) _ _ (refused-KeepsFrom _) (
            KeepsFrom-if (not (all_passed (run_preflight env.around a state runs))) _ _
              (refused-KeepsFrom _)
              (with_lease-KeepsFrom e state.status (launch env e state.status a)
                (launch_row e a state (is_some-false state.genesis_run_id free)))))

  pub start-Keeps : (a : LifeAnchors) → Keeps (start env a)
  unfolding start ◌>>=◌
  start-Keeps a = Keeps-option env.epoch _ _ (Keeps-pure _) λ e. record {
    at = λ s.
        let v = env.around.schema_version in
        let (kept, row) = ensure-row e v s in
        IsLegal-trans s (ensure e v s).1 _ kept
          ((start_epoch-KeepsFrom e a (ensure e v s).0).at (ensure e v s).1 row);
  }
