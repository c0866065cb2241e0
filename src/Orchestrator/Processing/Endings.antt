-- ===== src/Orchestrator/Processing/Endings.antt =====
-- Where the processing of an event ends.
use discord_personality_bot.Base.{
  ℕ, suc, zero, ◌+◌, ◌-◌, ◌≡◌, refl, sym, ◌∙◌, Bool-cases, inl, inr, Option, none, some, List, [],
  ◌∷◌, map, ok, raised, Result, Result-cases,
}
use discord_personality_bot.Base.Lists.{All}
use discord_personality_bot.Events.Model.{Event}
use discord_personality_bot.Events.Dispatcher.{
  DeliveryOutcome, DispatchResult, dispatch, dispatch_each,
}
use discord_personality_bot.Events.Bus.{subscriptions_for}
use discord_personality_bot.State.Snapshot.{with_committed, merge_changes}
use discord_personality_bot.State.Arbitrator.Records.{AcceptedChange, change_of, ArbitrationResult}
use discord_personality_bot.State.Arbitrator.{arbitrate}
use discord_personality_bot.State.Committer.{CommitResult}
use discord_personality_bot.State.Committed.Quiet.{append-IsQuiet}
use discord_personality_bot.State.Committed.Current.{Rows, bind-inv}
use discord_personality_bot.State.Committed.Writing.{IsStorable, ShowSame}
use discord_personality_bot.Storage.Tables.{RuntimeMode, commit_failed}
use discord_personality_bot.Storage.Database.{
  Exception, concurrent_state_write, layer_error, integrity_error, other_error, World, Action, pure,
  ◌>>=◌, ◌>>◌,
}
use discord_personality_bot.Storage.EventTable.{append}
use discord_personality_bot.Orchestrator.Outcome.{
  ProcessingOutcome, post_commit_snapshot, Opened, status_of, outcome, failed_outcome, is_conflict,
  conflict,
}
use discord_personality_bot.Orchestrator.RunLog.{
  commit_run, conflict_run, fail_run, open_run, effective_now,
}
use discord_personality_bot.Orchestrator.Processor.{
  Config, normalise, interpret, arbitrated, is_retold, conclude, settle_run, view_of,
  after_dispatch, react, process_once, attempts_from, process,
}
use discord_personality_bot.Orchestrator.Processing.Undisturbed.{
  LeavesState, dispatch_each-quiet, interpret-IsQuiet, effective_now-IsQuiet, open_run-captures,
}
use discord_personality_bot.Orchestrator.Processing.Showing.{commit_run-shows, arbitrate-nothing}

-- The outcome accepts only changes that are stored as they are.
abbrev pub AreStorable : ProcessingOutcome → Type 0
AreStorable o = (a : ArbitrationResult) → o.arbitration ≡ some a → All IsStorable a.accepted

-- If the call returned the outcome of a commit that returned, what the outcome says of the state is
-- what the rows show.
abbrev pub Tells : Result Exception ProcessingOutcome × World → Type 0
Tells r =
    (o : ProcessingOutcome) (c : CommitResult)
    → r.0 ≡ ok o
    → o.commit_result ≡ some c
    → AreStorable o
    → ShowSame r.1.tables.state_values (post_commit_snapshot o).values

-- A run that accepts nothing is told by its snapshot, another by the snapshot with its changes.
told :
    (o : Opened) (d : DispatchResult) (r : ArbitrationResult) (c : CommitResult) (rows : Rows)
    → (d.outcomes ≡ [] → r.accepted ≡ [])
    → ShowSame rows (with_committed o.snapshot (map change_of r.accepted) none).values
    → ShowSame rows (post_commit_snapshot (outcome o (status_of d r) d r (some c))).values
unfolding outcome post_commit_snapshot with_committed merge_changes
told o d r c rows nothing same = go d.outcomes r.accepted refl refl
  where
    kept : r.accepted ≡ [] → ShowSame rows o.snapshot.values
    kept e = rw e at same

    go :
        (os : List DeliveryOutcome) (cs : List AcceptedChange)
        → d.outcomes ≡ os
        → r.accepted ≡ cs
        → ShowSame rows (post_commit_snapshot (outcome o (status_of d r) d r (some c))).values
    go [] cs x y = rw x (kept (nothing x))
    go (a ∷ os) [] x y = rw (x, y) (kept y)
    go (a ∷ os) (b ∷ cs) x y = rw (x, y) (rw y at same)

-- An outcome without a commit tells nothing.
silent_end :
    (m : Action) (p : ProcessingOutcome) (w : World)
    → p.commit_result ≡ none
    → Tells ((m >> pure p) w)
silent_end m p w bare o c h k storable =
    let (u, e, rest) = bind-inv m (λ _. pure p) w o h in absurd (cc (rest, bare, k))

outcomes-normalise :
    (mode : RuntimeMode) (at : ℕ) (d : DispatchResult) → (normalise mode at d).outcomes ≡ d.outcomes
unfolding normalise
outcomes-normalise mode at d = elim (Bool-cases (is_retold mode)) [
  | inl e ↦ rw e refl
  | inr e ↦ rw e refl
]

pure_told :
    (p : ProcessingOutcome) (w : World)
    → (AreStorable p → ShowSame w.tables.state_values (post_commit_snapshot p).values)
    → Tells (pure p w)
pure_told p w shown o c h k = let same : p ≡ o = cc h in rw (← same) shown

module _ (cfg : Config) where
  failed_end :
      (o : Opened) (d : DispatchResult) (a : ArbitrationResult) (w : World)
      → Tells (
          (fail_run cfg.clock o.run o.event commit_failed
              >> pure (failed_outcome o (some d) (some a)))
            w)
  unfolding failed_outcome
  failed_end o d a w =
      silent_end (fail_run cfg.clock o.run o.event commit_failed)
        (failed_outcome o (some d) (some a)) w refl

  conclude-Tells :
      (o : Opened) (d : DispatchResult) (a : ArbitrationResult) (x : Exception) (w : World)
      → Tells (conclude cfg o d a (raised x) w)
  unfolding conclude outcome
  conclude-Tells o d a concurrent_state_write w =
      silent_end (conflict_run cfg.clock o.run o.event) (outcome o conflict d a none) w refl
  conclude-Tells o d a layer_error w = failed_end o d a w
  conclude-Tells o d a integrity_error w = failed_end o d a w
  conclude-Tells o d a (other_error m) w = failed_end o d a w

  settle_run-Tells :
      (o : Opened) (d : DispatchResult) (r : ArbitrationResult) (w : World)
      → w.tables.state_values ≡ o.snapshot.values
      → (d.outcomes ≡ [] → r.accepted ≡ [])
      → Tells (settle_run cfg o d r w)
  unfolding settle_run conclude
  settle_run-Tells o d r w same nothing =
      elim (Result-cases (commit_run cfg.clock o.run o.event d r o.at w).0) [
        | inr (x, e) ↦
            rw e (conclude-Tells o d r x (commit_run cfg.clock o.run o.event d r o.at w).1)
        | inl (c, e) ↦
            let w' = (commit_run cfg.clock o.run o.event d r o.at w).1 in
            let shown = commit_run-shows o.snapshot r cfg.clock o.run o.event d o.at w c in
            rw e (
              pure_told (outcome o (status_of d r) d r (some c)) w'
                λ storable. told o d r c _ nothing (shown (storable r refl) same e))
      ]

  arbitrated-Tells :
      (o : Opened) (d : DispatchResult) (w : World)
      → w.tables.state_values ≡ o.snapshot.values
      → (d.outcomes ≡ [] → d.proposals ≡ [])
      → Tells (after_dispatch cfg o (ok d) w)
  unfolding after_dispatch arbitrated
  arbitrated-Tells o d w same silent =
      let d' = normalise o.mode o.at d in
      elim (Result-cases (arbitrate cfg.policy d.proposals o.snapshot)) [
        | inr (x, e) ↦ rw e λ p c h k storable. absurd (cc h)
        | inl (r, e) ↦ rw e (
            settle_run-Tells o d' r w same λ h.
              arbitrate-nothing cfg.policy o.snapshot r
                (rw (silent (sym (outcomes-normalise o.mode o.at d) ∙ h)) at e))
      ]

module _ (cfg : Config) (leaves : LeavesState cfg) where
  react-Tells :
      (o : Opened) (w : World) → w.tables.state_values ≡ o.snapshot.values → Tells (react cfg o w)
  unfolding react dispatch
  react-Tells o w same =
      let ss = subscriptions_for o.event cfg.bus in
      let (d, x, y, silent) = dispatch_each-quiet cfg leaves o.event (view_of o) ss w in
      let w' : World = (dispatch_each cfg.clock cfg.handle o.event (view_of o) ss w).1 in
      rw x (arbitrated-Tells cfg o d w' (y ∙ same) silent)

  -- One run, while no other task writes the state.
  process_once-Tells :
      (e : Event) (mode : RuntimeMode) (retry_of : Option ℕ) (attempt : ℕ) (w : World)
      → Tells (process_once cfg e mode retry_of attempt w)
  unfolding process_once
  process_once-Tells e mode retry_of attempt w =
      let (at, x1, y1) = (effective_now-IsQuiet cfg.clock e mode).at w in
      let w1 : World = (effective_now cfg.clock e mode w).1 in
      let (stored, x2, y2) = (append-IsQuiet e).at w1 in
      let w2 : World = (append e w1).1 in
      let ((run, s), x3, y3, seen) = open_run-captures cfg.clock e mode retry_of attempt w2 in
      let w3 : World = (open_run cfg.clock e mode retry_of attempt w2).1 in
      let (i, x4, y4) = (interpret-IsQuiet cfg leaves run e s).at w3 in
      let o : Opened = record {
        event = e;
        mode = mode;
        retry_of = retry_of;
        attempt = attempt;
        newly_stored = stored;
        run = run;
        at = at;
        snapshot = s;
        interpretation = i;
      } in
      let told = react-Tells o (interpret cfg run e s w3).1 (y4 ∙ y3 ∙ sym seen) in
      rw (x1, ◌>>=◌) (rw (x2, ◌>>=◌) (rw (x3, ◌>>=◌) (rw (x4, ◌>>=◌) told)))

  attempts_from-Tells :
      (e : Event) (mode : RuntimeMode) (left : ℕ) (retry_of : Option ℕ) (attempt : ℕ) (w : World)
      → Tells (attempts_from cfg e mode left retry_of attempt w)
  unfolding attempts_from
  attempts_from-Tells e mode zero retry_of attempt w = process_once-Tells e mode retry_of attempt w
  attempts_from-Tells e mode (suc left) retry_of attempt w =
      let once = process_once-Tells e mode retry_of attempt w in
      elim (Result-cases (process_once cfg e mode retry_of attempt w).0) [
        | inr (x, e') ↦ rw (e', ◌>>=◌) λ p c h k storable. absurd (cc h)
        | inl (o, e') ↦ elim (Bool-cases (is_conflict o)) [
          | inl again ↦
              rw (e', ◌>>=◌)
                (rw again (
                  attempts_from-Tells e mode left (some o.run_id) (attempt + 1)
                    (process_once cfg e mode retry_of attempt w).1))
          | inr calm ↦ rw (e', ◌>>=◌) (rw calm λ p c h k. once p c (e' ∙ h) k)
        ]
      ]

  -- While the engines and the other tasks write no value of the state, if process returns an
  -- outcome with a commit, and each accepted value is one that a row holds as it is (which is all
  -- but an integer that no float holds), the rows then show at every key the value and the version
  -- of the post-commit snapshot of the outcome.
  pub process_shows :
      (e : Event) (mode : RuntimeMode) (w : World) (o : ProcessingOutcome) (c : CommitResult)
      → (process cfg e mode w).0 ≡ ok o
      → o.commit_result ≡ some c
      → AreStorable o
      → ShowSame (process cfg e mode w).1.tables.state_values (post_commit_snapshot o).values
  unfolding process
  process_shows e mode w = attempts_from-Tells e mode (cfg.max_commit_attempts - 1) none 1 w
