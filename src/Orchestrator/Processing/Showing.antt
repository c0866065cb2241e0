-- ===== src/Orchestrator/Processing/Showing.antt =====
-- The commit of a run in full, on the state that the run read.
use discord_personality_bot.Base.{ℕ, ◌+◌, ◌≡◌, ◌∙◌, none, [], map, ok, nat_beq}
use discord_personality_bot.Base.Lists.{All}
use discord_personality_bot.Base.Sort.{sort}
use discord_personality_bot.Events.Model.{Event}
use discord_personality_bot.Events.Dispatcher.{DispatchResult}
use discord_personality_bot.State.Policy.{ArbitrationPolicy}
use discord_personality_bot.State.Snapshot.{StateSnapshot, with_committed}
use discord_personality_bot.State.Arbitrator.Records.{change_of, ArbitrationResult}
use discord_personality_bot.State.Arbitrator.Screen.{screen_all}
use discord_personality_bot.State.Arbitrator.Groups.{collect, group}
use discord_personality_bot.State.Arbitrator.Resolve.{resolve_all}
use discord_personality_bot.State.Arbitrator.Overflow.{any_overflows}
use discord_personality_bot.State.Arbitrator.{with_keys, sort_changes, arbitrate}
use discord_personality_bot.State.Committer.{CommitResult}
use discord_personality_bot.State.Committed.Quiet.{append_all-IsQuiet}
use discord_personality_bot.State.Committed.Current.{transaction-inv}
use discord_personality_bot.State.Committed.Writing.{IsStorable, ShowSame}
use discord_personality_bot.State.Committed.Commits.{commit_shows}
use discord_personality_bot.Storage.Database.{World, ◌>>=◌, transaction}
use discord_personality_bot.Storage.EventTable.{append_all}
use discord_personality_bot.Storage.Effects.{entered, leave-ok}
use discord_personality_bot.Orchestrator.RunLog.{commit_run_body, commit_run}

module _ (snapshot : StateSnapshot) (r : ArbitrationResult) where
  commit_run_body-shows :
      (clock : ℕ → ℕ) (run : ℕ) (e : Event) (d : DispatchResult) (at : ℕ) (w : World)
      (c : CommitResult)
      → All IsStorable r.accepted
      → w.tables.state_values ≡ snapshot.values
      → (commit_run_body clock run e d r at w).0 ≡ ok c
      → ShowSame
          (commit_run_body clock run e d r at w).1.tables.state_values
          (with_committed snapshot (map change_of r.accepted) none).values
  unfolding commit_run_body
  commit_run_body-shows clock run e d at w c storable same h =
      let (n, x, s) = (append_all-IsQuiet d.derived_events).at w in
      let w1 : World = (append_all d.derived_events w).1 in
      rw (x, ◌>>=◌)
        (commit_shows snapshot r run e.event_id d.delivery_ids at (clock w1.ticks)
          (record w1 { ticks = w1.ticks + 1 }) c storable (s ∙ same) (rw (x, ◌>>=◌) at h))

  pub commit_run-shows :
      (clock : ℕ → ℕ) (run : ℕ) (e : Event) (d : DispatchResult) (at : ℕ) (w : World)
      (c : CommitResult)
      → All IsStorable r.accepted
      → w.tables.state_values ≡ snapshot.values
      → (commit_run clock run e d r at w).0 ≡ ok c
      → ShowSame
          (commit_run clock run e d r at w).1.tables.state_values
          (with_committed snapshot (map change_of r.accepted) none).values
  unfolding commit_run transaction
  commit_run-shows clock run e d at w c storable same h =
      let m = commit_run_body clock run e d r at in
      let x = transaction-inv m w c h in
      let l = leave-ok (nat_beq w.depth 0) (m (entered w)) c x in
      λ k. rw l.1 (commit_run_body-shows clock run e d at (entered w) c storable same x k)

-- Without proposals nothing is accepted.
pub arbitrate-nothing :
    (policy : ArbitrationPolicy) (snapshot : StateSnapshot) (r : ArbitrationResult)
    → arbitrate policy [] snapshot ≡ ok r
    → r.accepted ≡ []
unfolding arbitrate any_overflows screen_all group collect resolve_all sort_changes with_keys sort
arbitrate-nothing policy snapshot r h = cc h
