-- ===== src/Orchestrator/Processing/Atomic.antt =====
-- The commit of a run writes everything or nothing.
use discord_personality_bot.Base.{
  Option-cases, ℕ, ◌≡◌, refl, List, [], ◌∷◌, Option, String, raised, Result-cases, inl, inr,
}
use discord_personality_bot.Events.Model.{Event}
use discord_personality_bot.Events.Dispatcher.{DispatchResult}
use discord_personality_bot.State.Arbitrator.Records.{AcceptedChange, Rejection, ArbitrationResult}
use discord_personality_bot.State.Committer.{
  note_change, commit_one, commit_changes, rejection_failure, commit_rejections, complete_all,
  commit_result, commit_body, commit, final_status, counts_of, write_of,
}
use discord_personality_bot.State.Value.{stored_form}
use discord_personality_bot.Storage.Tables.{RunStatus}
use discord_personality_bot.Storage.Database.{Exception, World, now, transaction}
use discord_personality_bot.Storage.Atomic.{
  IsBalanced, IsBalanced-pure, IsBalanced-now, IsBalanced-bind, IsBalanced-transaction,
  transaction-rollback,
}
use discord_personality_bot.Storage.Recording.{note_change-cases}
use discord_personality_bot.Storage.StateTable.{Write, write_row, write_stored, write_value}
use discord_personality_bot.Storage.Deliveries.{mark_completed}
use discord_personality_bot.Storage.Runs.{Counts, finish, FailureRecord, record_failure}
use discord_personality_bot.Storage.EventTable.{append, append_each, append_all}
use discord_personality_bot.Orchestrator.RunLog.{commit_run}

write_stored-IsBalanced : (a : Write) (expected : Option ℕ) → IsBalanced (write_stored a expected)
unfolding write_stored
write_stored-IsBalanced a expected = record {
  at = λ w h. elim (Result-cases (write_row a expected w.tables.state_values)) [
    | inl (x, e) ↦ rw (e, write_stored) (refl, refl)
    | inr (x, e) ↦ rw (e, write_stored) (refl, refl)
  ];
}

write_value-IsBalanced : (a : Write) (expected : Option ℕ) → IsBalanced (write_value a expected)
unfolding write_value
write_value-IsBalanced a expected = record {
  at = λ w h. elim (Option-cases (stored_form a.value)) [
    | inl e ↦ rw (e, write_value) (refl, refl)
    | inr (v, e) ↦
        rw (e, write_value) ((write_stored-IsBalanced (record a { value = v }) expected).at w h)
  ];
}

commit_one-IsBalanced : (run at : ℕ) (c : AcceptedChange) → IsBalanced (commit_one run at c)
unfolding commit_one
commit_one-IsBalanced run at c =
    IsBalanced-bind (write_value (write_of run at c) c.expected_version) (note_change run at c)
      (write_value-IsBalanced (write_of run at c) c.expected_version)
      λ v. record {
        at = λ w h. elim (note_change-cases run at c v w) [
          | inl e ↦ rw e (refl, refl)
          | inr e ↦ rw e (refl, refl)
        ];
      }

commit_changes-IsBalanced :
    (run at : ℕ) (cs : List AcceptedChange) → IsBalanced (commit_changes run at cs)
unfolding commit_changes
commit_changes-IsBalanced run at [] = IsBalanced-pure []
commit_changes-IsBalanced run at (c ∷ cs) =
    IsBalanced-bind (commit_one run at c) _ (commit_one-IsBalanced run at c) λ i.
      IsBalanced-bind (commit_changes run at cs) _ (commit_changes-IsBalanced run at cs)
        λ is. IsBalanced-pure (i ∷ is)

record_failure-IsBalanced : (f : FailureRecord) (at : ℕ) → IsBalanced (record_failure f at)
unfolding record_failure
record_failure-IsBalanced f at = record { at = λ w h. (refl, refl) }

commit_rejections-IsBalanced :
    (run event at : ℕ) (rs : List Rejection) → IsBalanced (commit_rejections run event at rs)
unfolding commit_rejections
commit_rejections-IsBalanced run event at [] = IsBalanced-pure []
commit_rejections-IsBalanced run event at (r ∷ rs) =
    IsBalanced-bind (record_failure (rejection_failure run event r) at) _
      (record_failure-IsBalanced _ at)
      λ i.
        IsBalanced-bind (commit_rejections run event at rs) _
          (commit_rejections-IsBalanced run event at rs) λ is. IsBalanced-pure (i ∷ is)

complete_all-IsBalanced : (at : ℕ) (is : List ℕ) → IsBalanced (complete_all at is)
unfolding complete_all mark_completed
complete_all-IsBalanced at [] = IsBalanced-pure tt
complete_all-IsBalanced at (i ∷ is) =
    IsBalanced-bind (mark_completed i at) _ (record { at = λ w h. (refl, refl) })
      λ _. complete_all-IsBalanced at is

finish-IsBalanced :
    (i : ℕ) (s : RunStatus) (at : ℕ) (c : Counts) (m : Option String)
    → IsBalanced (finish i s at c m)
unfolding finish
finish-IsBalanced i s at c m = record { at = λ w h. (refl, refl) }

commit-IsBalanced :
    (run event : ℕ) (r : ArbitrationResult) (deliveries : List ℕ) (at finished_at : ℕ)
    → IsBalanced (commit run event r deliveries at finished_at)
unfolding commit commit_body
commit-IsBalanced run event r deliveries at finished_at =
    IsBalanced-bind (transaction (commit_body run event r deliveries at finished_at)) _
      (IsBalanced-transaction (commit_body run event r deliveries at finished_at) (
        IsBalanced-bind (commit_changes run at r.accepted) _
          (commit_changes-IsBalanced run at r.accepted)
          λ is.
            IsBalanced-bind (commit_rejections run event at r.rejected) _
              (commit_rejections-IsBalanced run event at r.rejected)
              λ fs.
                IsBalanced-bind (complete_all at deliveries) _
                  (complete_all-IsBalanced at deliveries)
                  λ _.
                    IsBalanced-bind
                      (finish run (final_status r.accepted) finished_at (counts_of r) _) _
                      (finish-IsBalanced run (final_status r.accepted) finished_at (counts_of r) _)
                      λ _. IsBalanced-pure (is, fs)))
      λ ids. IsBalanced-pure (commit_result run r deliveries ids)

append-IsBalanced : (e : Event) → IsBalanced (append e)
unfolding append
append-IsBalanced e = record { at = λ w h. (refl, refl) }

append_each-IsBalanced : (es : List Event) (n m : ℕ) → IsBalanced (append_each es n m)
unfolding append_each
append_each-IsBalanced [] n m = IsBalanced-pure (n, m)
append_each-IsBalanced (e ∷ es) n m =
    IsBalanced-bind (append e) _ (append-IsBalanced e) λ fresh. append_each-IsBalanced es _ _

append_all-IsBalanced : (es : List Event) → IsBalanced (append_all es)
unfolding append_all
append_all-IsBalanced es =
    IsBalanced-transaction (append_each es 0 0) (append_each-IsBalanced es 0 0)

-- Outside any transaction, a commit of a run that raises leaves every table as it was and no
-- transaction open.
pub commit_run_atomic :
    (clock : ℕ → ℕ) (run : ℕ) (e : Event) (d : DispatchResult) (r : ArbitrationResult) (at : ℕ)
    (w : World) (x : Exception)
    → w.depth ≡ 0
    → (commit_run clock run e d r at w).0 ≡ raised x
    → ((commit_run clock run e d r at w).1.tables ≡ w.tables)
      × ((commit_run clock run e d r at w).1.depth ≡ 0)
unfolding commit_run
commit_run_atomic clock run e d r at w x = transaction-rollback _ w x (
    IsBalanced-bind (append_all d.derived_events) _ (append_all-IsBalanced d.derived_events) λ n.
      IsBalanced-bind (now clock) _ (IsBalanced-now clock)
        λ finished_at. commit-IsBalanced run e.event_id r d.delivery_ids at finished_at)
