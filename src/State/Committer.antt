-- ===== src/State/Committer.antt =====
-- app/state/committer.py: one transaction for everything that a run produced.
use discord_personality_bot.Base.{ℕ, Option, none, some, List, [], ◌∷◌, map}
use discord_personality_bot.Base.Lists.{length, sum_over}
use discord_personality_bot.Base.{Key}
use discord_personality_bot.State.Value.{value_type_of}
use discord_personality_bot.State.Arbitrator.Records.{
  AcceptedChange, change_target, Rejection, ArbitrationResult,
}
use discord_personality_bot.Storage.Tables.{
  ChangeRow, committed, rejected, RunStatus, rejection, warning, state_failure,
}
use discord_personality_bot.Storage.Database.{Exec, Action, pure, ◌>>=◌, ◌>>◌, new_id, transaction}
use discord_personality_bot.Storage.StateTable.{Write, write_value, record_change}
use discord_personality_bot.Storage.Deliveries.{mark_completed}
use discord_personality_bot.Storage.Runs.{Counts, finish, FailureRecord, record_failure}

pub record CommitResult : Type 0 where
  pub run_id : ℕ
  pub change_ids : List ℕ
  pub committed_targets : List Key
  pub rejected_proposals : ℕ
  pub failure_ids : List ℕ
  pub completed_deliveries : List ℕ

-- `rejected_proposal_count`
unfoldable pub rejected_proposal_count : ArbitrationResult → ℕ
rejected_proposal_count r = sum_over (λ x. length x.proposal_ids) r.rejected

-- What a change writes to its key.
unfoldable pub write_of : ℕ → ℕ → AcceptedChange → Write
unfolding change_target
write_of run at c = record {
  target = change_target c;
  value = c.new_value;
  confidence = c.confidence;
  at = at;
  run = some run;
  event = some c.source_event_id;
}

unfoldable pub change_row : ℕ → ℕ → ℕ → ℕ → AcceptedChange → ChangeRow
unfolding change_target value_type_of
change_row i run at version c = record {
  change_id = i;
  run_id = run;
  source_event_id = c.source_event_id;
  proposal_id = c.proposal_id;
  source_module = c.source_module;
  target = change_target c;
  operation = c.operation;
  value_type = value_type_of c.new_value;
  previous_value = c.previous_value;
  new_value = c.new_value;
  delta = c.delta;
  confidence = c.confidence;
  version_after = version;
  reason_codes = c.reason_codes;
  evidence_ids = c.evidence_ids;
  committed_at = at;
}

-- The row of the history that goes with a written change, and its id.
unfoldable pub note_change : ℕ → ℕ → AcceptedChange → ℕ → Exec ℕ
unfolding change_row
note_change run at c version = do i ← new_id; record_change (change_row i run at version c); pure i

-- One turn of the loop over the accepted changes: the id of the row that it wrote.
unfoldable pub commit_one : ℕ → ℕ → AcceptedChange → Exec ℕ
unfolding write_of note_change
commit_one run at c = do
  version ← write_value (write_of run at c) c.expected_version
  note_change run at c version

-- The loop over the accepted changes; the ids of the rows that it wrote.
unfoldable pub commit_changes : ℕ → ℕ → List AcceptedChange → Exec (List ℕ)
commit_changes run at [] = pure []
commit_changes run at (c ∷ cs) = do
  i ← commit_one run at c
  is ← commit_changes run at cs
  pure (i ∷ is)

unfoldable pub head_id : List ℕ → Option ℕ
head_id [] = none
head_id (i ∷ is) = some i

unfoldable pub rejection_failure : ℕ → ℕ → Rejection → FailureRecord
unfolding head_id
rejection_failure run event r = record {
  failure_type = state_failure;
  component = "state_committer";
  reason_code = rejection r.reason_code;
  severity = warning;
  run_id = some run;
  event_id = event;
  reference_id = head_id r.proposal_ids;
}

-- The loop over the rejections.
unfoldable pub commit_rejections : ℕ → ℕ → ℕ → List Rejection → Exec (List ℕ)
unfolding rejection_failure
commit_rejections run event at [] = pure []
commit_rejections run event at (r ∷ rs) = do
  i ← record_failure (rejection_failure run event r) at
  is ← commit_rejections run event at rs
  pure (i ∷ is)

-- The loop over the deliveries that consumed the event.
unfoldable pub complete_all : ℕ → List ℕ → Action
complete_all at [] = pure tt
complete_all at (i ∷ is) = mark_completed i at >> complete_all at is

unfoldable pub final_status : List AcceptedChange → RunStatus
final_status [] = rejected
final_status (c ∷ cs) = committed

unfoldable pub counts_of : ArbitrationResult → Counts
unfolding rejected_proposal_count
counts_of r = record {
  received = r.received;
  accepted = length r.accepted;
  rejected = rejected_proposal_count r;
}

-- The body of the transaction: the ids of the change rows and of the failures.
unfoldable pub commit_body : ℕ → ℕ → ArbitrationResult → List ℕ → ℕ → ℕ → Exec (List ℕ × List ℕ)
commit_body run event result delivery_ids at finished_at = do
  changes ← commit_changes run at result.accepted
  failures ← commit_rejections run event at result.rejected
  complete_all at delivery_ids
  finish run (final_status result.accepted) finished_at (counts_of result) none
  pure (changes, failures)

unfoldable pub commit_result : ℕ → ArbitrationResult → List ℕ → List ℕ × List ℕ → CommitResult
commit_result run result delivery_ids (changes, failures) = record {
  run_id = run;
  change_ids = changes;
  committed_targets = map change_target result.accepted;
  rejected_proposals = rejected_proposal_count result;
  failure_ids = failures;
  completed_deliveries = delivery_ids;
}

-- `commit`
unfoldable pub commit : ℕ → ℕ → ArbitrationResult → List ℕ → ℕ → ℕ → Exec CommitResult
commit run event result delivery_ids at finished_at = do
  ids ← transaction (commit_body run event result delivery_ids at finished_at)
  pure (commit_result run result delivery_ids ids)
