-- ===== src/Storage/Runs.antt =====
-- app/storage/repositories/runs.py and failures.py: the record of each run and of each failure.
use discord_personality_bot.Base.{
  ℕ, ◌+◌, String, Option, some, List, [], ◌∷◌, ◌++◌, nat_beq, if◌then◌else◌,
}
use discord_personality_bot.Storage.Tables.{
  Run, RunStatus, running, interrupted, FailureType, ReasonCode, Severity,
}
use discord_personality_bot.Storage.Database.{Exec, Action, pure, ◌>>=◌, ◌>>◌, write_tables, new_id}

abbrev pub write_runs : (List Run → List Run) → Action
write_runs f = write_tables (λ t. record t { runs = f t.runs })

-- `UPDATE processing_runs SET … WHERE run_id = ?`
unfoldable pub update_run : ℕ → (Run → Run) → List Run → List Run
update_run i f [] = []
update_run i f (r ∷ rs) = (if nat_beq r.run_id i then f r else r) ∷ update_run i f rs

-- `start`
unfoldable pub start : Run → Action
start r = write_runs (λ rs. rs ++ r ∷ [])

unfoldable pub record_conflict : ℕ → Action
record_conflict i =
    write_runs (update_run i (λ r. record r { conflict_count = r.conflict_count + 1 }))

-- The counts that `finish` takes.
pub record Counts : Type 0 where
  pub received : ℕ
  pub accepted : ℕ
  pub rejected : ℕ

abbrev pub no_counts : Counts
no_counts = record { received = 0; accepted = 0; rejected = 0 }

unfoldable pub finished : RunStatus → ℕ → Counts → Option String → Run → Run
finished status at counts message r = record r {
  status = status;
  finished_at = some at;
  proposals_received = counts.received;
  proposals_accepted = counts.accepted;
  proposals_rejected = counts.rejected;
  error = message;
}

unfoldable pub finish : ℕ → RunStatus → ℕ → Counts → Option String → Action
unfolding finished
finish i status at counts message = write_runs (update_run i (finished status at counts message))

unfoldable pub interrupt_from : ℕ → Run → RunStatus → Run
interrupt_from at r running = record r {
  status = interrupted;
  finished_at = some at;
  error = some "process terminated before commit";
}
interrupt_from at r _ = r

unfoldable pub interrupt : ℕ → Run → Run
unfolding interrupt_from
interrupt at r = interrupt_from at r r.status

-- `mark_interrupted`, less the number of rows that it returns.
unfoldable pub interrupt_all : ℕ → List Run → List Run
unfolding interrupt
interrupt_all at [] = []
interrupt_all at (r ∷ rs) = interrupt at r ∷ interrupt_all at rs

unfoldable pub mark_interrupted : ℕ → Action
unfolding interrupt_all
mark_interrupted at = write_runs (interrupt_all at)

-- A `FailureRecord`
pub record FailureRecord : Type 0 where
  pub failure_type : FailureType
  pub component : String
  pub reason_code : ReasonCode
  pub severity : Severity
  pub run_id : Option ℕ
  pub event_id : ℕ
  pub reference_id : Option ℕ

-- `FailureRepository.record`
unfoldable pub record_failure : FailureRecord → ℕ → Exec ℕ
record_failure f at = do
  i ← new_id
  write_tables λ t. record t {
    failures =
        t.failures
        ++ record {
          failure_id = i;
          failure_type = f.failure_type;
          component = f.component;
          reason_code = f.reason_code;
          severity = f.severity;
          run_id = f.run_id;
          event_id = f.event_id;
          reference_id = f.reference_id;
          occurred_at = at;
        }
          ∷ [];
  }
  pure i
