-- ===== src/FirstBoot/Store.antt =====
-- app/storage/repositories/firstboot.py, and what of the other tables the first boot reads and
-- writes. A call takes the store and gives its result with the store after it. Identifiers, process
-- numbers and instants are numbers, an instant in seconds.
mod Rows
use discord_personality_bot.Base.{
  ℕ, ◌+◌, String, Bool, true, false, Option, none, some, List, [], ◌∷◌, ◌++◌, ltb, nat_beq,
  text_test, number_test, ◌==◌, Result, ok, raised, if◌then◌else◌,
}
use discord_personality_bot.Base.Dict.{Dict, lookup, insert}
use discord_personality_bot.Jobs.Scheduler.{Job}
use discord_personality_bot.FirstBoot.Status.{Status, pending, BlockKind}
unfoldable pub use Rows.*

abbrev pub new_state : ℕ → BootState
new_state schema_version = record {
  status = pending;
  genesis_run_id = none;
  started_at = none;
  last_progress_at = none;
  completed_at = none;
  blocked_at = none;
  block_kind = none;
  block_reason = "";
  last_checkpoint = "";
  current_stage = "";
  attempt_count = 0;
  anchors_fingerprint = "";
  schema_version = schema_version;
  report = none;
}

abbrev pub status_or : Option BootState → Status
status_or none = pending
status_or (some row) = row.status

abbrev pub run_or : Option BootState → Option ℕ
run_or none = none
run_or (some row) = row.genesis_run_id

-- `get`
unfoldable pub get : ℕ → Exec (Option BootState)
get epoch_id s = (lookup epoch_id s.states, s)

-- `ensure`
unfoldable pub ensure : ℕ → ℕ → Exec BootState
ensure epoch_id schema_version s = elim (lookup epoch_id s.states) [
  | some row ↦ (row, s)
  | none ↦ (
    new_state schema_version,
    record s { states = insert epoch_id (new_state schema_version) s.states },
  )
]

unfoldable pub last_row : Dict ℕ BootState → Option BootState
last_row [] = none
last_row ((e, row) ∷ []) = some row
last_row ((e, row) ∷ rows) = last_row rows

-- `current`: the row that was inserted last.
unfoldable pub current : Exec (Option BootState)
current s = (last_row s.states, s)

-- `UPDATE first_boot_state SET … WHERE epoch_id = ?`
unfoldable pub update : ℕ → (BootState → BootState) → Action
update epoch_id fields s = elim (lookup epoch_id s.states) [
  | none ↦ (tt, s)
  | some row ↦ (tt, record s { states = insert epoch_id (fields row) s.states })
]

-- `transition`: a compare-and-set, with the other fields that it writes.
unfoldable pub transition : ℕ → (Status → Bool) → Status → (BootState → BootState) → Exec Bool
transition epoch_id expected to fields s = elim (lookup epoch_id s.states) [
  | none ↦ (false, s)
  | some row ↦ (
    expected row.status,
    if expected row.status
        then record s {
          states = insert epoch_id (fields (record row { status = to })) s.states;
          moves = (epoch_id, row.status, to) ∷ s.moves;
        }
        else s,
  )
]

unfoldable pub touch : ℕ → ℕ → String → String → Action
unfolding update
touch epoch_id moment stage checkpoint = update epoch_id λ row. record row {
  last_progress_at = some moment;
  current_stage = stage;
  last_checkpoint = if checkpoint == "" then row.last_checkpoint else checkpoint;
}

unfoldable pub attach_run : ℕ → ℕ → Action
unfolding update
attach_run epoch_id run_id = update epoch_id λ row. record row { genesis_run_id = some run_id }

unfoldable pub save_report : ℕ → String → Action
unfolding update
save_report epoch_id report = update epoch_id λ row. record row { report = some report }

unfoldable pub bump_attempt : ℕ → Action
unfolding update
bump_attempt epoch_id = update epoch_id λ row. record row { attempt_count = row.attempt_count + 1 }

unfoldable pub set_fingerprint : ℕ → String → Action
unfolding update
set_fingerprint epoch_id text = update epoch_id λ row. record row { anchors_fingerprint = text }

-- `LEASE_MINUTES`, in seconds
abbrev pub lease_seconds : ℕ
lease_seconds = 900

-- `now - beat < timedelta(minutes=LEASE_MINUTES)`, where a beat in the future is live too.
unfoldable pub is_live : ℕ → Lease → Bool
is_live moment lease = ltb moment (lease.heartbeat_at + lease_seconds)

abbrev taken : ℕ → ℕ → ℕ → Store → Bool × Store
taken epoch_id moment holder s = (
  true,
  record s {
    lease = some (record {
      epoch_id = epoch_id;
      holder = holder;
      acquired_at = moment;
      heartbeat_at = moment;
    });
  },
)

-- `acquire`
unfoldable pub acquire : ℕ → ℕ → ℕ → Exec Bool
unfolding is_live
acquire epoch_id moment holder s = elim s.lease [
  | none ↦ taken epoch_id moment holder s
  | some lease ↦
      if is_live moment lease
      then (nat_beq lease.holder holder, s)
      else taken epoch_id moment holder s
]

-- `beat`
unfoldable pub beat : ℕ → ℕ → Action
beat moment holder s = elim s.lease [
  | none ↦ (tt, s)
  | some lease ↦ (
    tt,
    record s {
      lease =
          some
            (if nat_beq lease.holder holder then record lease { heartbeat_at = moment } else lease);
    },
  )
]

-- `release`
unfoldable pub release : ℕ → Action
release holder s = elim s.lease [
  | none ↦ (tt, s)
  | some lease ↦ (tt, if nat_beq lease.holder holder then record s { lease = none } else s)
]

-- `lock_holder`
unfoldable pub lock_holder : Exec (Option Lease)
lock_holder s = (s.lease, s)

-- `lease_is_live`
unfoldable pub lease_is_live : ℕ → Exec Bool
unfolding is_live
lease_is_live moment s = (elim s.lease [ none ↦ false | some lease ↦ is_live moment lease ], s)

-- `GenesisRunRepository.start`
unfoldable pub start_run : Exec ℕ
start_run s = (
  s.next_id,
  record s {
    runs = s.runs ++ record { genesis_run_id = s.next_id; finished_at = none } ∷ [];
    next_id = s.next_id + 1;
  },
)

unfoldable pub finish_rows : ℕ → ℕ → List GenesisRun → List GenesisRun
finish_rows run_id moment [] = []
finish_rows run_id moment (run ∷ runs) =
    (if nat_beq run.genesis_run_id run_id then record run { finished_at = some moment } else run)
    ∷ finish_rows run_id moment runs

-- `GenesisRunRepository.finish`
unfoldable pub finish_run : ℕ → ℕ → Action
unfolding finish_rows
finish_run run_id moment s = (tt, record s { runs = finish_rows run_id moment s.runs })

-- `_emit`, which appends an event and never has it appraised.
unfoldable pub emit : Lifecycle → Action
emit event s = (tt, record s { journal = s.journal ++ event ∷ [] })
