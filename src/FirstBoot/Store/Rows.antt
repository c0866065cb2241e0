-- ===== src/FirstBoot/Store/Rows.antt =====
-- The rows that the first boot reads and writes, and calls on a store of them. Identifiers, process
-- numbers and instants are numbers, an instant in seconds.
use discord_personality_bot.Base.{
  ℕ, ◌+◌, String, Bool, Option, none, some, List, [], ◌∷◌, text_test, number_test, Result, ok,
  raised,
}
use discord_personality_bot.Base.Dict.{Dict}
use discord_personality_bot.Jobs.Scheduler.{Job}
use discord_personality_bot.FirstBoot.Status.{Status, BlockKind}

-- The anchors of a life (app/genesis/anchors.py); `details` stands for the texts.
pub record LifeAnchors : Type 0 where
  pub birth_datetime : ℕ
  pub present_datetime : ℕ
  pub life_years : ℕ
  pub covers_to_present : Bool
  pub details : String

-- A row of `first_boot_state`, under the identifier of its epoch.
pub record BootState : Type 0 where
  pub status : Status
  pub genesis_run_id : Option ℕ
  pub started_at : Option ℕ
  pub last_progress_at : Option ℕ
  pub completed_at : Option ℕ
  pub blocked_at : Option ℕ
  pub block_kind : Option BlockKind
  pub block_reason : String
  pub last_checkpoint : String
  pub current_stage : String
  pub attempt_count : ℕ
  pub anchors_fingerprint : String
  pub schema_version : ℕ
  pub report : Option String

-- The row of `first_boot_lock`.
pub record Lease : Type 0 where
  pub epoch_id : ℕ
  pub holder : ℕ
  pub acquired_at : ℕ
  pub heartbeat_at : ℕ

-- A row of `genesis_runs`.
pub record GenesisRun : Type 0 where
  pub genesis_run_id : ℕ
  pub finished_at : Option ℕ

-- The lifecycle events that are appended to the store of events.
pub data Lifecycle : Type 0 where
  boot_started : ℕ → ℕ → Lifecycle
  boot_resumed : ℕ → ℕ → ℕ → String → Lifecycle
  boot_blocked : ℕ → ℕ → BlockKind → Bool → Lifecycle
  boot_completed : ℕ → ℕ → Lifecycle

-- A write of a status to the row of an epoch, from what and to what.
abbrev pub Move : Type 0
Move = ℕ × Status × Status

-- The tables, and beside them the moves of the rows, latest first, which no code reads.
pub record Store : Type 0 where
  pub moves : List Move
  pub states : Dict ℕ BootState
  pub lease : Option Lease
  pub runs : List GenesisRun
  pub life_anchors : Dict ℕ LifeAnchors
  pub jobs : List Job
  pub life_day : Option ℕ
  pub journal : List Lifecycle
  pub next_id : ℕ
  pub ticks : ℕ

abbrev pub Exec : Type 0 → Type 0
Exec A = Store → A × Store

unfoldable pub pure : {A : Type 0} → A → Exec A
pure a s = (a, s)

infixl 5 ◌>>=◌ ◌>>◌
unfoldable pub ◌>>=◌ : {A B : Type 0} → Exec A → (A → Exec B) → Exec B
unfolding pure
◌>>=◌ m f s = let (a, s') = m s in f a s'

abbrev pub ◌>>◌ : {A B : Type 0} → Exec A → Exec B → Exec B
m >> k = m >>= λ _. k

-- The cases of an option, a list and a result, as steps.
unfoldable pub on_option : {A B : Type 0} → Option A → Exec B → (A → Exec B) → Exec B
on_option none m f = m
on_option (some a) m f = f a

unfoldable pub on_list : {A B : Type 0} → List A → Exec B → (A → Exec B) → Exec B
on_list [] m f = m
on_list (x ∷ xs) m f = f x

unfoldable pub on_result : {E A B : Type 0} → Result E A → (E → Exec B) → (A → Exec B) → Exec B
on_result (ok a) m f = f a
on_result (raised e) m f = m e

abbrev pub Action : Type 0
Action = Exec (Unit {0})

-- `clock.now()`: the clock is a function of how often it was read.
unfoldable pub now : (ℕ → ℕ) → Exec ℕ
now clock s = (clock s.ticks, record s { ticks = s.ticks + 1 })
