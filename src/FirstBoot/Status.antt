-- ===== src/FirstBoot/Status.antt =====
-- app/firstboot/state.py: the statuses of an epoch and the kinds of block.
use discord_personality_bot.Base.{ℕ, Bool, true, false}

pub data Status : Type 0 where
  pending ready running paused blocked_retryable blocked_fatal auditing complete : Status

pub data BlockKind : Type 0 where
  model_unavailable critic_unavailable incomplete landing_failed contradiction audit_failed :
      BlockKind
  retry_exhausted : BlockKind

-- `RETRYABLE_BLOCKS`
unfoldable pub is_retryable : BlockKind → Bool
is_retryable model_unavailable = true
is_retryable critic_unavailable = true
is_retryable incomplete = true
is_retryable landing_failed = true
is_retryable _ = false

-- `FATAL_BLOCKS`
unfoldable pub is_fatal : BlockKind → Bool
is_fatal contradiction = true
is_fatal retry_exhausted = true
is_fatal _ = false

abbrev pub max_attempts : ℕ
max_attempts = 8

-- `STARTABLE`
unfoldable pub is_startable : Status → Bool
is_startable pending = true
is_startable ready = true
is_startable _ = false

-- `RESUMABLE`
unfoldable pub is_resumable : Status → Bool
is_resumable running = true
is_resumable paused = true
is_resumable blocked_retryable = true
is_resumable auditing = true
is_resumable _ = false

unfoldable pub block_status : BlockKind → Status
unfolding is_fatal
block_status kind = elim (is_fatal kind) [ true ↦ blocked_fatal | false ↦ blocked_retryable ]

unfoldable pub character_plane_open : Status → Bool
character_plane_open complete = true
character_plane_open _ = false

-- The sets of statuses that the compare-and-set of the orchestrator expects.
unfoldable pub is_at_work : Status → Bool
is_at_work running = true
is_at_work auditing = true
is_at_work _ = false

unfoldable pub is_blockable : Status → Bool
is_blockable running = true
is_blockable auditing = true
is_blockable paused = true
is_blockable _ = false

abbrev pub is_auditing : Status → Bool
is_auditing auditing = true
is_auditing _ = false

abbrev pub is_running : Status → Bool
is_running running = true
is_running _ = false

abbrev pub is_complete : Status → Bool
is_complete complete = true
is_complete _ = false

abbrev pub is_blocked_fatal : Status → Bool
is_blocked_fatal blocked_fatal = true
is_blocked_fatal _ = false
