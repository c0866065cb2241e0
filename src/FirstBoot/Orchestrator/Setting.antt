-- ===== src/FirstBoot/Orchestrator/Setting.antt =====
-- What app/firstboot/orchestrator.py is built with. The generation of the life, its audits and the
-- promotion of the survivors (app/genesis), the backup and the hash of the anchors are data of an
-- environment. The generation is awaited, so that its reply comes with a store which other processes
-- may have changed; between two awaits a call is one step. The promotion writes and may raise, and
-- nothing catches what it raises.
use discord_personality_bot.Base.{
  ℕ, String, Bool, true, false, not, ◌&&◌, Option, List, [], ◌∷◌, text_test, number_test, is_some,
  Result,
}
use discord_personality_bot.Jobs.Scheduler.{Job}
use discord_personality_bot.FirstBoot.Status.{Status, auditing}
use discord_personality_bot.FirstBoot.Store.{LifeAnchors, Exec, pure}
use discord_personality_bot.FirstBoot.Preflight.{Surroundings}
use discord_personality_bot.FirstBoot.Landing.{Facts}

-- What a generation reports (`GenesisProgress`): the codes of the issues that block it, the critics
-- that could not run, the postconditions that are not met, and the year at which it stopped.
pub record Progress : Type 0 where
  pub blocked_by : List String
  pub unavailable_critics : List String
  pub incomplete : List String
  pub stopped_at : Option ℕ

pub record AuditResult : Type 0 where
  pub name : String
  pub passed : Bool

-- What the orchestrator was built with, and what it awaits or reads.
pub record Environment : Type 0 where
  pub epoch : Option ℕ
  pub process : ℕ
  pub clock : ℕ → ℕ
  pub around : Surroundings
  pub fingerprint : LifeAnchors → String
  pub backup_is_usable : Option Bool
  pub generate : LifeAnchors → ℕ → Exec (Result String Progress)
  pub last_checkpoint : String
  pub first_boot_audits : ℕ → LifeAnchors → Exec (List AuditResult)
  pub promote_survivors : ℕ → LifeAnchors → Exec (Result String (Unit {0}))
  pub landing_fault : Option (String × List Job)
  pub facts : Facts

-- `FirstBootOutcome`, or, where it has escaped, an exception with its text as the reason.
pub record Outcome : Type 0 where
  pub ok : Bool
  pub status : Status
  pub reason : String
  pub has_escaped : Bool

abbrev pub refused : Status → String → Exec Outcome
refused status reason =
    pure (record { ok = false; status = status; reason = reason; has_escaped = false })

abbrev pub done : Status → Exec Outcome
done status = pure (record { ok = true; status = status; reason = ""; has_escaped = false })

abbrev pub escapes : String → Exec Outcome
escapes reason =
    pure (record { ok = false; status = auditing; reason = reason; has_escaped = true })

abbrev pub is_nil {ℓ} : {A : Type ℓ} → List A → Bool
is_nil [] = true
is_nil (x ∷ xs) = false

-- `GenesisProgress.complete`
unfoldable pub is_whole : Progress → Bool
is_whole progress = not (is_some progress.stopped_at) && is_nil progress.incomplete
