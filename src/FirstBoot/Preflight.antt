-- ===== src/FirstBoot/Preflight.antt =====
-- app/firstboot/preflight.py: what must be true before a run begins. Every check reports, so that
-- the whole list is seen at once.
use discord_personality_bot.Base.{
  ℕ, String, Bool, true, false, not, ◌&&◌, Option, none, some, List, [], ◌∷◌, ltb, nat_beq,
  text_test, ◌==◌, is_some, if◌then◌else◌,
}
use discord_personality_bot.Base.Lists.{keep}
use discord_personality_bot.FirstBoot.Status.{is_complete}
use discord_personality_bot.FirstBoot.Store.{LifeAnchors, BootState, GenesisRun}

-- What the checks read of the system: the events of real users, the schema, the database, the
-- prompts, the critics, the directory of the data, and whether a backup service is there.
pub record Surroundings : Type 0 where
  pub real_user_events : ℕ
  pub schema_version : ℕ
  pub latest_schema : ℕ
  pub integrity : String
  pub known_prompts : List String
  pub critics_available : Bool
  pub data_dir_writable : Bool
  pub has_backups : Bool

pub record Check : Type 0 where
  pub name : String
  pub passed : Bool

abbrev check : String → Bool → Check
check name passed = record { name = name; passed = passed }

-- `Preflight.passed`
unfoldable pub all_passed : List Check → Bool
all_passed [] = true
all_passed (c ∷ cs) = c.passed && all_passed cs

-- `Preflight.failures`
unfoldable pub failures : List Check → List Check
unfolding keep
failures checks = keep (λ (c : Check). not c.passed) checks

abbrev pub required_prompts : List String
required_prompts =
    "genesis_annual_scaffold" ∷ "genesis_month" ∷ "genesis_annual_synthesis"
    ∷ "genesis_experience_extraction" ∷ []

unfoldable pub is_known : String → List String → Bool
is_known prompt [] = false
is_known prompt (p ∷ ps) = if p == prompt then true else is_known prompt ps

unfoldable pub missing_prompts : List String → List String
unfolding keep is_known
missing_prompts known = keep (λ prompt. not (is_known prompt known)) required_prompts

abbrev is_empty : List String → Bool
is_empty [] = true
is_empty (p ∷ ps) = false

-- `unfinished`: the newest of the runs that are not finished, the last of the table.
unfoldable pub unfinished : List GenesisRun → Option ℕ
unfinished [] = none
unfinished (run ∷ runs) =
    let later = unfinished runs in
    elim later [
      | some id ↦ some id
      | none ↦ if is_some run.finished_at then none else some run.genesis_run_id
    ]

-- An unfinished run that is not the one of the epoch.
unfoldable pub is_stray : Option ℕ → Option ℕ → Bool
is_stray none attached = false
is_stray (some run) none = true
is_stray (some run) (some own) = not (nat_beq run own)

-- `run_preflight`, for an epoch and a row that are there.
unfoldable pub run_preflight : Surroundings → LifeAnchors → BootState → List GenesisRun → List Check
unfolding missing_prompts unfinished is_stray
run_preflight around anchors state runs =
    check "fresh_rebuild_epoch" true
    ∷ check "not_already_complete" (not (is_complete state.status))
    ∷ check "no_real_discord_history" (nat_beq around.real_user_events 0)
    ∷ check "no_conflicting_genesis_run" (not (is_stray (unfinished runs) state.genesis_run_id))
    ∷ check "schema_is_latest" (nat_beq around.schema_version around.latest_schema)
    ∷ check "db_integrity" (around.integrity == "ok")
    ∷ check "required_prompts" (is_empty (missing_prompts around.known_prompts))
    ∷ check "required_critics" around.critics_available
    ∷ check "anchors_valid" (ltb anchors.birth_datetime anchors.present_datetime)
    ∷ check "anchors_cover_present" anchors.covers_to_present
    ∷ check "data_dir_writable" around.data_dir_writable
    ∷ check "backup_usable" around.has_backups
    ∷ []
