-- ===== src/Tests/Arbitrating.antt =====
-- Arbitration on concrete proposals.
use mathlib.Core.List.{Memᴰ}
use discord_personality_bot.Base.{
  false, text_test, ◌^◌, ◌*◌, ◌+◌, ◌≢◌, ◌≡◌, refl, none, some, [], ◌∷◌, map, ok,
}
use discord_personality_bot.Base.Lists.{All, length, DistinctBy, contains, fromkeys, fromkeys_from}
use discord_personality_bot.Base.Dict.{lookup}
use discord_personality_bot.Base.Sort.{Rises, sort, insert_by}
use discord_personality_bot.Base.Int.{◌≤ℤ◌, pos, neg_ℤ, ◌+ℤ◌}
use discord_personality_bot.Number.{
  float_of, float_size, nearest, spacing, fin, float_lt, float_add, float_neg, float_sub, float_abs,
  fsum, min_of, min_from,
}
use discord_personality_bot.Text.{codes_lt, str_lt, key_lt}
use discord_personality_bot.State.Value.{stored_form, number, null, numeric, numeric_of}
use discord_personality_bot.Storage.StateTable.{write_stored}
use discord_personality_bot.State.Layers.{
  layers, layer_of, is_deep, is_consolidation_writer, commit_order_key, order_key_lt,
}
use discord_personality_bot.State.Ownership.{ownership, admin_writer, is_known_domain, may_write}
use discord_personality_bot.State.Policy.{for_domain}
use discord_personality_bot.State.Proposal.{set, adjust, target}
use discord_personality_bot.State.Snapshot.{get, with_committed}
use discord_personality_bot.State.Arbitrator.Records.{
  AcceptedChange, not_state_owner, change_target, change_of, ArbitrationResult,
}
use discord_personality_bot.State.Arbitrator.Screen.{
  screen_all, screen_reason, screen_policy, screen_numbers, reject_one,
}
use discord_personality_bot.State.Arbitrator.Overflow.{sum_overflows, overflows, any_overflows}
use discord_personality_bot.State.Arbitration.Merging.{admissible}
use discord_personality_bot.State.Arbitration.Returning.{arbitrate_returns}
use discord_personality_bot.State.Arbitrator.Groups.{members, add_to_group, collect, group}
use discord_personality_bot.State.Arbitrator.Resolve.{
  hashable, hash_beq, values_differ, operations_differ, in_bounds, in_delta, set_delta, resolve_set,
  magnitude_or_zero, total_magnitude, adjust_number, resolve_adjust, resolve, confidences,
  reasons_of, evidence_of, ids_of, accept_group, reject_group, resolve_all,
}
use discord_personality_bot.State.Arbitrator.{with_keys, sort_changes, arbitrate}
use discord_personality_bot.State.Arbitration.Merging.{admissible, for_target}
use discord_personality_bot.State.Arbitration.Limits.{accepted_in_bounds, accepted_in_delta}
use discord_personality_bot.State.Arbitration.Order.{layer, accepted_in_order}
use discord_personality_bot.State.Arbitration.Accounting.{
  occurs, in_accepted, in_rejected, arbitrate_accounts, merged_exactly,
}
use discord_personality_bot.State.Arbitration.Authority.{
  IsWriter, Consolidates, accepted_by-IsWriter, deep_by_owner,
}
use discord_personality_bot.State.Committer.{CommitResult, commit}
use discord_personality_bot.State.Committed.Current.{version_in}
use discord_personality_bot.State.Committed.Writing.{IsStorable, ShowSame}
use discord_personality_bot.State.Committed.Commits.{commit_shows}
use discord_personality_bot.State.Committed.Races.{commit_unraced}
use discord_personality_bot.State.Committer.{
  commit_body, commit_changes, commit_one, note_change, change_row, write_of, commit_rejections,
  rejection_failure, head_id, complete_all, final_status, counts_of, commit_result,
  rejected_proposal_count,
}
use discord_personality_bot.State.Value.{value_type_of}
use discord_personality_bot.Storage.StateTable.{
  write_value, write_row, inserted, updated, record_change, is_refused,
}
use discord_personality_bot.Storage.Runs.{record_failure, finish, finished}
use discord_personality_bot.Storage.Database.{transaction, leave}
use discord_personality_bot.Base.Dict.{insert}
use discord_personality_bot.Tests.Cases.{policy, proposals, joy, snapshot, world}

abbrev pub joy_change : AcceptedChange
joy_change = record {
  domain = "emotion";
  key = "joy";
  operation = adjust;
  previous_value = number (fin (pos 500000000));
  new_value = number (fin (pos 650000000));
  delta = some (fin (pos 150000000));
  confidence = some (fin (pos 800000000));
  expected_version = some 3;
  source_module = "emotion_engine";
  source_event_id = 7;
  proposal_id = 1;
  merged_proposal_ids = 1 ∷ 2 ∷ [];
  reason_codes = "praise" ∷ [];
  evidence_ids = "ev_1" ∷ [];
}

abbrev pub openness_change : AcceptedChange
openness_change = record {
  domain = "personality";
  key = "openness";
  operation = set;
  previous_value = null;
  new_value = number (fin (pos 600000000));
  delta = none;
  confidence = some (fin (pos 800000000));
  expected_version = none;
  source_module = "growth_engine";
  source_event_id = 7;
  proposal_id = 3;
  merged_proposal_ids = 3 ∷ [];
  reason_codes = "praise" ∷ [];
  evidence_ids = "ev_1" ∷ [];
}

abbrev pub arbitrated : ArbitrationResult
arbitrated = record {
  accepted = joy_change ∷ openness_change ∷ [];
  rejected =
      record {
        reason_code = not_state_owner;
        proposal_ids = 4 ∷ [];
        domain = "emotion";
        key = "joy";
        source_modules = "mood_engine" ∷ [];
      }
      ∷ [];
  received = 4;
}

pub arbitrate_run : arbitrate policy proposals snapshot ≡ ok arbitrated
unfolding contains fromkeys fromkeys_from lookup sort insert_by neg_ℤ ◌+ℤ◌ float_lt float_add
    float_neg float_sub float_abs fsum min_of min_from codes_lt str_lt key_lt numeric numeric_of
    layers layer_of is_deep is_consolidation_writer commit_order_key order_key_lt ownership
    is_known_domain may_write for_domain target get screen_all screen_reason screen_policy
    screen_numbers reject_one members add_to_group collect group hashable hash_beq values_differ
    operations_differ in_bounds in_delta set_delta resolve_set magnitude_or_zero total_magnitude
    adjust_number resolve_adjust resolve confidences reasons_of evidence_of ids_of accept_group
    reject_group resolve_all with_keys sort_changes any_overflows overflows sum_overflows
    stored_form float_of float_size arbitrate
arbitrate_run = refl

fitting : any_overflows snapshot (group (admissible policy proposals)) ≡ false
unfolding contains lookup codes_lt str_lt key_lt sort insert_by neg_ℤ ◌+ℤ◌ float_lt float_add
    numeric numeric_of layer_of layers is_deep is_consolidation_writer ownership is_known_domain
    may_write for_domain target get screen_reason screen_policy screen_numbers members add_to_group
    collect group hashable hash_beq values_differ operations_differ magnitude_or_zero any_overflows
    overflows sum_overflows stored_form float_of float_size admissible
fitting = refl

arbitrate_returns_example : (r : ArbitrationResult) × (arbitrate policy proposals snapshot ≡ ok r)
arbitrate_returns_example = arbitrate_returns policy proposals snapshot fitting

accepted_in_bounds_example :
    (pos 0 ≤ℤ pos 650000000 +ℤ pos 1) × (pos 650000000 ≤ℤ pos 1000000000 +ℤ pos 1)
unfolding for_domain lookup
accepted_in_bounds_example =
    accepted_in_bounds policy proposals snapshot arbitrated joy_change (pos 0) (pos 1000000000)
      (pos 650000000) arbitrate_run (Memᴰ.head refl) refl refl refl

accepted_in_delta_example :
    (pos 650000000 ≤ℤ pos 500000000 +ℤ (pos 300000000 +ℤ pos 1))
    × (pos 500000000 ≤ℤ pos 650000000 +ℤ (pos 300000000 +ℤ pos 1))
unfolding for_domain lookup get change_target numeric numeric_of
accepted_in_delta_example =
    accepted_in_delta policy proposals snapshot arbitrated joy_change joy (pos 300000000)
      (pos 500000000) (pos 650000000) arbitrate_run (Memᴰ.head refl) refl refl refl refl

accepted_in_order_example :
    DistinctBy change_target arbitrated.accepted × Rises layer arbitrated.accepted
accepted_in_order_example = accepted_in_order policy proposals snapshot arbitrated arbitrate_run

arbitrate_accounts_example :
    (in_accepted 2 arbitrated.accepted + in_rejected 2 arbitrated.rejected
      ≡ occurs 2 (ids_of proposals))
    × (arbitrated.received ≡ length proposals)
arbitrate_accounts_example = arbitrate_accounts policy proposals snapshot arbitrated 2 arbitrate_run

merged_exactly_example :
    joy_change.merged_proposal_ids
    ≡ ids_of (for_target (change_target joy_change) (admissible policy proposals))
merged_exactly_example =
    merged_exactly policy proposals snapshot arbitrated joy_change arbitrate_run (Memᴰ.head refl)

accepted_by-IsWriter_example : IsWriter "emotion" "emotion_engine"
accepted_by-IsWriter_example =
    accepted_by-IsWriter policy proposals snapshot arbitrated joy_change arbitrate_run
      (Memᴰ.head refl)

deep_by_owner_example :
    (lookup "personality" ownership ≡ some "growth_engine")
    × Consolidates "growth_engine"
    × ("growth_engine" ≢ admin_writer)
unfolding layer_of layers lookup
deep_by_owner_example =
    deep_by_owner policy proposals snapshot arbitrated openness_change arbitrate_run
      (Memᴰ.tail (Memᴰ.head refl)) refl

-- A table that is still as the snapshot saw it, in which the run and the event are stored.
commits : (c : CommitResult) × ((commit 9 7 arbitrated [] 50 51 world).0 ≡ ok c)
unfolding commit commit_body commit_changes commit_one note_change change_row value_type_of write_of
    write_value stored_form float_of float_size write_stored write_row inserted updated insert
    record_change is_refused contains lookup change_target commit_rejections rejection_failure
    head_id record_failure complete_all finish finished final_status counts_of commit_result
    rejected_proposal_count transaction leave
commits = (_, refl)

pub arbitrated-AreStorable : All IsStorable arbitrated.accepted
unfolding stored_form float_of float_size
arbitrated-AreStorable = (refl, (refl, tt))

-- An integer that no float holds, and one that is too large.
converted :
    (float_of (fin (pos ((2 ^ 53 + 1) * 1000000000))) ≡ some (fin (pos (2 ^ 53 * 1000000000))))
    × (float_of (fin (pos (2 ^ 1024 * 1000000000))) ≡ none)
unfolding float_of float_size nearest spacing
converted = (refl, refl)

commit_shows_example :
    ShowSame
      (commit 9 7 arbitrated [] 50 51 world).1.tables.state_values
      (with_committed snapshot (map change_of arbitrated.accepted) none).values
commit_shows_example =
    commit_shows snapshot arbitrated 9 7 [] 50 51 world commits.0 arbitrated-AreStorable refl
      commits.1

commit_unraced_example :
    All
      (λ (a : AcceptedChange).
        version_in snapshot.values (change_target a)
        ≡ version_in world.tables.state_values (change_target a))
      arbitrated.accepted
commit_unraced_example =
    commit_unraced policy proposals snapshot arbitrated 9 7 [] 50 51 world commits.0 arbitrate_run
      commits.1
