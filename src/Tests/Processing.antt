-- ===== src/Tests/Processing.antt =====
-- One event from its arrival to its commit.
use discord_personality_bot.Base.{◌≡◌, refl, none, some, [], ◌∷◌, ok, raised}
use discord_personality_bot.Events.Bus.{Subscription, psychology}
use discord_personality_bot.Events.Model.{is_non_psychological}
use discord_personality_bot.Events.Dispatcher.{result, Handler, nothing_dispatched}
use discord_personality_bot.Storage.Tables.{normal}
use discord_personality_bot.Storage.Database.{transaction, leave, concurrent_state_write, World}
use discord_personality_bot.Base.Dict.{lookup}
use discord_personality_bot.State.Committer.{
  commit, commit_body, commit_changes, commit_one, write_of,
}
use discord_personality_bot.Storage.EventTable.{append_all, append_each}
use discord_personality_bot.Storage.StateTable.{write_value, write_row}
use discord_personality_bot.Orchestrator.Outcome.{ProcessingOutcome}
use discord_personality_bot.Orchestrator.RunLog.{commit_run_body, commit_run}
use discord_personality_bot.Orchestrator.Processor.{Config, process, arbitrated}
use discord_personality_bot.Orchestrator.Processing.Undisturbed.{LeavesState}
use discord_personality_bot.Orchestrator.Processing.Endings.{AreStorable, process_shows}
use discord_personality_bot.Orchestrator.Processing.Typed.{IsTyped, commit_run-IsTyped}
use discord_personality_bot.Orchestrator.Processing.Atomic.{commit_run_atomic}
use discord_personality_bot.Tests.Cases.{policy, proposals, joy, world, clock, praised}
use discord_personality_bot.Tests.Arbitrating
use discord_personality_bot.State.Committed.Writing.{ShowSame}
use discord_personality_bot.State.Committer.{CommitResult}
use discord_personality_bot.Orchestrator.Outcome.{post_commit_snapshot}
use discord_personality_bot.Text.{codes_lt, key_lt, str_lt}
use discord_personality_bot.Base.Int.{neg_ℤ, ◌+ℤ◌}
use discord_personality_bot.Number.{
  float_of, float_size, float_abs, float_add, float_lt, float_neg, float_sub, fsum, min_from,
  min_of,
}
use discord_personality_bot.State.Arbitrator.Resolve.{
  accept_group, adjust_number, confidences, evidence_of, hash_beq, hashable, ids_of, in_bounds,
  in_delta, magnitude_or_zero, operations_differ, reasons_of, reject_group, resolve, resolve_adjust,
  resolve_all, resolve_set, set_delta, total_magnitude, values_differ,
}
use discord_personality_bot.State.Arbitrator.Overflow.{sum_overflows, overflows, any_overflows}
use discord_personality_bot.State.Arbitrator.Groups.{add_to_group, collect, group, members}
use discord_personality_bot.Storage.StateTable.{
  write_stored, inserted, is_refused, record_change, updated,
}
use discord_personality_bot.Base.Lists.{contains, fromkeys, fromkeys_from}
use discord_personality_bot.State.Ownership.{is_known_domain, may_write, ownership}
use discord_personality_bot.Events.Dispatcher.{
  add_turn, deliver, dispatch, dispatch_each, empty_turn, settle, turn,
}
use discord_personality_bot.Orchestrator.Processor.{
  after_dispatch, attempts_from, conclude, interpret, interpret_with, normalise, process_once,
  react, settle_run, view_of,
}
use discord_personality_bot.State.Committer.{
  change_row, commit_rejections, commit_result, complete_all, counts_of, final_status, head_id,
  note_change, rejected_proposal_count, rejection_failure,
}
use discord_personality_bot.State.Arbitrator.Screen.{
  reject_one, screen_all, screen_numbers, screen_policy, screen_reason,
}
use discord_personality_bot.Storage.Deliveries.{
  begin_attempt, begin_body, begin_from, complete, decide, find, first_attempt, mark_completed,
  update,
}
use discord_personality_bot.State.Arbitrator.{arbitrate, sort_changes, with_keys}
use discord_personality_bot.State.Policy.{for_domain}
use discord_personality_bot.Base.Dict.{insert}
use discord_personality_bot.Orchestrator.RunLog.{
  capture, effective_now, open_body, open_run, opened,
}
use discord_personality_bot.Base.Sort.{insert_by, sort}
use discord_personality_bot.Storage.EventTable.{append, insert_event}
use discord_personality_bot.State.Layers.{
  commit_order_key, is_consolidation_writer, is_deep, layer_of, layers, order_key_lt,
}
use discord_personality_bot.State.Proposal.{target}
use discord_personality_bot.State.Value.{stored_form, numeric, numeric_of, value_type_of}
use discord_personality_bot.Storage.Runs.{finish, finished, record_failure, start}
use discord_personality_bot.Events.Bus.{accepts, subscriptions_for}
use discord_personality_bot.Orchestrator.Outcome.{outcome}
use discord_personality_bot.State.Snapshot.{get}

-- The engine raises the joy.
abbrev pub raises_joy : Handler
raises_joy name e view w = (result proposals [], w)

abbrev pub engine : Subscription
engine = record {
  name = "emotion_engine";
  kind = psychology;
  event_types = [];
  categories = [];
  order = 10;
}

abbrev config : Config
config = record {
  clock = clock;
  policy = policy;
  bus = engine ∷ [];
  handle = raises_joy;
  interpreter = none;
  max_commit_attempts = 2;
}

config-LeavesState : LeavesState config
config-LeavesState = record {
  handlers = λ name e view w. refl;
  interpreters = λ f there. absurd (cc there);
}

-- The engine's proposals are committed.
ended :
    (o : ProcessingOutcome) × (c : CommitResult) × ((process config praised normal world).0 ≡ ok o)
    × (o.commit_result ≡ some c)
    × (o.arbitration ≡ some Arbitrating.arbitrated)
unfolding contains fromkeys fromkeys_from lookup sort insert_by neg_ℤ ◌+ℤ◌ float_lt float_add
    float_neg float_sub float_abs fsum min_of min_from codes_lt str_lt key_lt numeric numeric_of
    layers layer_of is_deep is_consolidation_writer commit_order_key order_key_lt ownership
    is_known_domain may_write for_domain target get screen_all screen_reason screen_policy
    screen_numbers reject_one members add_to_group collect group hashable hash_beq values_differ
    operations_differ in_bounds in_delta set_delta resolve_set magnitude_or_zero total_magnitude
    adjust_number resolve_adjust resolve confidences reasons_of evidence_of ids_of accept_group
    reject_group resolve_all with_keys sort_changes any_overflows overflows sum_overflows arbitrate
    process attempts_from process_once effective_now append insert_event open_run open_body capture
    opened start interpret interpret_with view_of react dispatch dispatch_each subscriptions_for
    accepts turn begin_attempt begin_body begin_from first_attempt decide find deliver settle
    empty_turn add_turn nothing_dispatched after_dispatch normalise arbitrated settle_run conclude
    outcome commit_run commit_run_body append_all append_each commit commit_body commit_changes
    commit_one note_change change_row value_type_of write_of write_value stored_form float_of
    float_size write_stored write_row inserted updated insert record_change is_refused
    commit_rejections rejection_failure head_id record_failure complete_all mark_completed complete
    update finish finished final_status counts_of commit_result rejected_proposal_count transaction
    leave is_non_psychological
ended = (_, _, refl, refl, refl)

ended-AreStorable : AreStorable ended.0
ended-AreStorable a h =
    let same : Arbitrating.arbitrated ≡ a = cc (h, ended.4) in
    rw (← same) Arbitrating.arbitrated-AreStorable

process_shows_example :
    ShowSame
      (process config praised normal world).1.tables.state_values
      (post_commit_snapshot ended.0).values
process_shows_example =
    process_shows config config-LeavesState praised normal world ended.0 ended.1 ended.2 ended.3
      ended-AreStorable

-- A table in which the value has moved on.
abbrev moved_on : World
moved_on = record world {
  tables = record world.tables {
    state_values = (("emotion", "joy"), record joy { version = 4 }) ∷ [];
  };
}

loses :
    (commit_run clock 9 praised (nothing_dispatched praised) Arbitrating.arbitrated 50 moved_on).0
    ≡ raised concurrent_state_write
unfolding commit_run commit_run_body transaction leave append_all append_each commit commit_body
    commit_changes commit_one write_value stored_form float_of float_size write_stored write_row
    write_of lookup
loses = refl

commit_run-IsTyped_example :
    IsTyped
      (commit_run clock 9 praised
        (nothing_dispatched praised)
        Arbitrating.arbitrated
        50
        world).1.tables
commit_run-IsTyped_example =
    commit_run-IsTyped clock 9 praised (nothing_dispatched praised) Arbitrating.arbitrated 50 world
      tt tt

commit_run_atomic_example :
    ((commit_run clock 9 praised
        (nothing_dispatched praised)
        Arbitrating.arbitrated
        50
        moved_on).1.tables
      ≡ moved_on.tables)
    × ((commit_run clock 9 praised
          (nothing_dispatched praised)
          Arbitrating.arbitrated
          50
          moved_on).1.depth
        ≡ 0)
commit_run_atomic_example =
    commit_run_atomic clock 9 praised (nothing_dispatched praised) Arbitrating.arbitrated 50
      moved_on concurrent_state_write refl loses
