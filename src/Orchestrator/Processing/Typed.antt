-- ===== src/Orchestrator/Processing/Typed.antt =====
-- The rows of the history have the types of their values.
use discord_personality_bot.Base.{
  Option-cases, ℕ, List, [], ◌∷◌, Option, Bool, true, false, String, ok, raised, Result,
  Result-cases, inl, inr, nat_beq, if◌then◌else◌,
}
use discord_personality_bot.Base.Lists.{All, All-append}
use discord_personality_bot.Events.Model.{Event}
use discord_personality_bot.Events.Dispatcher.{DispatchResult}
use discord_personality_bot.Number.{Float}
use discord_personality_bot.State.Value.{
  stored_form, Value, null, boolean, number, text, json, ValueType, null_type, boolean_type,
  number_type, text_type, json_type, value_type_of,
}
use discord_personality_bot.State.Arbitrator.Records.{AcceptedChange, Rejection, ArbitrationResult}
use discord_personality_bot.State.Committer.{
  change_row, note_change, commit_one, commit_changes, rejection_failure, commit_rejections,
  complete_all, commit_result, commit_body, commit, final_status, counts_of, write_of,
}
use discord_personality_bot.Storage.Tables.{Tables, ChangeRow, RunStatus}
use discord_personality_bot.Storage.Database.{
  Exception, World, Exec, pure, ◌>>=◌, now, leave, transaction,
}
use discord_personality_bot.Storage.Effects.{entered}
use discord_personality_bot.Storage.StateTable.{Write, write_row, write_stored, write_value}
use discord_personality_bot.Storage.Recording.{note_change-cases}
use discord_personality_bot.Storage.Deliveries.{mark_completed}
use discord_personality_bot.Storage.Runs.{Counts, finish, record_failure}
use discord_personality_bot.Storage.EventTable.{append, append_each, append_all}
use discord_personality_bot.Orchestrator.RunLog.{commit_run}

-- What a type of the history says of a value, for who reads the row.
pub data IsOf : ValueType → Value → Type 0 where
  is_null : IsOf null_type null
  is_boolean : (b : Bool) → IsOf boolean_type (boolean b)
  is_number : (x : Float) → IsOf number_type (number x)
  is_text : (s : String) → IsOf text_type (text s)
  is_json : (s : String) → IsOf json_type (json s)

value_type_of-IsOf : (v : Value) → IsOf (value_type_of v) v
unfolding value_type_of
value_type_of-IsOf null = is_null
value_type_of-IsOf (boolean b) = is_boolean b
value_type_of-IsOf (number x) = is_number x
value_type_of-IsOf (text s) = is_text s
value_type_of-IsOf (json s) = is_json s

-- Each row of `state_changes` has the type of its new value.
abbrev pub IsTyped : Tables → Type 0
IsTyped t = All (λ (r : ChangeRow). IsOf r.value_type r.new_value) t.state_changes

abbrev BothTyped : World → Type 0
BothTyped w = IsTyped w.tables × IsTyped w.saved

record KeepsTypes {A : Type 0} (m : Exec A) : Type 0 where
  at : (w : World) → BothTyped w → BothTyped (m w).1

module _ {A B : Type 0} (m : Exec A) (f : A → Exec B) where
  bind-KeepsTypes : KeepsTypes m → ((a : A) → KeepsTypes (f a)) → KeepsTypes (m >>= f)
  bind-KeepsTypes pm pf = record {
    at = λ w h.
        let first = pm.at w h in
        elim (Result-cases (m w).0) [
          | inl (a, e) ↦ let rest = (pf a).at (m w).1 first in rw (e, ◌>>=◌) rest
          | inr (x, e) ↦ rw (e, ◌>>=◌) first
        ];
  }

leave-BothTyped :
    {A : Type 0} (outermost : Bool) (r : Result Exception A × World)
    → BothTyped r.1
    → BothTyped (leave outermost r).1
unfolding leave
leave-BothTyped outermost (ok a, w) h = h
leave-BothTyped true (raised e, w) h = (h.1, h.1)
leave-BothTyped false (raised e, w) h = h

entered-BothTyped : (w : World) → BothTyped w → BothTyped (entered w)
entered-BothTyped w h =
    elim (nat_beq w.depth 0)
      as (λ b. IsTyped w.tables × IsTyped (if b then w.tables else w.saved)) [
        | true ↦ (h.0, h.0)
        | false ↦ h
      ]

transaction-KeepsTypes : {A : Type 0} (m : Exec A) → KeepsTypes m → KeepsTypes (transaction m)
unfolding transaction
transaction-KeepsTypes m pm = record {
  at = λ w h.
      leave-BothTyped (nat_beq w.depth 0) (m (entered w))
        (pm.at (entered w) (entered-BothTyped w h));
}

-- A call that leaves the history and what is saved alone.
pure-KeepsTypes : {A : Type 0} (a : A) → KeepsTypes (pure a)
pure-KeepsTypes a = record { at = λ w h. h }

write_stored-KeepsTypes : (a : Write) (expected : Option ℕ) → KeepsTypes (write_stored a expected)
unfolding write_stored
write_stored-KeepsTypes a expected = record {
  at = λ w h. elim (Result-cases (write_row a expected w.tables.state_values)) [
    | inl (x, e) ↦ rw (e, write_stored) h
    | inr (x, e) ↦ rw (e, write_stored) h
  ];
}

write_value-KeepsTypes : (a : Write) (expected : Option ℕ) → KeepsTypes (write_value a expected)
unfolding write_value
write_value-KeepsTypes a expected = record {
  at = λ w h. elim (Option-cases (stored_form a.value)) [
    | inl e ↦ rw (e, write_value) h
    | inr (v, e) ↦
        rw (e, write_value) ((write_stored-KeepsTypes (record a { value = v }) expected).at w h)
  ];
}

note_change-KeepsTypes :
    (run at : ℕ) (c : AcceptedChange) (version : ℕ) → KeepsTypes (note_change run at c version)
unfolding change_row
note_change-KeepsTypes run at c version = record {
  at = λ w h.
      let row = change_row w.next_id run at version c in
      elim (note_change-cases run at c version w) [
        | inl e ↦ rw e h
        | inr e ↦ rw e (
          All-append (λ (r : ChangeRow). IsOf r.value_type r.new_value) w.tables.state_changes
              (row ∷ []) h.0 (value_type_of-IsOf c.new_value, tt),
          h.1,
        )
      ];
}

commit_changes-KeepsTypes :
    (run at : ℕ) (cs : List AcceptedChange) → KeepsTypes (commit_changes run at cs)
unfolding commit_changes commit_one
commit_changes-KeepsTypes run at [] = pure-KeepsTypes []
commit_changes-KeepsTypes run at (c ∷ cs) =
    bind-KeepsTypes (commit_one run at c) _
      (bind-KeepsTypes (write_value (write_of run at c) c.expected_version) (note_change run at c)
        (write_value-KeepsTypes (write_of run at c) c.expected_version)
        (note_change-KeepsTypes run at c))
      λ i.
        bind-KeepsTypes (commit_changes run at cs) _ (commit_changes-KeepsTypes run at cs)
          λ is. pure-KeepsTypes (i ∷ is)

commit_rejections-KeepsTypes :
    (run event at : ℕ) (rs : List Rejection) → KeepsTypes (commit_rejections run event at rs)
unfolding commit_rejections record_failure
commit_rejections-KeepsTypes run event at [] = pure-KeepsTypes []
commit_rejections-KeepsTypes run event at (r ∷ rs) =
    bind-KeepsTypes (record_failure (rejection_failure run event r) at) _ (record { at = λ w h. h })
      λ i.
        bind-KeepsTypes (commit_rejections run event at rs) _
          (commit_rejections-KeepsTypes run event at rs) λ is. pure-KeepsTypes (i ∷ is)

complete_all-KeepsTypes : (at : ℕ) (is : List ℕ) → KeepsTypes (complete_all at is)
unfolding complete_all mark_completed
complete_all-KeepsTypes at [] = pure-KeepsTypes tt
complete_all-KeepsTypes at (i ∷ is) =
    bind-KeepsTypes (mark_completed i at) _ (record { at = λ w h. h })
      λ _. complete_all-KeepsTypes at is

finish-KeepsTypes :
    (i : ℕ) (s : RunStatus) (at : ℕ) (c : Counts) (m : Option String)
    → KeepsTypes (finish i s at c m)
unfolding finish
finish-KeepsTypes i s at c m = record { at = λ w h. h }

commit-KeepsTypes :
    (run event : ℕ) (r : ArbitrationResult) (deliveries : List ℕ) (at finished_at : ℕ)
    → KeepsTypes (commit run event r deliveries at finished_at)
unfolding commit commit_body
commit-KeepsTypes run event r deliveries at finished_at =
    let body = commit_body run event r deliveries at finished_at in
    bind-KeepsTypes (transaction body) _
      (transaction-KeepsTypes body (
        bind-KeepsTypes (commit_changes run at r.accepted) _
          (commit_changes-KeepsTypes run at r.accepted)
          λ is.
            bind-KeepsTypes (commit_rejections run event at r.rejected) _
              (commit_rejections-KeepsTypes run event at r.rejected)
              λ fs.
                bind-KeepsTypes (complete_all at deliveries) _
                  (complete_all-KeepsTypes at deliveries)
                  λ _.
                    bind-KeepsTypes
                      (finish run (final_status r.accepted) finished_at (counts_of r) _) _
                      (finish-KeepsTypes run (final_status r.accepted) finished_at (counts_of r) _)
                      λ _. pure-KeepsTypes (is, fs)))
      λ ids. pure-KeepsTypes (commit_result run r deliveries ids)

append-KeepsTypes : (e : Event) → KeepsTypes (append e)
unfolding append
append-KeepsTypes e = record { at = λ w h. h }

append_each-KeepsTypes : (es : List Event) (n m : ℕ) → KeepsTypes (append_each es n m)
unfolding append_each
append_each-KeepsTypes [] n m = pure-KeepsTypes (n, m)
append_each-KeepsTypes (e ∷ es) n m =
    bind-KeepsTypes (append e) _ (append-KeepsTypes e) λ fresh. append_each-KeepsTypes es _ _

-- Where every row of the history of changes, in the tables and in what an open transaction would
-- roll back to, names the kind of its new value (null for none, Boolean, number, text, or JSON for
-- another), the commit of a run leaves a history of which every row does, whether it returns or
-- raises.
pub commit_run-IsTyped :
    (clock : ℕ → ℕ) (run : ℕ) (e : Event) (d : DispatchResult) (r : ArbitrationResult) (at : ℕ)
    (w : World)
    → IsTyped w.tables
    → IsTyped w.saved
    → IsTyped (commit_run clock run e d r at w).1.tables
unfolding commit_run append_all
commit_run-IsTyped clock run e d r at w typed saved =
    let n = append_each-KeepsTypes d.derived_events 0 0 in
    ((transaction-KeepsTypes _ (
        bind-KeepsTypes (append_all d.derived_events) _
          (transaction-KeepsTypes (append_each d.derived_events 0 0) n)
          λ n.
            bind-KeepsTypes (now clock) _ (record { at = λ w h. h })
              λ finished_at. commit-KeepsTypes run e.event_id r d.delivery_ids at finished_at)).at
      w (typed, saved)).0
