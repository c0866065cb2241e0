-- ===== src/State/Committed/Quiet.antt =====
-- The calls of a commit that return and leave the values of the state alone.
use discord_personality_bot.Base.{
  ℕ, ◌≡◌, refl, List, [], ◌∷◌, Option, String, Key, Bool, true, false, inl, inr, none, some, not,
  is_some, number_test, Bool-cases, ltb, ◌+◌, if◌then◌else◌,
}
use discord_personality_bot.Base.Dict.{Dict, lookup}
use discord_personality_bot.Events.Model.{Event}
use discord_personality_bot.State.Value.{StateValue}
use discord_personality_bot.State.Arbitrator.Records.{Rejection}
use discord_personality_bot.State.Committer.{rejection_failure, commit_rejections, complete_all}
use discord_personality_bot.Storage.Tables.{Tables, Run, RunStatus, Delivery}
use discord_personality_bot.Storage.Database.{Exec, ◌>>=◌, read_tables, write_tables}
use discord_personality_bot.Storage.Effects.{
  Performs, Performs-pure, Performs-read, Performs-write, Performs-bind, Performs-transaction,
}
use discord_personality_bot.Storage.Deliveries.{
  mark_completed, mark_failed, begin_attempt, begin_body, begin_from, first_attempt, attempted,
  decide, retry, is_closed, find,
}
use discord_personality_bot.Storage.Runs.{
  Counts, FailureRecord, record_failure, finish, start, record_conflict,
}
use discord_personality_bot.Storage.EventTable.{append, append_each, append_all}

abbrev pub values_of : Tables → Dict Key StateValue
values_of t = t.state_values

-- The call returns and writes no value of the state.
abbrev pub IsQuiet : {A : Type 0} → Exec A → Type 0
IsQuiet m = Performs values_of m

pub IsQuiet-write :
    (g : Tables → Tables)
    → ((t : Tables) → (g t).state_values ≡ t.state_values)
    → IsQuiet (write_tables g)
IsQuiet-write g same = Performs-write values_of g same

pub IsQuiet-bind :
    {A B : Type 0} (m : Exec A) (f : A → Exec B)
    → IsQuiet m
    → ((a : A) → IsQuiet (f a))
    → IsQuiet (m >>= f)
IsQuiet-bind m f pm pf = Performs-bind values_of m f pm pf

pub record_failure-IsQuiet : (f : FailureRecord) (at : ℕ) → IsQuiet (record_failure f at)
unfolding record_failure
record_failure-IsQuiet f at = record { at = λ w. (w.next_id, refl, refl) }

pub finish-IsQuiet :
    (i : ℕ) (s : RunStatus) (at : ℕ) (c : Counts) (m : Option String) → IsQuiet (finish i s at c m)
unfolding finish
finish-IsQuiet i s at c m = IsQuiet-write _ (λ t. refl)

pub start-IsQuiet : (r : Run) → IsQuiet (start r)
unfolding start
start-IsQuiet r = IsQuiet-write _ (λ t. refl)

pub record_conflict-IsQuiet : (i : ℕ) → IsQuiet (record_conflict i)
unfolding record_conflict
record_conflict-IsQuiet i = IsQuiet-write _ (λ t. refl)

pub mark_completed-IsQuiet : (i at : ℕ) → IsQuiet (mark_completed i at)
unfolding mark_completed
mark_completed-IsQuiet i at = IsQuiet-write _ (λ t. refl)

pub mark_failed-IsQuiet : (i at : ℕ) (m : String) (p : Bool) → IsQuiet (mark_failed i at m p)
unfolding mark_failed
mark_failed-IsQuiet i at m p = IsQuiet-write _ (λ t. refl)

pub commit_rejections-IsQuiet :
    (run event at : ℕ) (rs : List Rejection) → IsQuiet (commit_rejections run event at rs)
unfolding commit_rejections
commit_rejections-IsQuiet run event at [] = Performs-pure values_of []
commit_rejections-IsQuiet run event at (r ∷ rs) =
    IsQuiet-bind _ _ (record_failure-IsQuiet (rejection_failure run event r) at) λ i.
      IsQuiet-bind _ _ (commit_rejections-IsQuiet run event at rs)
        λ is. Performs-pure values_of (i ∷ is)

pub complete_all-IsQuiet : (at : ℕ) (is : List ℕ) → IsQuiet (complete_all at is)
unfolding complete_all
complete_all-IsQuiet at [] = Performs-pure values_of tt
complete_all-IsQuiet at (i ∷ is) =
    IsQuiet-bind _ _ (mark_completed-IsQuiet i at) λ _. complete_all-IsQuiet at is

pub append-IsQuiet : (e : Event) → IsQuiet (append e)
unfolding append
append-IsQuiet e = record {
  at = λ w. (not (is_some (lookup e.event_id w.tables.events)), refl, refl);
}

append_each-IsQuiet : (es : List Event) (n m : ℕ) → IsQuiet (append_each es n m)
unfolding append_each
append_each-IsQuiet [] n m = Performs-pure values_of (n, m)
append_each-IsQuiet (e ∷ es) n m =
    IsQuiet-bind _ _ (append-IsQuiet e) λ fresh. append_each-IsQuiet es _ _

pub append_all-IsQuiet : (es : List Event) → IsQuiet (append_all es)
unfolding append_all
append_all-IsQuiet es =
    Performs-transaction values_of (append_each es 0 0) (append_each-IsQuiet es 0 0)

retry-IsQuiet : (limit at : ℕ) (d : Delivery) → IsQuiet (retry limit at d)
unfolding retry
retry-IsQuiet limit at d = elim (Bool-cases (is_closed d.status)) [
  | inl closed ↦ rw closed (Performs-pure values_of (decide false d))
  | inr open_still ↦ rw open_still (
      IsQuiet-bind _ _ (IsQuiet-write _ (λ t. refl)) λ _.
        Performs-pure values_of
          (decide (if ltb limit (d.attempts + 1) then false else true) (attempted limit at d)))
]

begin_from-IsQuiet :
    (event : ℕ) (subscriber : String) (at limit : ℕ) (o : Option Delivery)
    → IsQuiet (begin_from event subscriber at limit o)
unfolding begin_from
begin_from-IsQuiet event subscriber at limit none = record {
  at = λ w. (decide true (first_attempt w.next_id event subscriber at), refl, refl);
}
begin_from-IsQuiet event subscriber at limit (some d) = retry-IsQuiet limit at d

pub begin_attempt-IsQuiet :
    (event : ℕ) (subscriber : String) (at limit : ℕ)
    → IsQuiet (begin_attempt event subscriber at limit)
unfolding begin_attempt begin_body
begin_attempt-IsQuiet event subscriber at limit =
    Performs-transaction values_of (begin_body event subscriber at limit) (
      IsQuiet-bind read_tables
        (λ t. begin_from event subscriber at limit (find event subscriber t.deliveries))
        (Performs-read values_of)
        λ t. begin_from-IsQuiet event subscriber at limit (find event subscriber t.deliveries))
