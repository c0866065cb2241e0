-- ===== src/Storage/Deliveries.antt =====
-- app/storage/repositories/deliveries.py: who has consumed which event.
use discord_personality_bot.Base.{
  ℕ, ◌+◌, String, Bool, true, false, ◌&&◌, Option, none, some, List, [], ◌∷◌, ◌++◌, nat_beq, ltb,
  ◌==◌, text_test, if◌then◌else◌,
}
use discord_personality_bot.Storage.Tables.{
  DeliveryState, pending, completed, failed_retryable, failed_permanent, skipped, Delivery,
}
use discord_personality_bot.Storage.Database.{
  Exec, Action, pure, ◌>>=◌, ◌>>◌, read_tables, write_tables, new_id, transaction,
}

abbrev pub default_max_attempts : ℕ
default_max_attempts = 3

pub record DeliveryDecision : Type 0 where
  pub delivery_id : ℕ
  pub should_process : Bool
  pub status : DeliveryState
  pub attempts : ℕ

-- `WHERE event_id = ? AND subscriber = ?`
abbrev pub is_for : ℕ → String → Delivery → Bool
is_for event subscriber d = nat_beq d.event_id event && d.subscriber == subscriber

unfoldable pub find : ℕ → String → List Delivery → Option Delivery
find event subscriber [] = none
find event subscriber (d ∷ ds) =
    if is_for event subscriber d then some d else find event subscriber ds

-- `UPDATE event_deliveries SET … WHERE delivery_id = ?`
unfoldable pub update : ℕ → (Delivery → Delivery) → List Delivery → List Delivery
update i f [] = []
update i f (d ∷ ds) = (if nat_beq d.delivery_id i then f d else d) ∷ update i f ds

abbrev pub write_deliveries : (List Delivery → List Delivery) → Action
write_deliveries f = write_tables (λ t. record t { deliveries = f t.deliveries })

unfoldable pub is_closed : DeliveryState → Bool
is_closed completed = true
is_closed skipped = true
is_closed failed_permanent = true
is_closed _ = false

-- The row of a first attempt.
unfoldable pub first_attempt : ℕ → ℕ → String → ℕ → Delivery
first_attempt i event subscriber at = record {
  delivery_id = i;
  event_id = event;
  subscriber = subscriber;
  status = pending;
  attempts = 1;
  first_attempt_at = at;
  last_attempt_at = at;
  completed_at = none;
  error = none;
}

-- The row of a later attempt, and what is answered: beyond the limit the delivery is closed.
unfoldable pub attempted : ℕ → ℕ → Delivery → Delivery
attempted limit at d = record d {
  status = if ltb limit (d.attempts + 1) then failed_permanent else pending;
  attempts = d.attempts + 1;
  last_attempt_at = at;
}

unfoldable pub decide : Bool → Delivery → DeliveryDecision
decide go d = record {
  delivery_id = d.delivery_id;
  should_process = go;
  status = d.status;
  attempts = d.attempts;
}

-- `begin_attempt` on a row that is there.
unfoldable pub retry : ℕ → ℕ → Delivery → Exec DeliveryDecision
unfolding attempted decide
retry limit at d =
    if is_closed d.status
    then pure (decide false d)
    else write_deliveries (update d.delivery_id (attempted limit at))
      >> pure (decide (if ltb limit (d.attempts + 1) then false else true) (attempted limit at d))

-- `begin_attempt` once the row was looked for, of an event that is stored.
unfoldable pub begin_from : ℕ → String → ℕ → ℕ → Option Delivery → Exec DeliveryDecision
unfolding retry first_attempt decide
begin_from event subscriber at limit none = do
  i ← new_id
  write_deliveries (λ ds. ds ++ first_attempt i event subscriber at ∷ [])
  pure (decide true (first_attempt i event subscriber at))
begin_from event subscriber at limit (some d) = retry limit at d

unfoldable pub begin_body : ℕ → String → ℕ → ℕ → Exec DeliveryDecision
unfolding begin_from
begin_body event subscriber at limit = do
  t ← read_tables
  begin_from event subscriber at limit (find event subscriber t.deliveries)

unfoldable pub begin_attempt : ℕ → String → ℕ → ℕ → Exec DeliveryDecision
unfolding begin_body transaction
begin_attempt event subscriber at limit = transaction (begin_body event subscriber at limit)

unfoldable pub complete : ℕ → Delivery → Delivery
complete at d = record d { status = completed; completed_at = some at; error = none }

unfoldable pub mark_completed : ℕ → ℕ → Action
mark_completed i at = write_deliveries (update i (complete at))

unfoldable pub mark_skipped : ℕ → ℕ → String → Action
mark_skipped i at reason =
    write_deliveries
      (update i (λ d. record d { status = skipped; completed_at = some at; error = some reason }))

unfoldable pub mark_failed : ℕ → ℕ → String → Bool → Action
mark_failed i at message permanent = write_deliveries (
    update i (λ d. record d {
      status = if permanent then failed_permanent else failed_retryable;
      last_attempt_at = at;
      error = some message;
    }))

-- `incomplete`, less its order and limit: what a restart must reconsider.
unfoldable pub is_incomplete : Delivery → Bool
is_incomplete d = elim d.status [ pending ↦ true | failed_retryable ↦ true | _ ↦ false ]
