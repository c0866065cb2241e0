-- ===== src/Storage/Recording.antt =====
-- A row of the history is written, or a constraint refuses it.
use discord_personality_bot.Base.{
  ℕ, ◌+◌, ap, Result, ◌≡◌, refl, inl, inr, ◌⊎◌, Bool-cases, [], ◌∷◌, ◌++◌, ok, raised,
}
use discord_personality_bot.State.Arbitrator.Records.{AcceptedChange}
use discord_personality_bot.State.Committer.{change_row, note_change}
use discord_personality_bot.Storage.Tables.{ChangeRow}
use discord_personality_bot.Storage.Database.{Exception, World, integrity_error}
use discord_personality_bot.Storage.StateTable.{is_refused, record_change}

abbrev pub with_change : ChangeRow → World → World
with_change row w = record w {
  tables = record w.tables { state_changes = w.tables.state_changes ++ row ∷ [] };
}

pub record_change-cases :
    (row : ChangeRow) (w : World)
    → (record_change row w ≡ (raised integrity_error, w))
      ⊎ (record_change row w ≡ (ok tt, with_change row w))
unfolding record_change
record_change-cases row w = elim (Bool-cases (is_refused row w.tables)) [
  | inl e ↦ inl (rw e refl)
  | inr e ↦ inr (rw e refl)
]

-- What a row of the history leaves: an identifier is used up, and the row is there or refused.
pub note_change-cases :
    (run at : ℕ) (c : AcceptedChange) (version : ℕ) (w : World)
    → let w1 : World = record w { next_id = w.next_id + 1 } in
      (note_change run at c version w ≡ (raised integrity_error, w1))
      ⊎ (note_change run at c version w
          ≡ (ok w.next_id, with_change (change_row w.next_id run at version c) w1))
unfolding note_change
note_change-cases run at c version w =
    let w1 : World = record w { next_id = w.next_id + 1 } in
    let answer : Result Exception (Unit {0}) × World → Result Exception ℕ × World =
      λ r. elim r.0 [ ok u ↦ (ok w.next_id, r.1) | raised x ↦ (raised x, r.1) ] in
    elim (record_change-cases (change_row w.next_id run at version c) w1) [
      | inl e ↦ inl (ap answer e)
      | inr e ↦ inr (ap answer e)
    ]
