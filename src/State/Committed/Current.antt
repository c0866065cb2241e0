-- ===== src/State/Committed/Current.antt =====
-- A write that returns expected the version that the table holds.
use discord_personality_bot.Base.{
  ℕ, ◌≡◌, refl, sym, ◌∙◌, Bool, Result, raised, inl, inr, arith, Option, none, some, Key, key_test,
  ok, Result-cases, Option-cases, nat_beq, nat_beq_iff, Bool-cases,
}
use discord_personality_bot.Base.Dict.{Dict, lookup}
use discord_personality_bot.State.Value.{StateValue, stored_form}
use discord_personality_bot.State.Arbitrator.Records.{AcceptedChange, change_target}
use discord_personality_bot.State.Committer.{write_of, note_change, commit_one}
use discord_personality_bot.Storage.Database.{Exception, World, Exec, ◌>>=◌, leave, transaction}
use discord_personality_bot.Storage.Effects.{entered}
use discord_personality_bot.Storage.StateTable.{Write, write_row, write_stored, write_value}

abbrev pub Rows : Type 0
Rows = Dict Key StateValue

abbrev pub version_of_row : Option StateValue → Option ℕ
version_of_row none = none
version_of_row (some v) = some v.version

abbrev pub version_in : Rows → Key → Option ℕ
version_in rows k = version_of_row (lookup k rows)

-- The version that a change expects is the one that the table has.
abbrev pub IsCurrent : Rows → AcceptedChange → Type 0
IsCurrent rows c = c.expected_version ≡ version_in rows (change_target c)

-- What ran before a call that returned has returned.
pub bind-inv :
    {A B : Type 0} (m : Exec A) (f : A → Exec B) (w : World) (b : B)
    → ((m >>= f) w).0 ≡ ok b
    → (a : A) × ((m w).0 ≡ ok a) × ((f a (m w).1).0 ≡ ok b)
bind-inv m f w b h = elim (Result-cases (m w).0) [
  | inl (a, e) ↦ (a, e, (rw (e, ◌>>=◌) at h))
  | inr (x, e) ↦ absurd (cc (rw (e, ◌>>=◌) at h))
]

write_row-current :
    (a : Write) (expected : Option ℕ) (rows : Rows) (r : ℕ × Rows)
    → write_row a expected rows ≡ ok r
    → expected ≡ version_in rows a.target
unfolding write_row
write_row-current a none rows r h = elim (Option-cases (lookup a.target rows)) [
  | inl e ↦ rw e refl
  | inr (row, e) ↦ absurd (cc (rw (e, write_row) at h))
]
write_row-current a (some n) rows r h = elim (Option-cases (lookup a.target rows)) [
  | inl e ↦ absurd (cc (rw (e, write_row) at h))
  | inr (row, e) ↦ elim (Bool-cases (nat_beq row.version n)) [
    | inl same ↦ rw e (ground (arith, nat_beq_iff row.version n, same))
    | inr other ↦ absurd (cc (rw (e, write_row, other) at h))
  ]
]

write_stored-current :
    (a : Write) (expected : Option ℕ) (w : World) (v : ℕ)
    → (write_stored a expected w).0 ≡ ok v
    → expected ≡ version_in w.tables.state_values a.target
unfolding write_stored
write_stored-current a expected w v h =
    elim (Result-cases (write_row a expected w.tables.state_values)) [
      | inl (r, e) ↦ write_row-current a expected w.tables.state_values r e
      | inr (x, e) ↦ absurd (cc (rw (e, write_stored) at h))
    ]

pub write_value-current :
    (a : Write) (expected : Option ℕ) (w : World) (v : ℕ)
    → (write_value a expected w).0 ≡ ok v
    → expected ≡ version_in w.tables.state_values a.target
unfolding write_value
write_value-current a expected w v h = elim (Option-cases (stored_form a.value)) [
  | inl e ↦ absurd (cc (rw (e, write_value) at h))
  | inr (u, e) ↦
      write_stored-current (record a { value = u }) expected w v (rw (e, write_value) at h)
]

pub commit_one-IsCurrent :
    (run at : ℕ) (c : AcceptedChange) (w : World) (i : ℕ)
    → (commit_one run at c w).0 ≡ ok i
    → IsCurrent w.tables.state_values c
unfolding commit_one
commit_one-IsCurrent run at c w i h =
    let (v, e, rest) =
      bind-inv (write_value (write_of run at c) c.expected_version) (note_change run at c) w i h in
    write_value-current (write_of run at c) c.expected_version w v e

leave_result :
    {A : Type 0} (outermost : Bool) (r : Result Exception A × World) → (leave outermost r).0 ≡ r.0
unfolding leave
leave_result outermost (ok a, w) = refl
leave_result outermost (raised x, w) = refl

pub transaction-inv :
    {A : Type 0} (m : Exec A) (w : World) (a : A)
    → (transaction m w).0 ≡ ok a
    → (m (entered w)).0 ≡ ok a
unfolding transaction
transaction-inv m w a h = sym (leave_result (nat_beq w.depth 0) (m (entered w))) ∙ h
