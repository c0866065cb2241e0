-- ===== src/State/Committed/Writing.antt =====
-- The changes that arbitration makes against a current snapshot are written without a lost race,
-- and the table then shows what `with_committed` shows.
use discord_personality_bot.Base.{
  ℕ, ◌+◌, ◌≡◌, refl, ap, ◌∙◌, inl, inr, Option, none, some, List, [], ◌∷◌, map, arith, Key,
  key_test, ok, Option-cases, Bool-cases, ◌==◌,
}
use discord_personality_bot.Base.Lists.{All}
use discord_personality_bot.Base.Dict.{lookup, insert, lookup-insert}
use discord_personality_bot.State.Value.{Value, StateValue, stored_form}
use discord_personality_bot.State.Snapshot.{merge_value, merge_changes}
use discord_personality_bot.State.Arbitrator.Records.{AcceptedChange, change_target, change_of}
use discord_personality_bot.State.Committer.{write_of, note_change, commit_one, commit_changes}
use discord_personality_bot.State.Committed.Current.{
  Rows, version_in, bind-inv, write_value-current,
}
use discord_personality_bot.Storage.Database.{World, ◌>>=◌, pure}
use discord_personality_bot.Storage.Recording.{note_change-cases}
use discord_personality_bot.Storage.StateTable.{
  Write, inserted, updated, write_row, write_stored, write_value,
}

-- The row that a write leaves where there was this row.
abbrev stored : Write → Option StateValue → StateValue
stored a none = inserted a
stored a (some row) = updated a row

unfoldable pub write_all : ℕ → ℕ → List AcceptedChange → Rows → Rows
write_all run at [] rows = rows
write_all run at (c ∷ cs) rows =
    write_all run at cs
      (insert (change_target c) (stored (write_of run at c) (lookup (change_target c) rows)) rows)

write_row-ok :
    (a : Write) (expected : Option ℕ) (rows : Rows)
    → expected ≡ version_in rows a.target
    → (v : ℕ) × (write_row a expected rows
        ≡ ok (v, insert a.target (stored a (lookup a.target rows)) rows))
unfolding write_row
write_row-ok a none rows h = elim (Option-cases (lookup a.target rows)) [
  | inl e ↦ (1, rw (e, write_row, stored))
  | inr (row, e) ↦ absurd (ground arith)
]
write_row-ok a (some n) rows h = elim (Option-cases (lookup a.target rows)) [
  | inl e ↦ absurd (ground arith)
  | inr (row, e) ↦ (n + 1, ground arith)
]

write_stored-ok :
    (a : Write) (expected : Option ℕ) (w : World)
    → expected ≡ version_in w.tables.state_values a.target
    → (write_stored a expected w).1.tables.state_values
      ≡ insert a.target (stored a (lookup a.target w.tables.state_values)) w.tables.state_values
unfolding write_stored
write_stored-ok a expected w h =
    let (v, e) = write_row-ok a expected w.tables.state_values h in rw (e, write_stored) refl

note_change-values :
    (run at : ℕ) (c : AcceptedChange) (version : ℕ) (w : World)
    → (note_change run at c version w).1.tables.state_values ≡ w.tables.state_values
note_change-values run at c version w = elim (note_change-cases run at c version w) [
  | inl e ↦ rw e refl
  | inr e ↦ rw e refl
]

-- The write of a change that was written, in the form in which it is stored.
abbrev pub written : ℕ → ℕ → AcceptedChange → Value → Write
written run at c v = record (write_of run at c) { value = v }

-- A change that was written had a stored form, and the row holds it.
pub commit_one-ok :
    (run at : ℕ) (c : AcceptedChange) (w : World) (i : ℕ)
    → (commit_one run at c w).0 ≡ ok i
    → (v : Value) × (stored_form c.new_value ≡ some v)
      × ((commit_one run at c w).1.tables.state_values
          ≡ insert
              (change_target c)
              (stored (written run at c v) (lookup (change_target c) w.tables.state_values))
              w.tables.state_values)
unfolding commit_one write_value write_of
commit_one-ok run at c w i h =
    let a = write_of run at c in
    let (n, e, rest) = bind-inv (write_value a c.expected_version) (note_change run at c) w i h in
    let current = write_value-current a c.expected_version w n e in
    let kept = note_change-values run at c n (write_value a c.expected_version w).1 in
    elim (Option-cases (stored_form c.new_value)) [
      | inl f ↦ absurd (cc (rw (f, write_value) at e))
      | inr (v, f) ↦
          let row = write_stored-ok (written run at c v) c.expected_version w current in
          (v, f, rw (e, ◌>>=◌) (kept ∙ rw (f, write_value) row))
    ]

-- A change whose value is stored as it is: no integer that a float does not hold.
abbrev pub IsStorable : AcceptedChange → Type 0
IsStorable c = stored_form c.new_value ≡ some c.new_value

pub commit_changes-ok :
    (run at : ℕ) (cs : List AcceptedChange) (w : World) (is : List ℕ)
    → All IsStorable cs
    → (commit_changes run at cs w).0 ≡ ok is
    → (commit_changes run at cs w).1.tables.state_values ≡ write_all run at cs w.tables.state_values
unfolding commit_changes write_all write_of
commit_changes-ok run at [] w is s h = refl
commit_changes-ok run at (c ∷ cs) w is s h =
    let (i, e, rest) =
      bind-inv (commit_one run at c) (λ i. commit_changes run at cs >>= λ js. pure (i ∷ js)) w is
        h in
    let after : World = (commit_one run at c w).1 in
    let (js, f, end) = bind-inv (commit_changes run at cs) (λ js. pure (i ∷ js)) after is rest in
    let (v, form, row) = commit_one-ok run at c w i e in
    let same : v ≡ c.new_value = cc (form, s.0) in
    rw (e, ◌>>=◌)
      (rw (f, ◌>>=◌)
        (commit_changes-ok run at cs after js s.1 f ∙ ap (write_all run at cs) (rw same at row)))

-- What a reader sees of a row: the value and its version.
abbrev pub shows : Option StateValue → Option (Value × ℕ)
shows none = none
shows (some v) = some (v.value, v.version)

-- Two tables show the same at every key.
abbrev pub ShowSame : Rows → Rows → Type 0
ShowSame a b = (k : Key) → shows (lookup k a) ≡ shows (lookup k b)

shows-stored :
    (run at now_at : ℕ) (c : AcceptedChange) (a b : Option StateValue)
    → shows a ≡ shows b
    → shows (some (stored (write_of run at c) a))
      ≡ shows (some (merge_value none now_at b c.new_value c.confidence))
unfolding merge_value inserted updated write_of
shows-stored run at now_at c none none h = refl
shows-stored run at now_at c none (some b) h = cc
shows-stored run at now_at c (some a) none h = cc
shows-stored run at now_at c (some a) (some b) h = ground arith

pub write_all-ShowSame :
    (run at now_at : ℕ) (cs : List AcceptedChange) (a b : Rows)
    → ShowSame a b
    → ShowSame (write_all run at cs a) (merge_changes none now_at (map change_of cs) b)
unfolding write_all merge_changes change_target
write_all-ShowSame run at now_at [] a b h = h
write_all-ShowSame run at now_at (c ∷ cs) a b h = write_all-ShowSame run at now_at cs _ _ λ k.
    elim (Bool-cases (change_target c == k)) [
      | inl e ↦
          rw (lookup-insert, lookup-insert)
            (rw e (shows-stored run at now_at c _ _ (h (change_target c))))
      | inr e ↦ rw (lookup-insert, lookup-insert) (rw e (h k))
    ]
