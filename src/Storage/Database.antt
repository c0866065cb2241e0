-- ===== src/Storage/Database.antt =====
-- app/storage/database.py: one connection whose transactions nest, and the calls that use it.
-- `World` is the process as such calls see it: the tables, what the open transaction would roll
-- back to, the nesting depth, the supply of identifiers (app/ids.py), and how often the clock was
-- read. What a call wrote before it raised stays in the world beside the exception.
use discord_personality_bot.Base.{
  ℕ, ◌+◌, ◌-◌, Bool, nat_beq, if◌then◌else◌, Result, ok, raised, String,
}
use discord_personality_bot.Storage.Tables.{Tables}

-- What the modelled calls raise: a lost version race, a domain without a layer, a row that a
-- constraint of the database refuses (`sqlite3.IntegrityError`), or another error.
pub data Exception : Type 0 where
  concurrent_state_write : Exception
  layer_error : Exception
  integrity_error : Exception
  other_error : String → Exception

pub record World : Type 0 where
  pub tables : Tables
  pub saved : Tables
  pub depth : ℕ
  pub next_id : ℕ
  pub ticks : ℕ

abbrev pub Exec : Type 0 → Type 0
Exec A = World → Result Exception A × World

module _ {A : Type 0} where
  abbrev pub pure : A → Exec A
  pure a w = (ok a, w)

  abbrev pub raise : Exception → Exec A
  raise e w = (raised e, w)

infixl 5 ◌>>=◌ ◌>>◌
abbrev pub ◌>>=◌ : {A B : Type 0} → Exec A → (A → Exec B) → Exec B
◌>>=◌ m f w = let (r, w') = m w in elim r [ ok a ↦ f a w' | raised e ↦ (raised e, w') ]

abbrev pub ◌>>◌ : {A B : Type 0} → Exec A → Exec B → Exec B
m >> k = m >>= λ _. k

abbrev pub Action : Type 0
Action = Exec (Unit {0})

abbrev pub read_tables : Exec Tables
read_tables w = (ok w.tables, w)

abbrev pub write_tables : (Tables → Tables) → Action
write_tables f w = (ok tt, record w { tables = f w.tables })

-- `ids.new_id`
abbrev pub new_id : Exec ℕ
new_id w = (ok w.next_id, record w { next_id = w.next_id + 1 })

-- `clock.now()`: the clock is a function of how often it was read.
abbrev pub now : (ℕ → ℕ) → Exec ℕ
now clock w = (ok (clock w.ticks), record w { ticks = w.ticks + 1 })

-- The `else` and `except` branches of `transaction`.
unfoldable pub leave : {A : Type 0} → Bool → Result Exception A × World → Result Exception A × World
leave outermost (ok a, w) = (ok a, record w { depth = w.depth - 1 })
leave outermost (raised e, w) =
    (raised e, record w { depth = w.depth - 1; tables = if outermost then w.saved else w.tables })

-- `with db.transaction()` around `m`: an error of the outermost block rolls back.
unfoldable pub transaction : {A : Type 0} → Exec A → Exec A
unfolding leave
transaction m w =
    let outermost = nat_beq w.depth 0 in
    leave outermost
      (m (record w { depth = w.depth + 1; saved = if outermost then w.tables else w.saved }))
