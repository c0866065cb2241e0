-- ===== src/Storage/Effects.antt =====
-- Calls that always return and leave one part of the tables as it was, with a rule for each way to
-- build a call.
use discord_personality_bot.Base.{
  ◌≡◌, refl, ◌∙◌, ap, Bool, Result, ok, raised, arith, ℕ, ◌+◌, nat_beq, if◌then◌else◌,
}
use discord_personality_bot.Storage.Tables.{Tables}
use discord_personality_bot.Storage.Database.{
  Exception, World, Exec, pure, ◌>>=◌, read_tables, write_tables, new_id, now, leave, transaction,
}

pub leave-ok :
    {A : Type 0} (outermost : Bool) (r : Result Exception A × World) (a : A)
    → r.0 ≡ ok a
    → ((leave outermost r).0 ≡ ok a) × ((leave outermost r).1.tables ≡ r.1.tables)
unfolding leave
leave-ok outermost (ok x, w) a e = (e, refl)
leave-ok outermost (raised x, w) a e = absurd (ground arith)

-- The world in which the body of a transaction begins.
abbrev pub entered : World → World
entered w = record w {
  depth = w.depth + 1;
  saved = if nat_beq w.depth 0 then w.tables else w.saved;
}

module _ {T : Type 0} (part : Tables → T) where
  -- From any world the call returns a value, and the part is what it was.
  pub record Performs {A : Type 0} (m : Exec A) : Type 0 where
    pub at : (w : World) → (x : A) × ((m w).0 ≡ ok x) × (part (m w).1.tables ≡ part w.tables)

  pub Performs-pure : {A : Type 0} (a : A) → Performs (pure a)
  Performs-pure a = record { at = λ w. (a, refl, refl) }

  pub Performs-new_id : Performs new_id
  Performs-new_id = record { at = λ w. (w.next_id, refl, refl) }

  pub Performs-now : (clock : ℕ → ℕ) → Performs (now clock)
  Performs-now clock = record { at = λ w. (clock w.ticks, refl, refl) }

  pub Performs-read : Performs read_tables
  Performs-read = record { at = λ w. (w.tables, refl, refl) }

  pub Performs-write :
      (g : Tables → Tables) → ((t : Tables) → part (g t) ≡ part t) → Performs (write_tables g)
  Performs-write g same = record { at = λ w. (tt, refl, same w.tables) }

  pub Performs-bind :
      {A B : Type 0} (m : Exec A) (f : A → Exec B)
      → Performs m
      → ((a : A) → Performs (f a))
      → Performs (m >>= f)
  Performs-bind m f pm pf = record {
    at = λ w.
        let (a, e, s) = pm.at w in
        let (b, e', s') = (pf a).at (m w).1 in (b, rw (e, ◌>>=◌) e', rw (e, ◌>>=◌) (s' ∙ s));
  }

  pub Performs-transaction : {A : Type 0} (m : Exec A) → Performs m → Performs (transaction m)
  unfolding transaction
  Performs-transaction m pm = record {
    at = λ w.
        let (x, e, s) = pm.at (entered w) in
        let l = leave-ok (nat_beq w.depth 0) (m (entered w)) x e in (x, l.0, ap part l.1 ∙ s);
  }

  -- Everything about the tables may change: the call returns.
  pub Performs-weaken :
      {A : Type 0} (m : Exec A) → Performs m → (w : World) → (x : A) × ((m w).0 ≡ ok x)
  Performs-weaken m pm w = let (x, e, s) = pm.at w in (x, e)
