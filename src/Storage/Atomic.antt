-- ===== src/Storage/Atomic.antt =====
-- Calls that keep the bookkeeping of an open transaction, with a rule for each way to build a call,
-- and the rollback of a transaction that raised.
use discord_personality_bot.Base.{
  ℕ, ◌-◌, ◌<◌, ◌≡◌, refl, ◌∙◌, ap, Bool, true, false, Result, ok, raised, arith, inl, inr, nat_beq,
  if◌then◌else◌, Result-cases,
}
use discord_personality_bot.Storage.Tables.{Tables}
use discord_personality_bot.Storage.Database.{
  Exception, World, Exec, pure, ◌>>=◌, write_tables, now, leave, transaction,
}
use discord_personality_bot.Storage.Effects.{entered}

-- Inside a transaction the call leaves the nesting depth and the saved tables as they were.
pub record IsBalanced {A : Type 0} (m : Exec A) : Type 0 where
  pub at : (w : World) → 0 < w.depth → ((m w).1.depth ≡ w.depth) × ((m w).1.saved ≡ w.saved)

pub IsBalanced-pure : {A : Type 0} (a : A) → IsBalanced (pure a)
IsBalanced-pure a = record { at = λ w h. (refl, refl) }

pub IsBalanced-now : (clock : ℕ → ℕ) → IsBalanced (now clock)
IsBalanced-now clock = record { at = λ w h. (refl, refl) }

pub IsBalanced-write : (g : Tables → Tables) → IsBalanced (write_tables g)
IsBalanced-write g = record { at = λ w h. (refl, refl) }

-- The rest of a block runs in the world that its first call left.
module _ {A B : Type 0} (m : Exec A) (f : A → Exec B) where
  pub IsBalanced-bind : IsBalanced m → ((a : A) → IsBalanced (f a)) → IsBalanced (m >>= f)
  IsBalanced-bind pm pf = record {
    at = λ w h.
        let first = pm.at w h in
        elim (Result-cases (m w).0) [
          | inl (a, e) ↦
              let rest = (pf a).at (m w).1 (rw first.0 h) in
              rw (e, ◌>>=◌) (rest.0 ∙ first.0, rest.1 ∙ first.1)
          | inr (x, e) ↦ rw (e, ◌>>=◌) first
        ];
  }

leave_fields :
    {A : Type 0} (outermost : Bool) (r : Result Exception A × World)
    → ((leave outermost r).1.depth ≡ r.1.depth - 1) × ((leave outermost r).1.saved ≡ r.1.saved)
unfolding leave
leave_fields outermost (ok a, w) = (refl, refl)
leave_fields outermost (raised e, w) = (refl, refl)

pub IsBalanced-transaction : {A : Type 0} (m : Exec A) → IsBalanced m → IsBalanced (transaction m)
unfolding transaction
IsBalanced-transaction m pm = record {
  at = λ w h.
      let inner : nat_beq w.depth 0 ≡ false = ground arith in
      let body = pm.at (entered w) (omega arith) in
      let out = leave_fields (nat_beq w.depth 0) (m (entered w)) in
      (
        omega (arith, out.0, body.0),
        out.1 ∙ body.1 ∙ ap (λ b. if b then w.tables else w.saved) inner,
      );
}

leave-raised :
    {A : Type 0} (outermost : Bool) (r : Result Exception A × World) (e : Exception)
    → outermost ≡ true
    → (leave outermost r).0 ≡ raised e
    → (leave outermost r).1.tables ≡ r.1.saved
unfolding leave
leave-raised true (ok a, w) e o h = absurd (ground arith)
leave-raised true (raised x, w) e o h = refl
leave-raised false r e o h = cc

-- An outermost transaction whose body raised leaves the tables as they were, and none is open.
pub transaction-rollback :
    {A : Type 0} (m : Exec A) (w : World) (e : Exception)
    → IsBalanced m
    → w.depth ≡ 0
    → (transaction m w).0 ≡ raised e
    → ((transaction m w).1.tables ≡ w.tables) × ((transaction m w).1.depth ≡ 0)
unfolding transaction
transaction-rollback m w e pm closed h =
    let outermost : nat_beq w.depth 0 ≡ true = ground arith in
    let body = pm.at (entered w) (omega arith) in
    let out = leave_fields (nat_beq w.depth 0) (m (entered w)) in
    let undone : (leave (nat_beq w.depth 0) (m (entered w))).1.tables ≡ (m (entered w)).1.saved =
      leave-raised (nat_beq w.depth 0) (m (entered w)) e outermost h in
    (
      undone ∙ body.1 ∙ ap (λ b. if b then w.tables else w.saved) outermost,
      omega (arith, out.0, body.0),
    )
