-- ===== src/FirstBoot/Ensuring.antt =====
-- Rules for calls after which something holds if they end well, and for calls that leave the jobs and
-- the life day alone.
use discord_personality_bot.Base.{
  ◌∙◌, ℕ, ◌≡◌, refl, inl, inr, arith, String, Bool, true, false, not, Option-cases, List, [], ◌∷◌,
  number_test, Result, ok, raised, if◌then◌else◌,
}
use discord_personality_bot.Base.Dict.{lookup}
use discord_personality_bot.FirstBoot.Status.{Status, BlockKind}
use discord_personality_bot.FirstBoot.Store.{
  BootState, Lifecycle, Store, Exec, pure, ◌>>=◌, on_option, on_list, on_result, now, transition,
  finish_run, emit, update, current, lease_is_live,
}
use discord_personality_bot.FirstBoot.Orchestrator.{
  Environment, Outcome, is_nil, status, block, conclude,
}

-- If the call ends well, then `Q` holds of the store after it.
pub record Ensures (Q : Store → Type 0) (m : Exec Outcome) : Type 0 where
  pub at : (s : Store) → (m s).0.ok ≡ true → Q (m s).1

module _ {A : Type 0} {Q : Store → Type 0} where
  -- The rest may use where its argument comes from.
  pub Ensures-bind :
      (m : Exec A) (f : A → Exec Outcome)
      → ((s : Store) → Ensures Q (f (m s).0))
      → Ensures Q (m >>= f)
  unfolding ◌>>=◌
  Ensures-bind m f h = record { at = λ s k. (h s).at (m s).1 k }

  pub Ensures-list :
      (xs : List A) (m : Exec Outcome) (f : A → Exec Outcome)
      → (xs ≡ [] → Ensures Q m)
      → ((x : A) → Ensures Q (f x))
      → Ensures Q (on_list xs m f)
  unfolding on_list
  Ensures-list [] m f h k = h refl
  Ensures-list (x ∷ xs) m f h k = k x

module _ {Q : Store → Type 0} where
  pub Ensures-result :
      {E A : Type 0} (r : Result E A) (m : E → Exec Outcome) (f : A → Exec Outcome)
      → ((e : E) → Ensures Q (m e))
      → ((a : A) → r ≡ ok a → Ensures Q (f a))
      → Ensures Q (on_result r m f)
  unfolding on_result
  Ensures-result (ok a) m f h k = k a refl
  Ensures-result (raised e) m f h k = h e

  pub Ensures-if :
      (b : Bool) (m n : Exec Outcome)
      → Ensures Q m
      → (b ≡ false → Ensures Q n)
      → Ensures Q (if b then m else n)
  Ensures-if true m n h k = h
  Ensures-if false m n h k = k refl

  pub block-Ensures :
      (env : Environment) (e r : ℕ) (kind : BlockKind) (reason : String)
      → Ensures Q (block env e r kind reason)
  unfolding block ◌>>=◌
  block-Ensures env e r kind reason = record { at = λ s h. absurd (ground (arith, h)) }

pub nil_of {ℓ} : {A : Type ℓ} (xs : List A) → not (is_nil xs) ≡ false → xs ≡ []
nil_of [] h = refl
nil_of (x ∷ xs) h = cc h

pub Ensures-mono :
    {Q R : Store → Type 0} (m : Exec Outcome)
    → Ensures Q m
    → ((t : Store) → Q t → R t)
    → Ensures R m
Ensures-mono m k f = record { at = λ s h. f (m s).1 (k.at s h) }

-- The call leaves the jobs and the life day alone.
pub record IsApart {A : Type 0} (m : Exec A) : Type 0 where
  pub jobs : (s : Store) → (m s).1.jobs ≡ s.jobs
  pub life_day : (s : Store) → (m s).1.life_day ≡ s.life_day

pub IsApart-bind :
    {A B : Type 0} (m : Exec A) (f : A → Exec B)
    → IsApart m
    → ((a : A) → IsApart (f a))
    → IsApart (m >>= f)
unfolding ◌>>=◌
IsApart-bind m f h k = record {
  jobs = λ s. (k (m s).0).jobs (m s).1 ∙ h.jobs s;
  life_day = λ s. (k (m s).0).life_day (m s).1 ∙ h.life_day s;
}

pub now-IsApart : (clock : ℕ → ℕ) → IsApart (now clock)
unfolding now
now-IsApart clock = record { jobs = λ s. refl; life_day = λ s. refl }

pub update-IsApart : (e : ℕ) (f : BootState → BootState) → IsApart (update e f)
unfolding update
update-IsApart e f = record {
  jobs = λ s. elim (Option-cases (lookup e s.states)) [
    | inl p ↦ rw (p, update) refl
    | inr (row, p) ↦ rw (p, update) refl
  ];
  life_day = λ s. elim (Option-cases (lookup e s.states)) [
    | inl p ↦ rw (p, update) refl
    | inr (row, p) ↦ rw (p, update) refl
  ];
}

pub transition-IsApart :
    (e : ℕ) (expected : Status → Bool) (to : Status) (f : BootState → BootState)
    → IsApart (transition e expected to f)
unfolding transition
transition-IsApart e expected to f = record {
  jobs = λ s. ground arith;
  life_day = λ s. ground arith;
}

pub status-IsApart : (clock : ℕ → ℕ) → IsApart (status clock)
unfolding status ◌>>=◌ on_option pure now current lease_is_live
status-IsApart clock = record { jobs = λ s. ground arith; life_day = λ s. ground arith }

pub pure-IsApart : {A : Type 0} (a : A) → IsApart (pure a)
unfolding pure
pure-IsApart a = record { jobs = λ s. refl; life_day = λ s. refl }

pub finish_run-IsApart : (r t : ℕ) → IsApart (finish_run r t)
unfolding finish_run
finish_run-IsApart r t = record { jobs = λ s. refl; life_day = λ s. refl }

pub emit-IsApart : (x : Lifecycle) → IsApart (emit x)
unfolding emit
emit-IsApart x = record { jobs = λ s. refl; life_day = λ s. refl }

pub if-IsApart :
    {A : Type 0} (b : Bool) (m n : Exec A) → IsApart m → IsApart n → IsApart (if b then m else n)
if-IsApart true m n h k = h
if-IsApart false m n h k = k

pub ruleset apart_rules = (
  IsApart-bind, now-IsApart, update-IsApart, transition-IsApart, pure-IsApart, finish_run-IsApart,
  emit-IsApart, status-IsApart, if-IsApart,
)

pub conclude-IsApart :
    (env : Environment) (e r : ℕ) (moved : Bool) → IsApart (conclude env e r moved)
unfolding conclude
conclude-IsApart env e r moved = search (apart_rules) depth 12
