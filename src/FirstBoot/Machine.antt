-- ===== src/FirstBoot/Machine.antt =====
-- The state machine of the first boot as its documentation draws it, and what it is for a call to
-- keep to it: every write of a status goes along an arrow, where an epoch without a row is pending, and the run of an epoch that has one stays its run.
use discord_personality_bot.Base.{
  ◌∙◌, ℕ, ◌≡◌, ◌≢◌, ◌++◌, refl, ap, sym, arith, inl, inr, Bool, true, false, Bool-cases, Option,
  none, some, List, [], ◌∷◌, nat_beq, nat_beq_iff, Option-cases, number_test, Result, ok, raised,
  if◌then◌else◌,
}
use discord_personality_bot.Base.Dict.{Dict, lookup, insert, lookup-insert}
use discord_personality_bot.FirstBoot.Status.{
  Status, pending, ready, running, paused, blocked_retryable, blocked_fatal, auditing, complete,
}
use discord_personality_bot.FirstBoot.Store.{
  BootState, Move, Store, Exec, pure, ◌>>=◌, on_option, on_list, on_result, status_or, run_or,
  update, transition,
}

pub data Arrow : Status → Status → Type 0 where
  pending_running : Arrow pending running
  ready_running : Arrow ready running
  running_again : Arrow running running
  paused_running : Arrow paused running
  blocked_running : Arrow blocked_retryable running
  auditing_running : Arrow auditing running
  running_paused : Arrow running paused
  auditing_paused : Arrow auditing paused
  running_auditing : Arrow running auditing
  auditing_again : Arrow auditing auditing
  auditing_complete : Arrow auditing complete
  running_blocked : Arrow running blocked_retryable
  auditing_blocked : Arrow auditing blocked_retryable
  paused_blocked : Arrow paused blocked_retryable
  running_fatal : Arrow running blocked_fatal
  auditing_fatal : Arrow auditing blocked_fatal
  paused_fatal : Arrow paused blocked_fatal

-- The moves that begin at a status and end at one: those of the epoch follow each other, each along an
-- arrow.
pub data Trail (e : ℕ) (a : Status) : List Move → Status → Type 0 where
  here : Trail e a [] a
  further :
      {ms : List Move} {b c : Status} → Trail e a ms b → Arrow b c → Trail e a ((e, b, c) ∷ ms) c
  beside :
      {ms : List Move} {b c d : Status} {i : ℕ}
      → e ≢ i
      → Trail e a ms b
      → Trail e a ((i, c, d) ∷ ms) b

Trail-trans :
    {e : ℕ} {a b c : Status} {ms ns : List Move}
    → Trail e a ms b
    → Trail e b ns c
    → Trail e a (ns ++ ms) c
Trail-trans r here = r
Trail-trans r (further q m) = further (Trail-trans r q) m
Trail-trans r (beside n q) = beside n (Trail-trans r q)

append-after : (xs ys zs : List Move) → xs ++ (ys ++ zs) ≡ (xs ++ ys) ++ zs
append-after [] ys zs = refl
append-after (x ∷ xs) ys zs = ap (◌∷◌ x) (append-after xs ys zs)

-- An identifier that is there stays.
abbrev pub IsKept : Option ℕ → Option ℕ → Type 0
IsKept none o = Unit
IsKept (some r) o = o ≡ some r

IsKept-refl : (o : Option ℕ) → IsKept o o
IsKept-refl none = tt
IsKept-refl (some r) = refl

IsKept-trans : (o p q : Option ℕ) → IsKept o p → IsKept p q → IsKept o q
IsKept-trans none p q h k = tt
IsKept-trans (some r) none q h k = cc h
IsKept-trans (some r) (some t) q h k = k ∙ h

abbrev pub status_at : ℕ → Store → Status
status_at e s = status_or (lookup e s.states)

abbrev pub run_at : ℕ → Store → Option ℕ
run_at e s = run_or (lookup e s.states)

-- From one store to another, every epoch keeps to the machine: the moves that were added lead from the
-- one status to the other.
pub record IsLegal (s s' : Store) : Type 0 where
  pub added : List Move
  pub moves : s'.moves ≡ added ++ s.moves
  pub trail : (e : ℕ) → Trail e (status_at e s) added (status_at e s')
  pub run : (e : ℕ) → IsKept (run_at e s) (run_at e s')

pub IsLegal-same : (s t : Store) → t.states ≡ s.states → t.moves ≡ s.moves → IsLegal s t
IsLegal-same s t h k = record {
  added = [];
  moves = k;
  trail = λ e. rw h here;
  run = λ e. rw h (IsKept-refl (run_at e s));
}

pub IsLegal-refl : (s : Store) → IsLegal s s
IsLegal-refl s = IsLegal-same s s refl refl

pub IsLegal-trans : (s t u : Store) → IsLegal s t → IsLegal t u → IsLegal s u
IsLegal-trans s t u h k = record {
  added = k.added ++ h.added;
  moves =
      k.moves
      ∙ ap (λ (ms : List Move). k.added ++ ms) h.moves
      ∙ append-after k.added h.added s.moves;
  trail = λ e. Trail-trans (h.trail e) (k.trail e);
  run = λ e. IsKept-trans (run_at e s) (run_at e t) (run_at e u) (h.run e) (k.run e);
}

-- A row is replaced by one of the same status, or by one to whose status a move leads.
pub IsLegal-insert :
    (s : Store) (e : ℕ) (row : BootState) (added : List Move)
    → Trail e (status_at e s) added row.status
    → ((i : ℕ) → i ≢ e → Trail i (status_at i s) added (status_at i s))
    → IsKept (run_at e s) row.genesis_run_id
    → IsLegal s (record s { states = insert e row s.states; moves = added ++ s.moves })
IsLegal-insert s e row added r others k = record {
  added = added;
  moves = refl;
  trail = λ i. elim (Bool-cases (nat_beq e i)) [
    | inl p ↦ rw (lookup-insert e i row s.states, p, ← (nat_beq_iff e i).0 p) r
    | inr p ↦
        rw (lookup-insert e i row s.states, p)
          (others i λ q. absurd (ground (arith, (nat_beq_iff e i).1 (sym q), p)))
  ];
  run = λ i. elim (Bool-cases (nat_beq e i)) [
    | inl p ↦ rw (lookup-insert e i row s.states, p, ← (nat_beq_iff e i).0 p) k
    | inr p ↦ rw (lookup-insert e i row s.states, p) (IsKept-refl (run_at i s))
  ];
}

-- Every step of the call keeps to the machine.
pub record Keeps {A : Type 0} (m : Exec A) : Type 0 where
  pub at : (s : Store) → IsLegal s (m s).1

module _ {A : Type 0} where
  pub Keeps-pure : (a : A) → Keeps (pure a)
  unfolding pure
  Keeps-pure a = record { at = λ s. IsLegal-refl s }

  pub Keeps-if : (b : Bool) (m n : Exec A) → Keeps m → Keeps n → Keeps (if b then m else n)
  Keeps-if true m n km kn = km
  Keeps-if false m n km kn = kn

module _ {A B : Type 0} where
  pub Keeps-bind :
      (m : Exec A) (f : A → Exec B) → Keeps m → ((a : A) → Keeps (f a)) → Keeps (m >>= f)
  unfolding ◌>>=◌
  Keeps-bind m f km kf = record {
    at = λ s. IsLegal-trans s (m s).1 (f (m s).0 (m s).1).1 (km.at s) ((kf (m s).0).at (m s).1);
  }

module _ {A B : Type 0} where
  pub Keeps-option :
      (o : Option A) (m : Exec B) (f : A → Exec B)
      → Keeps m
      → ((a : A) → Keeps (f a))
      → Keeps (on_option o m f)
  unfolding on_option
  Keeps-option none m f km kf = km
  Keeps-option (some a) m f km kf = kf a

  pub Keeps-list :
      (xs : List A) (m : Exec B) (f : A → Exec B)
      → Keeps m
      → ((x : A) → Keeps (f x))
      → Keeps (on_list xs m f)
  unfolding on_list
  Keeps-list [] m f km kf = km
  Keeps-list (x ∷ xs) m f km kf = kf x

module _ {E A B : Type 0} where
  pub Keeps-result :
      (r : Result E A) (m : E → Exec B) (f : A → Exec B)
      → ((e : E) → Keeps (m e))
      → ((a : A) → Keeps (f a))
      → Keeps (on_result r m f)
  unfolding on_result
  Keeps-result (ok a) m f km kf = kf a
  Keeps-result (raised e) m f km kf = km e

pub update-Keeps :
    (e : ℕ) (f : BootState → BootState)
    → ((row : BootState) → (f row).status ≡ row.status)
    → ((row : BootState) → (f row).genesis_run_id ≡ row.genesis_run_id)
    → Keeps (update e f)
unfolding update
update-Keeps e f hs hr = record {
  at = λ s. elim (Option-cases (lookup e s.states)) [
    | inl p ↦ rw (p, update) (IsLegal-refl s)
    | inr (row, p) ↦
        rw (p, update)
          (IsLegal-insert s e (f row) [] (rw (p, hs row) here) (λ i other. here)
            (rw (p, hr row) (IsKept-refl row.genesis_run_id)))
  ];
}

pub transition-Keeps :
    (e : ℕ) (expected : Status → Bool) (to : Status) (f : BootState → BootState)
    → ((a : Status) → expected a ≡ true → Arrow a to)
    → ((row : BootState) → (f row).status ≡ row.status)
    → ((row : BootState) → (f row).genesis_run_id ≡ row.genesis_run_id)
    → Keeps (transition e expected to f)
unfolding transition
transition-Keeps e expected to f step hs hr = record {
  at = λ s. elim (Option-cases (lookup e s.states)) [
    | inl p ↦ rw (p, transition) (IsLegal-refl s)
    | inr (row, p) ↦ elim (Bool-cases (expected row.status)) [
      | inl q ↦
          rw (p, transition, q)
            (IsLegal-insert s e (f (record row { status = to })) ((e, row.status, to) ∷ [])
              (rw (p, hs (record row { status = to })) (further here (step row.status q)))
              (λ i other. beside other here)
              (rw (p, hr (record row { status = to })) (IsKept-refl row.genesis_run_id)))
      | inr q ↦ rw (p, transition, q) (IsLegal-refl s)
    ]
  ];
}

-- The call leaves the table alone.
pub record IsQuiet {A : Type 0} (m : Exec A) : Type 0 where
  pub states : (s : Store) → (m s).1.states ≡ s.states
  pub moves : (s : Store) → (m s).1.moves ≡ s.moves

-- The call keeps to the machine from a table of which `P` holds.
pub record KeepsFrom {A : Type 0} (P : Dict ℕ BootState → Type 0) (m : Exec A) : Type 0 where
  pub at : (s : Store) → P s.states → IsLegal s (m s).1

module _ {A : Type 0} {P : Dict ℕ BootState → Type 0} where
  pub KeepsFrom-Keeps : (m : Exec A) → Keeps m → KeepsFrom P m
  KeepsFrom-Keeps m k = record { at = λ s h. k.at s }

  pub KeepsFrom-if :
      (b : Bool) (m n : Exec A) → KeepsFrom P m → KeepsFrom P n → KeepsFrom P (if b then m else n)
  KeepsFrom-if true m n km kn = km
  KeepsFrom-if false m n km kn = kn

module _ {A B : Type 0} {P : Dict ℕ BootState → Type 0} where
  pub KeepsFrom-quiet :
      (m : Exec A) (f : A → Exec B)
      → IsQuiet m
      → ((a : A) → KeepsFrom P (f a))
      → KeepsFrom P (m >>= f)
  unfolding ◌>>=◌
  KeepsFrom-quiet m f same kf = record {
    at = λ s h.
        IsLegal-trans s (m s).1 (f (m s).0 (m s).1).1
          (IsLegal-same s (m s).1 (same.states s) (same.moves s))
          ((kf (m s).0).at (m s).1 (rw (same.states s) h));
  }

  pub KeepsFrom-then :
      (m : Exec A) (f : A → Exec B)
      → KeepsFrom P m
      → ((a : A) → Keeps (f a))
      → KeepsFrom P (m >>= f)
  unfolding ◌>>=◌
  KeepsFrom-then m f km kf = record {
    at = λ s h. IsLegal-trans s (m s).1 (f (m s).0 (m s).1).1 (km.at s h) ((kf (m s).0).at (m s).1);
  }
