-- ===== src/Reliability/Resources/Slots.antt =====
-- How many slots are taken.
use discord_personality_bot.Base.{
  ℕ, ◌+◌, ◌≤◌, ◌≡◌, refl, inl, inr, ◌⊎◌, arith, Bool, Bool-cases, none, some, List, [], ◌∷◌, ltb,
  String,
}
use discord_personality_bot.Base.Lists.{keep}
use discord_personality_bot.Base.Sort.{sort}
use discord_personality_bot.Reliability.Resources.{
  Work, Waiter, goes_before, Manager, count_admission, admit, enqueue, acquire, resume, drop,
  cancel, cancel_each, grant_from, admit_next, release, user_input_arrived, resume_background,
  should_yield, checkpoint, fresh, Op, acquiring, resuming, dropping, cancelling, releasing,
  user_input, resuming_background, checking, apply, apply_all,
}

-- With `n` slots, no more work runs than there are slots, and none waits while a slot is free.
pub record IsTight (n : ℕ) (m : Manager) : Type 0 where
  pub slots : m.capacity ≡ n
  pub bounded : m.in_flight ≤ n
  pub full : (m.waiting ≡ []) ⊎ (m.in_flight ≡ n)

-- Either nothing is granted and nobody is left, or one is granted.
grant_from-cases :
    (vs : List Waiter) → (grant_from vs ≡ (none, [])) ⊎ ((w : Work) × ((grant_from vs).0 ≡ some w))
unfolding grant_from
grant_from-cases [] = inl refl
grant_from-cases (v ∷ vs) = elim (Bool-cases v.cancelled) [
  | inl e ↦ rw e (grant_from-cases vs)
  | inr e ↦ rw e (inr (v.work, refl))
]

grant_from-nobody : (ws : List Waiter) → ws ≡ [] → (grant_from (sort goes_before ws)).1 ≡ []
unfolding grant_from sort
grant_from-nobody ws e = rw e refl

-- A slot that is free goes to a waiter, if there is one.
admit_next-IsTight :
    (n : ℕ) (m : Manager)
    → m.capacity ≡ n
    → m.in_flight ≤ n
    → (m.waiting ≡ []) ⊎ (n ≤ m.in_flight + 1)
    → IsTight n (admit_next m).1
unfolding admit_next
admit_next-IsTight n m c b h = elim (Bool-cases (ltb m.in_flight m.capacity)) [
  | inr taken ↦ rw taken (record { slots = c; bounded = b; full = inr (ground arith) })
  | inl free ↦ elim (grant_from-cases (sort goes_before m.waiting)) [
    | inl e ↦ rw free (rw e (record { slots = c; bounded = omega arith; full = inl refl }))
    | inr (w, e) ↦ rw free (
        rw e (record {
          slots = c;
          bounded = ground arith;
          full = elim h [
            | inl nobody ↦ inl (grant_from-nobody m.waiting nobody)
            | inr last ↦ inr (ground arith)
          ];
        }))
  ]
]

keep-none : (test : Waiter → Bool) (ws : List Waiter) → ws ≡ [] → keep test ws ≡ []
unfolding keep
keep-none test ws e = rw e refl

cancel_each-none : (w : Work) (ws : List Waiter) → ws ≡ [] → cancel_each w ws ≡ []
unfolding cancel_each
cancel_each-none w ws e = rw e refl

acquire-IsTight :
    (n : ℕ) (priority name : String) (m : Manager)
    → IsTight n m
    → IsTight n (acquire priority name m).2
unfolding acquire admit enqueue count_admission
acquire-IsTight n priority name m t = elim (Bool-cases (ltb m.in_flight m.capacity)) [
  | inr taken ↦ rw taken (record {
    slots = t.slots;
    bounded = t.bounded;
    full = inr (ground (arith, t.slots, t.bounded));
  })
  | inl free ↦
      let nobody : m.waiting ≡ [] = elim t.full [
        | inl e ↦ e
        | inr full ↦ absurd (ground (arith, t.slots))
      ] in
      rw (free, nobody)
        (record { slots = t.slots; bounded = ground (arith, t.slots); full = inl refl })
]

apply-IsTight : (n : ℕ) (o : Op) (m : Manager) → IsTight n m → IsTight n (apply o m)
unfolding apply resume count_admission drop cancel release user_input_arrived resume_background
    checkpoint
apply-IsTight n (acquiring priority name) m t = acquire-IsTight n priority name m t
apply-IsTight n (resuming priority) m t = record {
  slots = t.slots;
  bounded = t.bounded;
  full = t.full;
}
apply-IsTight n (dropping w) m t = record {
  slots = t.slots;
  bounded = t.bounded;
  full = elim t.full [ inl e ↦ inl (keep-none _ m.waiting e) | inr e ↦ inr e ];
}
apply-IsTight n (cancelling w) m t = record {
  slots = t.slots;
  bounded = t.bounded;
  full = elim t.full [ inl e ↦ inl (cancel_each-none w m.waiting e) | inr e ↦ inr e ];
}
apply-IsTight n (releasing w) m t =
    admit_next-IsTight n _ t.slots (omega (arith, t.bounded))
      (elim t.full [ inl e ↦ inl e | inr e ↦ inr (omega (arith, e)) ])
apply-IsTight n user_input m t = record { slots = t.slots; bounded = t.bounded; full = t.full }
apply-IsTight n resuming_background m t = record {
  slots = t.slots;
  bounded = t.bounded;
  full = t.full;
}
apply-IsTight n (checking priority) m t = elim (Bool-cases (should_yield priority m)) [
  | inl e ↦ rw (e, apply) (record { slots = t.slots; bounded = t.bounded; full = t.full })
  | inr e ↦ rw (e, apply) t
]

apply_all-IsTight : (n : ℕ) (os : List Op) (m : Manager) → IsTight n m → IsTight n (apply_all os m)
unfolding apply_all
apply_all-IsTight n [] m t = t
apply_all-IsTight n (o ∷ os) m t = apply_all-IsTight n os (apply o m) (apply-IsTight n o m t)

-- Whatever calls the tasks make, in whatever order, a manager with n slots never has more than n
-- works in flight, and has a waiter only while all its slots are taken.
pub slots-IsTight : (n : ℕ) (os : List Op) → IsTight n (apply_all os (fresh n))
unfolding fresh
slots-IsTight n os =
    apply_all-IsTight n os (fresh n)
      (record { slots = refl; bounded = omega arith; full = inl refl })
