-- ===== src/Base/Sort.antt =====
-- Python's stable sort, as insertion sort by a Boolean order.
use mathlib.Core.Bool.{Bool, true, false}
use mathlib.Core.Logic.{◌≢◌, inl, inr}
use Prim.Native.Nat.{ℕ, suc, ◌+◌, ◌≤◌}
use native.Mathlib.Nat.{le_trans}
use mathlib.Core.Path.{◌≡◌, refl, sym}
use mathlib.Core.List.{List, [], ◌∷◌, map, Perm, Memᴰ}
use mathlib.Core.List.Perm
use native.Mathlib.Omega.{arith}
use discord_personality_bot.Base.Tests.{Bool-cases, if◌then◌else◌}
use discord_personality_bot.Base.Lists.{All, All-mono, length, sum_over, DistinctBy}

module _ {ℓ} {A : Type ℓ} (lt : A → A → Bool) where
  unfoldable pub insert_by : A → List A → List A
  insert_by x [] = x ∷ []
  insert_by x (y ∷ ys) = if lt y x then y ∷ insert_by x ys else x ∷ y ∷ ys

  unfoldable pub sort : List A → List A
  unfolding insert_by
  sort [] = []
  sort (x ∷ xs) = insert_by x (sort xs)

  pub insert_by-perm : (x : A) (ys : List A) → Perm (insert_by x ys) (x ∷ ys)
  unfolding insert_by
  insert_by-perm x [] = Perm.refl (x ∷ [])
  insert_by-perm x (y ∷ ys) = elim (Bool-cases (lt y x)) [
    | inl p ↦ rw p (Perm.trans (Perm.cons y (insert_by-perm x ys)) (Perm.swap x y ys))
    | inr q ↦ rw q (Perm.refl (x ∷ y ∷ ys))
  ]

  pub sort-perm : (xs : List A) → Perm (sort xs) xs
  unfolding sort
  sort-perm [] = Perm.refl []
  sort-perm (x ∷ xs) = Perm.trans (insert_by-perm x (sort xs)) (Perm.cons x (sort-perm xs))

module _ {ℓ} {A : Type ℓ} (lt : A → A → Bool) where
  insert_by-All {κ} :
      (P : A → Type κ) (x : A) (ys : List A) → P x → All P ys → All P (insert_by lt x ys)
  unfolding insert_by
  insert_by-All P x [] p h = (p, tt)
  insert_by-All P x (y ∷ ys) p h = elim (Bool-cases (lt y x)) [
    | inl e ↦ rw e (h.0, insert_by-All P x ys p h.1)
    | inr e ↦ rw e (p, h)
  ]

  pub sort-All {κ} : (P : A → Type κ) (xs : List A) → All P xs → All P (sort lt xs)
  unfolding sort
  sort-All P [] h = tt
  sort-All P (x ∷ xs) h = insert_by-All P x (sort lt xs) h.0 (sort-All P xs h.1)

  sum_over-insert_by :
      (f : A → ℕ) (x : A) (ys : List A) → sum_over f (insert_by lt x ys) ≡ f x + sum_over f ys
  unfolding insert_by
  sum_over-insert_by f x [] = refl
  sum_over-insert_by f x (y ∷ ys) = ground (arith, sum_over-insert_by f x ys)

  pub sum_over-sort : (f : A → ℕ) (xs : List A) → sum_over f (sort lt xs) ≡ sum_over f xs
  unfolding sort
  sum_over-sort f [] = refl
  sum_over-sort f (x ∷ xs) = omega (arith, sum_over-insert_by f x (sort lt xs), sum_over-sort f xs)

  insert_by-DistinctBy {κ} :
      {B : Type κ} (f : A → B) (x : A) (ys : List A)
      → All (λ y. f x ≢ f y) ys
      → DistinctBy f ys
      → DistinctBy f (insert_by lt x ys)
  unfolding insert_by
  insert_by-DistinctBy f x [] p h = (tt, tt)
  insert_by-DistinctBy f x (y ∷ ys) p h = elim (Bool-cases (lt y x)) [
    | inl e ↦ rw e (
      insert_by-All (λ z. f y ≢ f z) x ys (λ q. p.0 (sym q)) h.0,
      insert_by-DistinctBy f x ys p.1 h.1,
    )
    | inr e ↦ rw e (p, h)
  ]

  pub sort-DistinctBy {κ} :
      {B : Type κ} (f : A → B) (xs : List A) → DistinctBy f xs → DistinctBy f (sort lt xs)
  unfolding sort
  sort-DistinctBy f [] h = tt
  sort-DistinctBy f (x ∷ xs) h =
      insert_by-DistinctBy f x (sort lt xs) (sort-All (λ y. f x ≢ f y) xs h.0)
        (sort-DistinctBy f xs h.1)

-- Each member is followed by one whose number is no less, by any number that `lt` respects.
module _ {ℓ} {A : Type ℓ} where
  abbrev pub Rises : (A → ℕ) → List A → Type 0
  Rises f [] = Unit
  Rises f (x ∷ xs) = All (λ y. f x ≤ f y) xs × Rises f xs

module _ {ℓ} {A : Type ℓ} (lt : A → A → Bool) (f : A → ℕ) where
  insert_by-Rises :
      ((x y : A) → lt x y ≡ true → f x ≤ f y)
      → ((x y : A) → lt x y ≡ false → f y ≤ f x)
      → (x : A) (ys : List A) → Rises f ys
      → Rises f (insert_by lt x ys)
  unfolding insert_by
  insert_by-Rises up down x [] h = (tt, tt)
  insert_by-Rises up down x (y ∷ ys) h = elim (Bool-cases (lt y x)) [
    | inl e ↦
        rw e
          (insert_by-All lt (λ z. f y ≤ f z) x ys (up y x e) h.0, insert_by-Rises up down x ys h.1)
    | inr e ↦ rw e (
      (
        down y x e,
        All-mono (λ z. f y ≤ f z) (λ z. f x ≤ f z) ys (λ z p. le_trans (down y x e) p) h.0,
      ),
      h,
    )
  ]

  pub sort-Rises :
      ((x y : A) → lt x y ≡ true → f x ≤ f y)
      → ((x y : A) → lt x y ≡ false → f y ≤ f x)
      → (xs : List A) → Rises f (sort lt xs)
  unfolding sort
  sort-Rises up down [] = tt
  sort-Rises up down (x ∷ xs) = insert_by-Rises up down x (sort lt xs) (sort-Rises up down xs)

module _ {ℓ κ} {A : Type ℓ} {B : Type κ} (f : A → ℕ) (h : B → ℕ) (g : A → B) where
  All-le_map :
      (n m : ℕ) (xs : List A)
      → m ≡ n
      → All (λ x. h (g x) ≡ f x) xs
      → All (λ x. n ≤ f x) xs
      → All (λ y. m ≤ h y) (map g xs)
  All-le_map n m [] e s r = tt
  All-le_map n m (x ∷ xs) e s r = (rw (e, s.0) r.0, All-le_map n m xs e s.1 r.1)

  pub Rises-map : (xs : List A) → All (λ x. h (g x) ≡ f x) xs → Rises f xs → Rises h (map g xs)
  Rises-map [] s r = tt
  Rises-map (x ∷ xs) s r = (All-le_map (f x) (h (g x)) xs s.0 s.1 r.0, Rises-map xs s.1 r.1)

-- No member comes before one that stands ahead of it.
module _ {ℓ} {A : Type ℓ} (lt : A → A → Bool) where
  abbrev pub Ascends : List A → Type ℓ
  Ascends [] = Unit
  Ascends (x ∷ xs) = All (λ y. lt y x ≡ false) xs × Ascends xs

  module _ (asym : (x y : A) → lt x y ≡ true → lt y x ≡ false)
      (neg_trans : (x y z : A) → lt y x ≡ false → lt z y ≡ false → lt z x ≡ false) where
    insert_by-Ascends : (x : A) (ys : List A) → Ascends ys → Ascends (insert_by lt x ys)
    unfolding insert_by
    insert_by-Ascends x [] h = (tt, tt)
    insert_by-Ascends x (y ∷ ys) h = elim (Bool-cases (lt y x)) [
      | inl e ↦
          rw e (
            insert_by-All lt (λ z. lt z y ≡ false) x ys (asym y x e) h.0,
            insert_by-Ascends x ys h.1,
          )
      | inr e ↦ rw e (
        (
          e,
          All-mono (λ z. lt z y ≡ false) (λ z. lt z x ≡ false) ys (λ z p. neg_trans x y z e p) h.0,
        ),
        h,
      )
    ]

    pub sort-Ascends : (xs : List A) → Ascends (sort lt xs)
    unfolding sort
    sort-Ascends [] = tt
    sort-Ascends (x ∷ xs) = insert_by-Ascends x (sort lt xs) (sort-Ascends xs)

module _ {ℓ} {A : Type ℓ} (lt : A → A → Bool) where
  insert_by-Memᴰ : (a x : A) (ys : List A) → Memᴰ a (x ∷ ys) → Memᴰ a (insert_by lt x ys)
  unfolding insert_by
  insert_by-Memᴰ a x [] m = m
  insert_by-Memᴰ a x (y ∷ ys) (Memᴰ.head e) = elim (Bool-cases (lt y x)) [
    | inl p ↦ rw p (Memᴰ.tail (insert_by-Memᴰ a x ys (Memᴰ.head e)))
    | inr p ↦ rw p (Memᴰ.head e)
  ]
  insert_by-Memᴰ a x (y ∷ ys) (Memᴰ.tail (Memᴰ.head e)) = elim (Bool-cases (lt y x)) [
    | inl p ↦ rw p (Memᴰ.head e)
    | inr p ↦ rw p (Memᴰ.tail (Memᴰ.head e))
  ]
  insert_by-Memᴰ a x (y ∷ ys) (Memᴰ.tail (Memᴰ.tail m)) = elim (Bool-cases (lt y x)) [
    | inl p ↦ rw p (Memᴰ.tail (insert_by-Memᴰ a x ys (Memᴰ.tail m)))
    | inr p ↦ rw p (Memᴰ.tail (Memᴰ.tail m))
  ]

  pub sort-Memᴰ : (a : A) (xs : List A) → Memᴰ a xs → Memᴰ a (sort lt xs)
  unfolding sort
  sort-Memᴰ a [] m = m
  sort-Memᴰ a (x ∷ xs) (Memᴰ.head e) = insert_by-Memᴰ a x (sort lt xs) (Memᴰ.head e)
  sort-Memᴰ a (x ∷ xs) (Memᴰ.tail m) =
      insert_by-Memᴰ a x (sort lt xs) (Memᴰ.tail (sort-Memᴰ a xs m))

  length-insert_by : (x : A) (ys : List A) → length (insert_by lt x ys) ≡ suc (length ys)
  unfolding insert_by
  length-insert_by x [] = omega arith
  length-insert_by x (y ∷ ys) = ground (arith, length-insert_by x ys)

  pub length-sort : (xs : List A) → length (sort lt xs) ≡ length xs
  unfolding sort
  length-sort [] = refl
  length-sort (x ∷ xs) = omega (arith, length-insert_by x (sort lt xs), length-sort xs)
