-- ===== src/Base/Lists.antt =====
-- Lists measured by the native numbers, predicates on all members, and `dict.fromkeys`.
use Prim.Native.Nat.{ℕ, suc, ◌+◌}
use mathlib.Core.Path.{◌≡◌, refl, sym, subst}
use mathlib.Core.Logic.{◌≢◌, inl, inr}
use mathlib.Core.Bool.{Bool, true, false, ◌||◌}
use mathlib.Core.List.{List, [], ◌∷◌, ◌++◌, map, Memᴰ}
use native.Mathlib.Omega.{arith}
use discord_personality_bot.Base.Tests.{EqTest, ◌==◌, if◌then◌else◌, Bool-cases}

module _ {ℓ} {A : Type ℓ} where
  abbrev pub length : List A → ℕ
  length [] = 0
  length (x ∷ xs) = suc (length xs)

  pub length-append : (xs ys : List A) → length (xs ++ ys) ≡ length xs + length ys
  length-append [] ys = omega arith
  length-append (x ∷ xs) ys = omega (arith, length-append xs ys)

  -- Every member satisfies `P`.
  abbrev pub All {κ} : (A → Type κ) → List A → Type κ
  All P [] = Unit
  All P (x ∷ xs) = P x × All P xs

  pub All-append {κ} : (P : A → Type κ) (xs ys : List A) → All P xs → All P ys → All P (xs ++ ys)
  All-append P [] ys h k = k
  All-append P (x ∷ xs) ys h k = (h.0, All-append P xs ys h.1 k)

  pub All-mono {κ κ'} :
      (P : A → Type κ) (Q : A → Type κ') (xs : List A) → ((x : A) → P x → Q x) → All P xs → All Q xs
  All-mono P Q [] f h = tt
  All-mono P Q (x ∷ xs) f h = (f x h.0, All-mono P Q xs f h.1)

module _ {ℓ} {A : Type ℓ} ⦃e : EqTest A⦄ where
  unfoldable pub contains : A → List A → Bool
  contains a [] = false
  contains a (x ∷ xs) = a == x || contains a xs

  -- `dict.fromkeys`, and the members of a set: one copy of each value, in order of first sight.
  unfoldable pub fromkeys_from : List A → List A → List A
  unfolding contains
  fromkeys_from seen [] = []
  fromkeys_from seen (x ∷ xs) = elim (contains x seen) [
    | true ↦ fromkeys_from seen xs
    | false ↦ x ∷ fromkeys_from (x ∷ seen) xs
  ]

  unfoldable pub fromkeys : List A → List A
  unfolding fromkeys_from
  fromkeys = fromkeys_from []

module _ {ℓ} {A : Type ℓ} where
  pub All-mem {κ} : (P : A → Type κ) (a : A) (xs : List A) → All P xs → Memᴰ a xs → P a
  All-mem P a [] h m = elim m [ ]
  All-mem P a (x ∷ xs) h (Memᴰ.head e) = subst P (sym e) h.0
  All-mem P a (x ∷ xs) h (Memᴰ.tail m) = All-mem P a xs h.1 m

  pub members : (xs : List A) → All (λ x. Memᴰ x xs) xs
  members [] = tt
  members (x ∷ xs) = (
    Memᴰ.head refl,
    All-mono (λ y. Memᴰ y xs) (λ y. Memᴰ y (x ∷ xs)) xs (λ y m. Memᴰ.tail m) (members xs),
  )

  -- The sum of a number over the members.
  abbrev pub sum_over : (A → ℕ) → List A → ℕ
  sum_over f [] = 0
  sum_over f (x ∷ xs) = f x + sum_over f xs

module _ {ℓ κ} {A : Type ℓ} {B : Type κ} where
  -- No two members have the same image.
  abbrev pub DistinctBy : (A → B) → List A → Type (ℓ ⊔ κ)
  DistinctBy f [] = Unit
  DistinctBy f (x ∷ xs) = All (λ y. f x ≢ f y) xs × DistinctBy f xs

  pub All-map {μ} :
      (P : B → Type μ) (f : A → B) (xs : List A) → All (λ x. P (f x)) xs → All P (map f xs)
  All-map P f [] h = tt
  All-map P f (x ∷ xs) h = (h.0, All-map P f xs h.1)

  pub All-of_map {μ} :
      (P : B → Type μ) (f : A → B) (xs : List A) → All P (map f xs) → All (λ x. P (f x)) xs
  All-of_map P f [] h = tt
  All-of_map P f (x ∷ xs) h = (h.0, All-of_map P f xs h.1)

module _ {ℓ} {A : Type ℓ} where
  -- The members that pass a Boolean test.
  unfoldable pub keep : (A → Bool) → List A → List A
  keep test [] = []
  keep test (x ∷ xs) = let rest = keep test xs in if test x then x ∷ rest else rest

  pub keep-append :
      (test : A → Bool) (xs ys : List A) → keep test (xs ++ ys) ≡ keep test xs ++ keep test ys
  unfolding keep
  keep-append test [] ys = refl
  keep-append test (x ∷ xs) ys = ground (arith, keep-append test xs ys)

  pub keep-All : (test : A → Bool) (xs : List A) → All (λ x. test x ≡ true) (keep test xs)
  unfolding keep
  keep-All test [] = tt
  keep-All test (x ∷ xs) = elim (Bool-cases (test x)) [
    | inl p ↦ rw p (p, keep-All test xs)
    | inr q ↦ rw q (keep-All test xs)
  ]

module _ {ℓ} {A : Type ℓ} where
  pub All-keep {κ} :
      (P : A → Type κ) (test : A → Bool) (xs : List A) → All P xs → All P (keep test xs)
  unfolding keep
  All-keep P test [] h = tt
  All-keep P test (x ∷ xs) h = elim (Bool-cases (test x)) [
    | inl p ↦ rw p (h.0, All-keep P test xs h.1)
    | inr q ↦ rw q (All-keep P test xs h.1)
  ]

  pub All-both {κ μ} :
      (P : A → Type κ) (Q : A → Type μ) (xs : List A)
      → All P xs
      → All Q xs
      → All (λ x. P x × Q x) xs
  All-both P Q [] h k = tt
  All-both P Q (x ∷ xs) h k = ((h.0, k.0), All-both P Q xs h.1 k.1)

module _ {ℓ κ μ} {A : Type ℓ} {B : Type κ} {C : Type μ} where
  pub DistinctBy-map :
      (f : B → C) (g : A → B) (xs : List A) → DistinctBy (λ x. f (g x)) xs → DistinctBy f (map g xs)
  DistinctBy-map f g [] d = tt
  DistinctBy-map f g (x ∷ xs) d = (All-map (λ y. f (g x) ≢ f y) g xs d.0, DistinctBy-map f g xs d.1)

  pub DistinctBy-of_map :
      (f : B → C) (g : A → B) (xs : List A) → DistinctBy f (map g xs) → DistinctBy (λ x. f (g x)) xs
  DistinctBy-of_map f g [] d = tt
  DistinctBy-of_map f g (x ∷ xs) d =
      (All-of_map (λ y. f (g x) ≢ f y) g xs d.0, DistinctBy-of_map f g xs d.1)
