-- ===== src/Ids/Encoding.antt =====
-- The order of encoded numbers.
use Prim.Native.Nat.{◌/◌, ◌%◌}
use discord_personality_bot.Base.{
  ℕ, zero, suc, ◌*◌, ◌<◌, ◌≡◌, refl, inl, inr, arith, Bool, true, false, Bool-cases, List, [], ◌∷◌,
  ◌++◌, ltb, nat_beq, if◌then◌else◌,
}
use discord_personality_bot.Base.Lists.{length, length-append}
use discord_personality_bot.Text.{codes_lt}
use discord_personality_bot.Ids.{crockford, nth, low_first, reversed, encode}

pub codes_lt-append :
    (xs ys us vs : List ℕ)
    → length xs ≡ length ys
    → codes_lt xs ys ≡ true
    → codes_lt (xs ++ us) (ys ++ vs) ≡ true
unfolding codes_lt
codes_lt-append [] [] us vs l h = absurd (cc h)
codes_lt-append [] (y ∷ ys) us vs l h = absurd (omega (arith, l))
codes_lt-append (x ∷ xs) [] us vs l h = absurd (omega (arith, l))
codes_lt-append (x ∷ xs) (y ∷ ys) us vs l h = elim (Bool-cases (nat_beq x y)) [
  | inl e ↦ rw e (codes_lt-append xs ys us vs (omega (arith, l)) (rw e at h))
  | inr e ↦ rw e (rw e at h)
]

pub codes_lt-prefix : (xs us vs : List ℕ) → codes_lt (xs ++ us) (xs ++ vs) ≡ codes_lt us vs
unfolding codes_lt
codes_lt-prefix [] us vs = refl
codes_lt-prefix (x ∷ xs) us vs = ground (arith, codes_lt-prefix xs us vs)

codes_lt_one : (c d : ℕ) → c < d → codes_lt (c ∷ []) (d ∷ []) ≡ true
unfolding codes_lt
codes_lt_one c d h = ground arith

length-reversed :
    (xs ys : List ℕ) → length xs ≡ length ys → length (reversed xs) ≡ length (reversed ys)
unfolding reversed
length-reversed [] [] h = refl
length-reversed [] (y ∷ ys) h = absurd (omega (arith, h))
length-reversed (x ∷ xs) [] h = absurd (omega (arith, h))
length-reversed (x ∷ xs) (y ∷ ys) h = omega (
  arith,
  length-append (reversed xs) (x ∷ []),
  length-append (reversed ys) (y ∷ []),
  length-reversed xs ys (omega (arith, h)),
)

length-low_first : (n v : ℕ) → length (low_first n v) ≡ n
unfolding low_first
length-low_first zero v = refl
length-low_first (suc n) v = omega (arith, length-low_first n (v / 32))

-- The letters of the alphabet come in the order of their codes.
is_climbing : List ℕ → Bool
is_climbing [] = true
is_climbing (c ∷ []) = true
is_climbing (c ∷ d ∷ cs) = if ltb c d then is_climbing (d ∷ cs) else false

nth-above :
    (c : ℕ) (cs : List ℕ) (j : ℕ) → is_climbing (c ∷ cs) ≡ true → j < length cs → c < nth j cs
unfolding is_climbing nth
nth-above c [] j h b = absurd (omega (arith, b))
nth-above c (d ∷ cs) zero h b = ground (arith, h)
nth-above c (d ∷ cs) (suc j) h b = elim (Bool-cases (ltb c d)) [
  | inl e ↦
      let up : c < d = ground (arith, e) in
      omega (arith, nth-above d cs j (rw e at h) (omega (arith, b)), up)
  | inr e ↦ absurd (cc (rw e at h))
]

nth_climbs :
    (cs : List ℕ) (i j : ℕ) → is_climbing cs ≡ true → i < j → j < length cs → nth i cs < nth j cs
unfolding is_climbing nth
nth_climbs [] i j h l b = absurd (omega (arith, b))
nth_climbs (c ∷ cs) zero zero h l b = absurd (omega (arith, l))
nth_climbs (c ∷ cs) zero (suc j) h l b = nth-above c cs j h (omega (arith, b))
nth_climbs (c ∷ cs) (suc i) zero h l b = absurd (omega (arith, l))
nth_climbs (c ∷ []) (suc i) (suc j) h l b = absurd (omega (arith, b))
nth_climbs (c ∷ d ∷ cs) (suc i) (suc j) h l b = elim (Bool-cases (ltb c d)) [
  | inl e ↦ nth_climbs (d ∷ cs) i j (rw e at h) (omega (arith, l)) (omega (arith, b))
  | inr e ↦ absurd (cc (rw e at h))
]

crockford_climbs : is_climbing crockford ≡ true
unfolding is_climbing
crockford_climbs = refl

letters : (i j : ℕ) → i < j → j < 32 → nth i crockford < nth j crockford
letters i j l b = nth_climbs crockford i j crockford_climbs l b

-- How many numbers a text of this length can encode.
abbrev pub power_of_32 : ℕ → ℕ
power_of_32 zero = 1
power_of_32 (suc n) = 32 * power_of_32 n

-- Texts of one length are in the order of the numbers that they encode, if these fit.
pub encode_lt : (n v w : ℕ) → v < w → w < power_of_32 n → codes_lt (encode v n) (encode w n) ≡ true
unfolding encode low_first reversed codes_lt
encode_lt zero v w l b = absurd (omega (arith, l, b))
encode_lt (suc n) v w l b = elim (Bool-cases (ltb (v / 32) (w / 32))) [
  | inl e ↦
      codes_lt-append _ _ _ _
        (length-reversed (low_first n (v / 32)) (low_first n (w / 32))
          (omega (arith, length-low_first n (v / 32), length-low_first n (w / 32))))
        (encode_lt n (v / 32) (w / 32) (ground (arith, e)) (omega (arith, b)))
  | inr e ↦
      let same : v / 32 ≡ w / 32 = ground (arith, l, e) in
      let last : nth (v % 32) crockford < nth (w % 32) crockford =
        letters (v % 32) (w % 32) (omega (arith, l, same)) (omega arith) in
      let step : codes_lt (nth (v % 32) crockford ∷ []) (nth (w % 32) crockford ∷ []) ≡ true =
        codes_lt_one (nth (v % 32) crockford) (nth (w % 32) crockford) last in
      rw same (rw (codes_lt-prefix (reversed (low_first n (w / 32)))) step)
]

pub length-encode : (n v w : ℕ) → length (encode v n) ≡ length (encode w n)
unfolding encode
length-encode n v w =
    length-reversed (low_first n v) (low_first n w)
      (omega (arith, length-low_first n v, length-low_first n w))
