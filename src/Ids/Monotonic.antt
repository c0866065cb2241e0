-- ===== src/Ids/Monotonic.antt =====
-- Identifiers ascend, whatever the clock does.
use discord_personality_bot.Base.{
  ℕ, ◌+◌, ◌^◌, ◌≤◌, ◌<◌, ◌≡◌, refl, inl, inr, ◌⊎◌, arith, true, Bool-cases, List, [], ◌∷◌, ltb,
  nat_beq,
}
use discord_personality_bot.Base.Lists.{All}
use discord_personality_bot.Text.{codes_lt}
use discord_personality_bot.Ids.{encode, Generator, same_moment, advance, text_of, ulid, ulids}
use discord_personality_bot.Ids.Encoding.{
  power_of_32, encode_lt, codes_lt-append, codes_lt-prefix, length-encode,
}

-- The variables after a call are later than before: a later millisecond, or the same with more
-- entropy.
IsLater : Generator → Generator → Type 0
IsLater g h =
    (g.last_ms < h.last_ms) ⊎ ((g.last_ms ≡ h.last_ms) × (g.last_entropy < h.last_entropy))

-- What the variables may hold.
abbrev pub IsSeeded : Generator → Type 0
IsSeeded g = g.last_entropy < 2 ^ 80

same_moment-IsLater :
    (timestamp drawn : ℕ) (g : Generator)
    → g.last_ms ≡ timestamp
    → drawn < 2 ^ 80
    → IsLater g (same_moment timestamp drawn g) × IsSeeded (same_moment timestamp drawn g)
unfolding IsLater same_moment
same_moment-IsLater timestamp drawn g h d = elim (Bool-cases (ltb (g.last_entropy + 1) (2 ^ 80))) [
  | inl e ↦ rw e (inr (h, omega arith), ground (arith, e))
  | inr e ↦ rw e (inl (omega (arith, h)), d)
]

advance-IsLater :
    (now_ms drawn : ℕ) (g : Generator)
    → drawn < 2 ^ 80
    → IsLater g (advance now_ms drawn g) × IsSeeded (advance now_ms drawn g)
unfolding advance
advance-IsLater now_ms drawn g d = elim (Bool-cases (ltb now_ms g.last_ms)) [
  | inl back ↦
      let here : nat_beq g.last_ms g.last_ms ≡ true = ground arith in
      rw back (rw here (same_moment-IsLater g.last_ms drawn g refl d))
  | inr e ↦ elim (Bool-cases (nat_beq now_ms g.last_ms)) [
    | inl here ↦ rw e (rw here (same_moment-IsLater now_ms drawn g (ground (arith, here)) d))
    | inr on ↦ rw e (rw on (unfold IsLater in inl (ground (arith, e, on)), d))
  ]
]

IsLater-trans : (f g h : Generator) → IsLater f g → IsLater g h → IsLater f h
unfolding IsLater
IsLater-trans f g h p q = ground (arith, p, q)

text_of-IsLater :
    (g h : Generator)
    → IsLater g h
    → h.last_ms < power_of_32 10
    → h.last_entropy < power_of_32 16
    → codes_lt (text_of g) (text_of h) ≡ true
unfolding IsLater text_of
text_of-IsLater g h (inl ms) b c =
    codes_lt-append (encode g.last_ms 10) (encode h.last_ms 10) _ _
      (length-encode 10 g.last_ms h.last_ms) (encode_lt 10 g.last_ms h.last_ms ms b)
text_of-IsLater g h (inr (same, more)) b c =
    rw same (
      rw (codes_lt-prefix (encode h.last_ms 10))
        (encode_lt 16 g.last_entropy h.last_entropy more c))

ulids-ms :
    (calls : List (ℕ × ℕ)) (g : Generator)
    → All (λ c. c.1 < 2 ^ 80) calls
    → g.last_ms ≤ (ulids calls g).1.last_ms
unfolding ulids ulid IsLater
ulids-ms [] g h = omega arith
ulids-ms ((now_ms, drawn) ∷ calls) g h =
    let later = (advance-IsLater now_ms drawn g h.0).0 in
    let rest = ulids-ms calls (advance now_ms drawn g) h.1 in
    elim later [ inl ms ↦ omega (arith, ms, rest) | inr (same, more) ↦ omega (arith, same, rest) ]

-- What is earlier than every state that follows `g` has a text before all the texts that follow.
ulids-after :
    (calls : List (ℕ × ℕ)) (f g : Generator)
    → All (λ c. c.1 < 2 ^ 80) calls
    → (ulids calls g).1.last_ms < power_of_32 10
    → ((h : Generator) → IsLater g h → IsLater f h)
    → All (λ i. codes_lt (text_of f) i ≡ true) (ulids calls g).0
unfolding ulids ulid
ulids-after [] f g h b before = tt
ulids-after ((now_ms, drawn) ∷ calls) f g h b before =
    let g' = advance now_ms drawn g in
    let (later, seeded) = advance-IsLater now_ms drawn g h.0 in
    (
      text_of-IsLater f g' (before g' later) (omega (arith, b, ulids-ms calls g' h.1)) seeded,
      ulids-after calls f g' h.1 b (λ k l. IsLater-trans f g' k (before g' later) l),
    )

-- Each text comes before all those that follow it.
abbrev pub Ascending : List (List ℕ) → Type 0
Ascending [] = Unit
Ascending (i ∷ is) = All (λ j. codes_lt i j ≡ true) is × Ascending is

-- The identifiers of one process come in the order of their texts, whatever the clock reads and
-- whatever is drawn (below 2^80), while the milliseconds stay below 32^10.
pub ulids_ascend :
    (calls : List (ℕ × ℕ)) (g : Generator)
    → All (λ c. c.1 < 2 ^ 80) calls
    → (ulids calls g).1.last_ms < power_of_32 10
    → Ascending (ulids calls g).0
unfolding ulids ulid
ulids_ascend [] g h b = tt
ulids_ascend ((now_ms, drawn) ∷ calls) g h b =
    let g' = advance now_ms drawn g in
    (ulids-after calls g' g' h.1 b (λ k l. l), ulids_ascend calls g' h.1 b)
