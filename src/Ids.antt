-- ===== src/Ids.antt =====
-- app/ids.py: the monotonic identifiers, as code points. A call takes what the clock reads and what
-- `os.urandom` draws.
pub mod Encoding
pub mod Monotonic
pub mod Prefixes
use discord_personality_bot.Base.{
  ℕ, zero, suc, ◌+◌, ◌^◌, Bool, true, false, List, [], ◌∷◌, ◌++◌, ltb, nat_beq, number_test, not,
  ◌&&◌, ◌==◌, if◌then◌else◌, Result, ok, raised,
}
use discord_personality_bot.Base.Lists.{contains, length}
use Prim.Native.Nat.{◌/◌, ◌%◌}
use discord_personality_bot.Text.{codes}

-- `_CROCKFORD`
abbrev pub crockford : List ℕ
crockford = codes "0123456789ABCDEFGHJKMNPQRSTVWXYZ"

unfoldable pub nth : ℕ → List ℕ → ℕ
nth i [] = 0
nth zero (c ∷ cs) = c
nth (suc i) (c ∷ cs) = nth i cs

-- The loop of `_encode`, which meets the lowest five bits first.
unfoldable pub low_first : ℕ → ℕ → List ℕ
unfolding nth
low_first zero value = []
low_first (suc length) value = nth (value % 32) crockford ∷ low_first length (value / 32)

unfoldable pub reversed : List ℕ → List ℕ
reversed [] = []
reversed (c ∷ cs) = reversed cs ++ c ∷ []

-- `_encode`
unfoldable pub encode : ℕ → ℕ → List ℕ
unfolding low_first reversed
encode value length = reversed (low_first length value)

-- `_last_ms` and `_last_entropy`
pub record Generator : Type 0 where
  pub last_ms : ℕ
  pub last_entropy : ℕ

unfoldable pub same_moment : ℕ → ℕ → Generator → Generator
same_moment timestamp drawn g =
    if ltb (g.last_entropy + 1) (2 ^ 80)
    then record { last_ms = timestamp; last_entropy = g.last_entropy + 1 }
    else record { last_ms = timestamp + 1; last_entropy = drawn }

-- The body under the lock: what the two variables hold after a call.
unfoldable pub advance : ℕ → ℕ → Generator → Generator
unfolding same_moment
advance now_ms drawn g =
    let timestamp : ℕ = if ltb now_ms g.last_ms then g.last_ms else now_ms in
    if nat_beq timestamp g.last_ms
    then same_moment timestamp drawn g
    else record { last_ms = timestamp; last_entropy = drawn }

unfoldable pub text_of : Generator → List ℕ
unfolding encode
text_of g = encode g.last_ms 10 ++ encode g.last_entropy 16

-- `ulid`
unfoldable pub ulid : ℕ → ℕ → Generator → List ℕ × Generator
ulid now_ms drawn g = let g' = advance now_ms drawn g in (text_of g', g')

-- Calls one after another: the identifiers, and the variables after the last.
unfoldable pub ulids : List (ℕ × ℕ) → Generator → List (List ℕ) × Generator
ulids [] g = ([], g)
ulids ((now_ms, drawn) ∷ calls) g =
    let (i, g') = ulid now_ms drawn g in let (is, g'') = ulids calls g' in (i ∷ is, g'')

-- `ValueError`, of a prefix or of an identifier
pub data IdError : Type 0 where
  invalid_prefix no_prefix : List ℕ → IdError

abbrev pub underscore : ℕ
underscore = 95

abbrev pub is_empty : List ℕ → Bool
is_empty [] = true
is_empty (c ∷ cs) = false

unfoldable pub is_prefix : List ℕ → Bool
unfolding contains
is_prefix prefix = not (is_empty prefix) && not (contains underscore prefix)

-- `new_id`
unfoldable pub new_id : List ℕ → ℕ → ℕ → Generator → Result IdError (List ℕ) × Generator
unfolding is_prefix ulid
new_id prefix now_ms drawn g =
    let (i, g') = ulid now_ms drawn g in
    if is_prefix prefix
    then (ok (prefix ++ underscore ∷ i), g')
    else (raised (invalid_prefix prefix), g)

unfoldable pub new_ids :
    List ℕ → List (ℕ × ℕ) → Generator → List (Result IdError (List ℕ)) × Generator
unfolding new_id
new_ids prefix [] g = ([], g)
new_ids prefix ((now_ms, drawn) ∷ calls) g =
    let (i, g') = new_id prefix now_ms drawn g in
    let (is, g'') = new_ids prefix calls g' in (i ∷ is, g'')

-- `identifier.partition("_")`: what stands before the first underscore, and after it.
unfoldable pub partition : List ℕ → List ℕ × List ℕ
partition [] = ([], [])
partition (c ∷ cs) =
    let (head, rest) = partition cs in if nat_beq c underscore then ([], cs) else (c ∷ head, rest)

-- `prefix_of`
unfoldable pub prefix_of : List ℕ → Result IdError (List ℕ)
unfolding partition
prefix_of identifier =
    let (head, rest) = partition identifier in
    if is_empty rest then raised (no_prefix identifier) else ok head

-- `startswith`
unfoldable pub starts_with : List ℕ → List ℕ → Bool
starts_with cs [] = true
starts_with [] (p ∷ ps) = false
starts_with (c ∷ cs) (p ∷ ps) = nat_beq c p && starts_with cs ps

-- `has_prefix`
unfoldable pub has_prefix : List ℕ → List ℕ → Bool
unfolding starts_with
has_prefix identifier prefix =
    starts_with identifier (prefix ++ underscore ∷ [])
    && ltb (length prefix + 1) (length identifier)
