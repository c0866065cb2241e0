-- ===== src/State/Arbitration/Limits.antt =====
-- Every accepted change lies within the policy of its domain.
use discord_personality_bot.Base.{true, ◌≡◌, refl, sym, ap, ◌∙◌, Option, some, List, arith, ok}
use mathlib.Core.List.{Memᴰ}
use discord_personality_bot.Base.Lists.{All-mem}
use discord_personality_bot.Base.Int.{ℤ, pos, ◌+ℤ◌, neg_ℤ, ◌≤ℤ◌, eq_of_parts, int_laws}
use discord_personality_bot.Number.{
  Float, fin, inf, neg_inf, nan, float_lt, float_add, float_sub, float_neg, float_abs,
}
use discord_personality_bot.State.Value.{null, number, StateValue, numeric, numeric_of}
use discord_personality_bot.State.Policy.{DomainPolicy, ArbitrationPolicy, for_domain}
use discord_personality_bot.State.Proposal.{Proposal}
use discord_personality_bot.State.Snapshot.{StateSnapshot, get}
use discord_personality_bot.State.Arbitrator.Records.{
  AcceptedChange, ArbitrationResult, change_target,
}
use discord_personality_bot.State.Arbitrator.Groups.{Group}
use discord_personality_bot.State.Arbitrator.Resolve.{
  Resolution, resolve, resolve_set, resolve_adjust, resolve_invalidate, adjust_number, in_bounds,
  in_delta, set_delta, accept_group, total_magnitude,
}
use discord_personality_bot.State.Arbitrator.{arbitrate}
use discord_personality_bot.State.Arbitration.Provenance.{Stems, arbitrate-Stems}

in_bounds-range :
    (policy : DomainPolicy) (lo hi v : ℤ)
    → policy.value_min ≡ some (fin lo)
    → policy.value_max ≡ some (fin hi)
    → in_bounds (number (fin v)) policy ≡ true
    → (lo ≤ℤ v +ℤ pos 1) × (v ≤ℤ hi +ℤ pos 1)
unfolding in_bounds numeric_of float_lt float_sub
in_bounds-range policy lo hi v l h b = grind int_laws

null_in_bounds : (policy : DomainPolicy) → in_bounds null policy ≡ true
unfolding in_bounds numeric_of
null_in_bounds policy = refl

in_delta-range :
    (policy : DomainPolicy) (limit d : ℤ)
    → policy.max_delta_per_event ≡ some (fin limit)
    → in_delta (fin d) policy ≡ true
    → (d ≤ℤ limit +ℤ pos 1) × (neg_ℤ d ≤ℤ limit +ℤ pos 1)
unfolding in_delta float_lt float_add float_abs
in_delta-range policy limit d l h = grind int_laws

-- An accepted resolution has a value within bounds.
resolve-in_bounds :
    (policy : DomainPolicy) (current : Option StateValue) (g : Group) (r : Resolution)
    → resolve policy current g ≡ ok r
    → in_bounds r.new_value policy ≡ true
unfolding resolve resolve_set resolve_adjust resolve_invalidate adjust_number
resolve-in_bounds policy current g r h = ground (arith, null_in_bounds policy)

add_fin : (b v : ℤ) (x : Float) → float_add (fin b) x ≡ fin v → x ≡ fin (v +ℤ neg_ℤ b)
unfolding float_add
add_fin b v (fin d) h =
    let e : b +ℤ d ≡ v = cc in ap fin (eq_of_parts d (v +ℤ neg_ℤ b) (rw (← e) (omega int_laws)))
add_fin b v inf h = cc
add_fin b v neg_inf h = cc
add_fin b v nan h = cc

-- How far an accepted number lies from the number that the snapshot holds.
resolve-in_delta :
    (policy : DomainPolicy) (current : StateValue) (g : Group) (r : Resolution) (b v : ℤ)
    → resolve policy (some current) g ≡ ok r
    → numeric current ≡ some (fin b)
    → r.new_value ≡ number (fin v)
    → in_delta (fin (v +ℤ neg_ℤ b)) policy ≡ true
unfolding resolve resolve_set resolve_adjust resolve_invalidate adjust_number set_delta numeric_of
    float_sub float_neg
resolve-in_delta policy current g r b v h n e = ground (arith, add_fin b v (total_magnitude g))

-- The records of an accepted change that the limits are about.
abbrev IsLimited : ArbitrationPolicy → StateSnapshot → AcceptedChange → Type 0
IsLimited policy snapshot c =
    (g : Group) × (r : Resolution) × (resolve (for_domain policy c.domain)
        (get snapshot (change_target c)) g
      ≡ ok r)
    × (c.new_value ≡ r.new_value)

Stems-IsLimited :
    (policy : ArbitrationPolicy) (ps : List Proposal) (snapshot : StateSnapshot)
    (c : AcceptedChange)
    → Stems policy ps snapshot c
    → IsLimited policy snapshot c
unfolding accept_group change_target
Stems-IsLimited policy ps snapshot c s = rw s.change (s.source, s.resolution, s.resolves, refl)

-- Where the policy of the domain of an accepted change has two finite bounds, a new value that is
-- a finite number lies within them, up to one unit of 1e-9.
pub accepted_in_bounds :
    (policy : ArbitrationPolicy) (ps : List Proposal) (snapshot : StateSnapshot)
    (r : ArbitrationResult) (c : AcceptedChange) (lo hi v : ℤ)
    → arbitrate policy ps snapshot ≡ ok r
    → Memᴰ c r.accepted
    → (for_domain policy c.domain).value_min ≡ some (fin lo)
    → (for_domain policy c.domain).value_max ≡ some (fin hi)
    → c.new_value ≡ number (fin v)
    → (lo ≤ℤ v +ℤ pos 1) × (v ≤ℤ hi +ℤ pos 1)
accepted_in_bounds policy ps snapshot r c lo hi v returned m l h e =
    let stems =
      All-mem (Stems policy ps snapshot) c r.accepted
        (arbitrate-Stems policy ps snapshot r returned) m in
    let (g, res, resolves, same) = Stems-IsLimited policy ps snapshot c stems in
    in_bounds-range (for_domain policy c.domain) lo hi v l h (
      rw (← (sym same ∙ e)) (
        resolve-in_bounds (for_domain policy c.domain) (get snapshot (change_target c)) g res
          resolves))

-- Where the snapshot holds a finite number for the target of an accepted change and the policy of
-- the domain has a finite limit, a new finite number differs from it by at most the limit, up to
-- one unit of 1e-9, whether it was set or adjusted.
pub accepted_in_delta :
    (policy : ArbitrationPolicy) (ps : List Proposal) (snapshot : StateSnapshot)
    (r : ArbitrationResult) (c : AcceptedChange) (current : StateValue) (limit b v : ℤ)
    → arbitrate policy ps snapshot ≡ ok r
    → Memᴰ c r.accepted
    → (for_domain policy c.domain).max_delta_per_event ≡ some (fin limit)
    → get snapshot (change_target c) ≡ some current
    → numeric current ≡ some (fin b)
    → c.new_value ≡ number (fin v)
    → (v ≤ℤ b +ℤ (limit +ℤ pos 1)) × (b ≤ℤ v +ℤ (limit +ℤ pos 1))
accepted_in_delta policy ps snapshot r c current limit b v returned m l held n e =
    let stems =
      All-mem (Stems policy ps snapshot) c r.accepted
        (arbitrate-Stems policy ps snapshot r returned) m in
    let (g, res, resolves, same) = Stems-IsLimited policy ps snapshot c stems in
    let within = in_delta-range (for_domain policy c.domain) limit (v +ℤ neg_ℤ b) l (
      resolve-in_delta (for_domain policy c.domain) current g res b v (rw held at resolves) n
        (sym same ∙ e)) in
    omega (int_laws, within)
