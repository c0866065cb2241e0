-- ===== src/Reliability/Resources/Yielding.antt =====
-- When background work gives way.
use discord_personality_bot.Base.{
  ◌≡◌, refl, ◌∙◌, inl, inr, arith, Bool, true, false, Bool-cases, String, List, [], ◌∷◌,
  if◌then◌else◌, raised, ok,
}
use discord_personality_bot.Base.Lists.{All}
use discord_personality_bot.Reliability.Resources.{
  is_background, Manager, count_admission, admit, enqueue, acquire, resume, drop, cancel,
  admit_next, release, user_input_arrived, should_yield, gave_way, checkpoint, Op, acquiring,
  resuming, dropping, cancelling, releasing, user_input, resuming_background, checking, apply,
  apply_all,
}

-- The calls that end the yielding: the release of foreground work, and the request to go on.
abbrev pub ends_yielding : Op → Bool
ends_yielding (releasing w) = if is_background w.priority then false else true
ends_yielding resuming_background = true
ends_yielding _ = false

admit_next-flag : (m : Manager) → (admit_next m).1.yield_requested ≡ m.yield_requested
unfolding admit_next
admit_next-flag m = ground arith

apply-yields :
    (o : Op) (m : Manager)
    → ends_yielding o ≡ false
    → m.yield_requested ≡ true
    → (apply o m).yield_requested ≡ true
unfolding apply acquire admit enqueue count_admission resume drop cancel release user_input_arrived
    checkpoint
apply-yields (acquiring priority name) m h y = ground (arith, y)
apply-yields (resuming priority) m h y = y
apply-yields (dropping w) m h y = y
apply-yields (cancelling w) m h y = y
apply-yields (releasing w) m h y = admit_next-flag _ ∙ ground (arith, h, y)
apply-yields user_input m h y = refl
apply-yields resuming_background m h y = absurd (ground arith)
apply-yields (checking priority) m h y = ground (arith, y)

apply_all-yields :
    (os : List Op) (m : Manager)
    → All (λ o. ends_yielding o ≡ false) os
    → m.yield_requested ≡ true
    → (apply_all os m).yield_requested ≡ true
unfolding apply_all
apply_all-yields [] m h y = y
apply_all-yields (o ∷ os) m h y = apply_all-yields os (apply o m) h.1 (apply-yields o m h.0 y)

-- After the input of the user, and until foreground work is released or background work is told to
-- go on, a checkpoint stops background work and lets foreground work pass, whatever else happens.
pub user_first :
    (os : List Op) (m : Manager) (priority : String)
    → All (λ o. ends_yielding o ≡ false) os
    → (checkpoint priority (apply_all os (user_input_arrived m))).0
      ≡ (if is_background priority then raised gave_way else ok tt)
unfolding checkpoint should_yield user_input_arrived
user_first os m priority h =
    rw (apply_all-yields os (user_input_arrived m) h refl)
      (elim (Bool-cases (is_background priority)) [ inl e ↦ rw e refl | inr e ↦ rw e refl ])
