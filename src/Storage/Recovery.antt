-- ===== src/Storage/Recovery.antt =====
-- What a restart leaves of the runs (app/storage/repositories/runs.py).
use discord_personality_bot.Base.{ℕ, ◌≡◌, ◌≢◌, refl, ap, List, [], ◌∷◌}
use discord_personality_bot.Base.Lists.{All}
use discord_personality_bot.Storage.Tables.{
  Run, RunStatus, running, committed, rejected, failed, interrupted, conflicted,
}
use discord_personality_bot.Storage.Database.{World}
use discord_personality_bot.Storage.Runs.{
  interrupt_from, interrupt, interrupt_all, mark_interrupted,
}

interrupt_from-idle : (at : ℕ) (r : Run) (s : RunStatus) → s ≢ running → interrupt_from at r s ≡ r
unfolding interrupt_from
interrupt_from-idle at r running h = absurd (h refl)
interrupt_from-idle at r committed h = refl
interrupt_from-idle at r rejected h = refl
interrupt_from-idle at r failed h = refl
interrupt_from-idle at r interrupted h = refl
interrupt_from-idle at r conflicted h = refl

interrupt_from-done :
    (at : ℕ) (r : Run) (s : RunStatus) → r.status ≡ s → (interrupt_from at r s).status ≢ running
unfolding interrupt_from
interrupt_from-done at r running h = λ q. cc q
interrupt_from-done at r committed h = λ q. cc (h, q)
interrupt_from-done at r rejected h = λ q. cc (h, q)
interrupt_from-done at r failed h = λ q. cc (h, q)
interrupt_from-done at r interrupted h = λ q. cc (h, q)
interrupt_from-done at r conflicted h = λ q. cc (h, q)

interrupt-done : (at : ℕ) (r : Run) → (interrupt at r).status ≢ running
unfolding interrupt
interrupt-done at r = interrupt_from-done at r r.status refl

interrupt-again : (at later : ℕ) (r : Run) → interrupt later (interrupt at r) ≡ interrupt at r
interrupt-again at later r =
    unfold interrupt in
    interrupt_from-idle later (interrupt at r) (interrupt at r).status (interrupt-done at r)

interrupt_all-done : (at : ℕ) (rs : List Run) → All (λ r. r.status ≢ running) (interrupt_all at rs)
unfolding interrupt_all
interrupt_all-done at [] = tt
interrupt_all-done at (r ∷ rs) = (interrupt-done at r, interrupt_all-done at rs)

interrupt_all-again :
    (at later : ℕ) (rs : List Run) → interrupt_all later (interrupt_all at rs) ≡ interrupt_all at rs
unfolding interrupt_all
interrupt_all-again at later [] = refl
interrupt_all-again at later (r ∷ rs) =
    cc (interrupt-again at later r, interrupt_all-again at later rs)

-- After a restart has marked the interrupted runs no run is left running, and marking again, at
-- whatever time, changes no table.
pub recovered :
    (at later : ℕ) (w : World)
    → let w' = (mark_interrupted at w).1 in
      All (λ r. r.status ≢ running) w'.tables.runs
      × ((mark_interrupted later w').1.tables ≡ w'.tables)
unfolding mark_interrupted
recovered at later w = (
  interrupt_all-done at w.tables.runs,
  ap (λ (rs : List Run). record w.tables { runs = rs })
      (interrupt_all-again at later w.tables.runs),
)
