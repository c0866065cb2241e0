-- ===== src/State/Committed/Races.antt =====
-- A commit that returns overwrites nothing that its arbitration has not seen.
use discord_personality_bot.Base.{ℕ, ◌≡◌, ◌≢◌, sym, ap, ◌∙◌, none, List, [], ◌∷◌, Key, ok, key_test}
use discord_personality_bot.Base.Lists.{All, All-mono, All-both, DistinctBy}
use discord_personality_bot.Base.Dict.{insert, lookup-insert_ne}
use discord_personality_bot.State.Value.{StateValue}
use discord_personality_bot.State.Policy.{ArbitrationPolicy}
use discord_personality_bot.State.Proposal.{Proposal}
use discord_personality_bot.State.Snapshot.{StateSnapshot}
use discord_personality_bot.State.Arbitrator.Records.{
  AcceptedChange, ArbitrationResult, change_target,
}
use discord_personality_bot.State.Arbitrator.{arbitrate}
use discord_personality_bot.State.Arbitration.Order.{accepted_in_order}
use discord_personality_bot.State.Committer.{
  CommitResult, commit_one, commit_changes, commit_body, commit, commit_result, commit_rejections,
  complete_all, final_status, counts_of,
}
use discord_personality_bot.Storage.Runs.{finish}
use discord_personality_bot.State.Committed.Current.{
  Rows, version_of_row, version_in, IsCurrent, bind-inv, transaction-inv, commit_one-IsCurrent,
}
use discord_personality_bot.State.Committed.Writing.{commit_one-ok}
use discord_personality_bot.State.Committed.Commits.{accepted-IsCurrent}
use discord_personality_bot.Storage.Database.{World, pure, ◌>>=◌, ◌>>◌, transaction}
use discord_personality_bot.Storage.Effects.{entered}

-- What is current beside a write to another key was current before the write.
before-insert :
    (k : Key) (v : StateValue) (rows : Rows) (cs : List AcceptedChange)
    → All (λ c. k ≢ change_target c) cs
    → All (IsCurrent (insert k v rows)) cs
    → All (IsCurrent rows) cs
before-insert k v rows [] ne h = tt
before-insert k v rows (c ∷ cs) ne h = (
  h.0 ∙ ap version_of_row (lookup-insert_ne k (change_target c) v rows ne.0),
  before-insert k v rows cs ne.1 h.1,
)

commit_changes-IsCurrent :
    (run at : ℕ) (cs : List AcceptedChange) (w : World) (is : List ℕ)
    → DistinctBy change_target cs
    → (commit_changes run at cs w).0 ≡ ok is
    → All (IsCurrent w.tables.state_values) cs
unfolding commit_changes
commit_changes-IsCurrent run at [] w is d h = tt
commit_changes-IsCurrent run at (c ∷ cs) w is d h =
    let (i, e, rest) =
      bind-inv (commit_one run at c) (λ i. commit_changes run at cs >>= λ js. pure (i ∷ js)) w is
        h in
    let w' : World = (commit_one run at c w).1 in
    let (js, f, end) = bind-inv (commit_changes run at cs) (λ js. pure (i ∷ js)) w' is rest in
    let current = commit_one-IsCurrent run at c w i e in
    let (v, form, written) = commit_one-ok run at c w i e in
    (
      current,
      before-insert (change_target c) _ w.tables.state_values cs d.0
          (rw written at (commit_changes-IsCurrent run at cs w' js d.1 f)),
    )

-- If a commit of the result of an arbitration returns, then when it began the table still held,
-- for the target of every accepted change, the version that the snapshot of the arbitration holds,
-- or no row where the snapshot holds none: no write of another run is lost.
pub commit_unraced :
    (policy : ArbitrationPolicy) (ps : List Proposal) (snapshot : StateSnapshot)
    (r : ArbitrationResult) (run event : ℕ) (deliveries : List ℕ) (at finished_at : ℕ) (w : World)
    (c : CommitResult)
    → arbitrate policy ps snapshot ≡ ok r
    → (commit run event r deliveries at finished_at w).0 ≡ ok c
    → All
        (λ a.
          version_in snapshot.values (change_target a)
          ≡ version_in w.tables.state_values (change_target a))
        r.accepted
unfolding commit commit_body
commit_unraced policy ps snapshot r run event deliveries at finished_at w c returned h =
    let m = commit_body run event r deliveries at finished_at in
    let (x, e, rest) =
      bind-inv (transaction m) (λ ids. pure (commit_result run r deliveries ids)) w c h in
    let (is, f, more) =
      bind-inv (commit_changes run at r.accepted)
        (λ changes. commit_rejections run event at r.rejected >>= λ failures.
          complete_all at deliveries
          >> (finish run (final_status r.accepted) finished_at (counts_of r) none
              >> pure (changes, failures)))
        (entered w) x (transaction-inv m w x e) in
    All-mono (λ a. IsCurrent snapshot.values a × IsCurrent w.tables.state_values a) _ r.accepted
      (λ a both. sym both.0 ∙ both.1)
      (All-both (IsCurrent snapshot.values) (IsCurrent w.tables.state_values) r.accepted
        (accepted-IsCurrent policy ps snapshot r returned)
        (commit_changes-IsCurrent run at r.accepted (entered w) is
          (accepted_in_order policy ps snapshot r returned).0 f))
