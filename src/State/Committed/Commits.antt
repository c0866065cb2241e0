-- ===== src/State/Committed/Commits.antt =====
-- `commit` as a whole, on what arbitration made of a snapshot.
use discord_personality_bot.Base.{ℕ, ◌≡◌, refl, ◌∙◌, Option, none, some, List, map, ok, nat_beq}
use discord_personality_bot.Base.Lists.{All, All-mono}
use discord_personality_bot.State.Value.{StateValue}
use discord_personality_bot.State.Policy.{ArbitrationPolicy}
use discord_personality_bot.State.Proposal.{Proposal}
use discord_personality_bot.State.Snapshot.{StateSnapshot, get, with_committed}
use discord_personality_bot.State.Arbitrator.Records.{
  AcceptedChange, ArbitrationResult, change_target, change_of,
}
use discord_personality_bot.State.Arbitrator.Resolve.{accept_group}
use discord_personality_bot.State.Arbitrator.{arbitrate}
use discord_personality_bot.State.Arbitration.Provenance.{Stems, arbitrate-Stems}
use discord_personality_bot.State.Committer.{
  CommitResult, commit_changes, commit_rejections, complete_all, commit_body, commit_result, commit,
  final_status, counts_of,
}
use discord_personality_bot.State.Committed.Quiet.{
  commit_rejections-IsQuiet, complete_all-IsQuiet, finish-IsQuiet,
}
use discord_personality_bot.State.Committed.Current.{
  version_of_row, IsCurrent, bind-inv, transaction-inv,
}
use discord_personality_bot.State.Committed.Writing.{
  write_all, IsStorable, commit_changes-ok, ShowSame, write_all-ShowSame,
}
use discord_personality_bot.Storage.Database.{World, pure, ◌>>=◌, ◌>>◌, transaction}
use discord_personality_bot.Storage.Runs.{finish}
use discord_personality_bot.Storage.Effects.{entered, leave-ok}

-- An accepted change expects the version that the snapshot holds.
Stems-expects :
    (policy : ArbitrationPolicy) (ps : List Proposal) (snapshot : StateSnapshot)
    (c : AcceptedChange)
    → Stems policy ps snapshot c
    → c.expected_version ≡ version_of_row (get snapshot (change_target c))
unfolding accept_group change_target
Stems-expects policy ps snapshot c s = rw s.change (go (get snapshot s.source.key))
  where
    go :
        (o : Option StateValue)
        → (accept_group o s.source s.resolution).expected_version ≡ version_of_row o
    go none = refl
    go (some v) = refl

module _ (policy : ArbitrationPolicy) (ps : List Proposal) (snapshot : StateSnapshot)
    (r : ArbitrationResult) (returned : arbitrate policy ps snapshot ≡ ok r) where
  pub accepted-IsCurrent : All (IsCurrent snapshot.values) r.accepted
  unfolding get
  accepted-IsCurrent =
      All-mono (Stems policy ps snapshot) (IsCurrent snapshot.values) r.accepted
        (Stems-expects policy ps snapshot) (arbitrate-Stems policy ps snapshot r returned)

-- The body of a commit that returned.
commit_body-ok :
    (r : ArbitrationResult) (run event : ℕ) (deliveries : List ℕ) (at finished_at : ℕ) (w : World)
    (x : List ℕ × List ℕ)
    → All IsStorable r.accepted
    → (commit_body run event r deliveries at finished_at w).0 ≡ ok x
    → (commit_body run event r deliveries at finished_at w).1.tables.state_values
      ≡ write_all run at r.accepted w.tables.state_values
unfolding commit_body
commit_body-ok r run event deliveries at finished_at w x storable h =
    let (is, e, rest) =
      bind-inv (commit_changes run at r.accepted)
        (λ changes. commit_rejections run event at r.rejected >>= λ failures.
          complete_all at deliveries
          >> (finish run (final_status r.accepted) finished_at (counts_of r) none
              >> pure (changes, failures)))
        w x h in
    let w1 : World = (commit_changes run at r.accepted w).1 in
    let (fs, e1, s1) = (commit_rejections-IsQuiet run event at r.rejected).at w1 in
    let w2 : World = (commit_rejections run event at r.rejected w1).1 in
    let (u, e2, s2) = (complete_all-IsQuiet at deliveries).at w2 in
    let w3 : World = (complete_all at deliveries w2).1 in
    let (v, e3, s3) =
      (finish-IsQuiet run (final_status r.accepted) finished_at (counts_of r) none).at w3 in
    rw (e, ◌>>=◌)
      (rw (e1, ◌>>=◌)
        (rw (e2, ◌>>=◌)
          (rw (e3, ◌>>=◌) (s3 ∙ s2 ∙ s1 ∙ commit_changes-ok run at r.accepted w is storable e))))

module _ (snapshot : StateSnapshot) (r : ArbitrationResult) where
  -- If the commit of a result returns, while the table is as a snapshot, and each accepted value
  -- is one that a row holds as it is (which is all but an integer that no float holds), then at
  -- every key the table shows the value and the version that the snapshot with the accepted
  -- changes shows.
  pub commit_shows :
      (run event : ℕ) (deliveries : List ℕ) (at finished_at : ℕ) (w : World) (c : CommitResult)
      → All IsStorable r.accepted
      → w.tables.state_values ≡ snapshot.values
      → (commit run event r deliveries at finished_at w).0 ≡ ok c
      → ShowSame
          (commit run event r deliveries at finished_at w).1.tables.state_values
          (with_committed snapshot (map change_of r.accepted) none).values
  unfolding commit transaction with_committed
  commit_shows run event deliveries at finished_at w c storable same h =
      let m = commit_body run event r deliveries at finished_at in
      let (x, e, rest) =
        bind-inv (transaction m) (λ ids. pure (commit_result run r deliveries ids)) w c h in
      let f = transaction-inv m w x e in
      let l = leave-ok (nat_beq w.depth 0) (m (entered w)) x f in
      λ k.
        rw (l.0, ◌>>=◌)
          (rw
            (
              l.1,
              commit_body-ok r run event deliveries at finished_at (entered w) x storable f,
              same,
            )
            (write_all-ShowSame run at snapshot.created_at r.accepted snapshot.values
              snapshot.values (λ j. refl) k))
