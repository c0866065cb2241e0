-- ===== src/FirstBoot/Holding.antt =====
-- The lease of the first boot, among calls of other processes.
use discord_personality_bot.Base.{
  ℕ, ◌+◌, ◌<◌, ◌≡◌, ◌≢◌, arith, true, false, some, List, [], ◌∷◌, nat_beq, nat_beq_iff, number_test,
}
use discord_personality_bot.Base.Lists.{All}
use discord_personality_bot.FirstBoot.Store.{
  Lease, Store, acquire, beat, release, is_live, lease_seconds,
}

pub data LeaseCall : Type 0 where
  to_acquire : (epoch_id moment holder : ℕ) → LeaseCall
  to_beat : (moment holder : ℕ) → LeaseCall
  to_release : (holder : ℕ) → LeaseCall

unfoldable pub answer : LeaseCall → Store → Store
answer (to_acquire e t h) s = (acquire e t h s).1
answer (to_beat t h) s = (beat t h s).1
answer (to_release h) s = (release h s).1

unfoldable pub answers : List LeaseCall → Store → Store
unfolding answer
answers [] s = s
answers (c ∷ cs) s = answers cs (answer c s)

-- A call of another process, before the lease expires.
abbrev pub IsForeign : Lease → LeaseCall → Type 0
IsForeign l (to_acquire e t h) = (l.holder ≢ h) × (t < l.heartbeat_at + lease_seconds)
IsForeign l (to_beat t h) = l.holder ≢ h
IsForeign l (to_release h) = l.holder ≢ h

other : (m n : ℕ) → m ≢ n → nat_beq m n ≡ false
other m n h = ground (arith, nat_beq_iff m n)

live : (l : Lease) (t : ℕ) → t < l.heartbeat_at + lease_seconds → is_live t l ≡ true
unfolding is_live
live l t h = ground arith

refused :
    (l : Lease) (e t h : ℕ) (s : Store)
    → s.lease ≡ some l
    → l.holder ≢ h
    → t < l.heartbeat_at + lease_seconds
    → acquire e t h s ≡ (false, s)
unfolding acquire
refused l e t h s held foreign soon = simp (acquire, held, live l t soon, other l.holder h foreign)

answer_held :
    (l : Lease) (c : LeaseCall) (s : Store)
    → s.lease ≡ some l
    → IsForeign l c
    → (answer c s).lease ≡ some l
unfolding answer beat release
answer_held l (to_acquire e t h) s held f = rw (answer, refused l e t h s held f.0 f.1) held
answer_held l (to_beat t h) s held f = simp (answer, beat, held, other l.holder h f)
answer_held l (to_release h) s held f = simp (answer, release, held, other l.holder h f)

answers_held :
    (l : Lease) (cs : List LeaseCall) (s : Store)
    → s.lease ≡ some l
    → All (IsForeign l) cs
    → (answers cs s).lease ≡ some l
unfolding answers
answers_held l [] s held f = held
answers_held l (c ∷ cs) s held f = answers_held l cs (answer c s) (answer_held l c s held f.0) f.1

-- After a process has taken the lease afresh, and other processes have called acquire, beat and
-- release in any order, each acquire before the lease expires, a further acquire of another
-- process before then is refused and changes nothing.
pub lease_excludes :
    (e t p : ℕ) (cs : List LeaseCall) (s : Store)
    → let s' = (acquire e t p s).1 in
      let l : Lease = record { epoch_id = e; holder = p; acquired_at = t; heartbeat_at = t } in
      s'.lease ≡ some l
      → All (IsForeign l) cs
      → (e' t' q : ℕ) → p ≢ q
      → t' < t + lease_seconds
      → acquire e' t' q (answers cs s') ≡ (false, answers cs s')
lease_excludes e t p cs s taken f e' t' q apart soon =
    let l : Lease = record { epoch_id = e; holder = p; acquired_at = t; heartbeat_at = t } in
    refused l e' t' q (answers cs (acquire e t p s).1)
      (answers_held l cs (acquire e t p s).1 taken f) apart soon
