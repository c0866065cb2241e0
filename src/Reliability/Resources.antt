-- ===== src/Reliability/Resources.antt =====
-- app/reliability/resources.py: admission control by priority. A waiter holds its work and whether
-- its future was cancelled; the work that a call grants a slot is an answer of the call, since the
-- task that waits for it goes on at a later moment (`resume`).
pub mod Slots
pub mod Urgency
pub mod Yielding
use discord_personality_bot.Base.{
  ℕ, suc, ◌+◌, ◌-◌, String, Bool, true, false, not, ◌&&◌, Option, none, some, is_some, List, [],
  ◌∷◌, ◌++◌, ltb, leb, nat_beq, ◌==◌, text_test, if◌then◌else◌, Result, ok, raised,
}
use discord_personality_bot.Base.Lists.{length, keep}
use discord_personality_bot.Base.Dict.{Dict, lookup, insert}
use discord_personality_bot.Base.Sort.{sort}

abbrev pub priorities : List String
priorities = "P0" ∷ "P1" ∷ "P2" ∷ "P3" ∷ "P4" ∷ "P5" ∷ "P6" ∷ "P7" ∷ []

-- `tuple.index`; the length of the tuple where there is none.
unfoldable pub index_of : String → List String → ℕ
index_of s [] = 0
index_of s (t ∷ ts) = let rest = index_of s ts in if t == s then 0 else suc rest

-- `rank`: an unknown priority comes last.
unfoldable pub rank : String → ℕ
unfolding index_of
rank priority = index_of priority priorities

unfoldable pub is_background : String → Bool
unfolding rank
is_background priority = leb (rank "P3") (rank priority)

-- `QueuedWork`
pub record Work : Type 0 where
  pub priority : String
  pub sequence : ℕ
  pub name : String

pub record Waiter : Type 0 where
  pub work : Work
  pub cancelled : Bool

-- The order of `sort_key`.
unfoldable pub more_urgent : Work → Work → Bool
more_urgent v w =
    if nat_beq (rank v.priority) (rank w.priority)
    then ltb v.sequence w.sequence
    else ltb (rank v.priority) (rank w.priority)

unfoldable pub goes_before : Waiter → Waiter → Bool
goes_before v w = more_urgent v.work w.work

-- `ResourceManager` with its `ResourceStats`.
pub record Manager : Type 0 where
  pub capacity : ℕ
  pub in_flight : ℕ
  pub waiting : List Waiter
  pub sequence : ℕ
  pub yield_requested : Bool
  pub admitted : ℕ
  pub yielded : ℕ
  pub peak_waiting : ℕ
  pub by_priority : Dict String ℕ

pub data CapacityError : Type 0 where
  no_concurrency : CapacityError

unfoldable pub fresh : ℕ → Manager
fresh concurrency = record {
  capacity = concurrency;
  in_flight = 0;
  waiting = [];
  sequence = 0;
  yield_requested = false;
  admitted = 0;
  yielded = 0;
  peak_waiting = 0;
  by_priority = [];
}

-- The constructor
unfoldable pub create : ℕ → Result CapacityError Manager
unfolding fresh
create concurrency = if ltb concurrency 1 then raised no_concurrency else ok (fresh concurrency)

-- The two lines on the statistics.
unfoldable pub count_admission : String → Manager → Manager
count_admission priority m = record m {
  admitted = m.admitted + 1;
  by_priority =
      insert priority (elim (lookup priority m.by_priority) [ none ↦ 1 | some n ↦ n + 1 ])
        m.by_priority;
}

-- `_admit`
unfoldable pub admit : Work → Manager → Manager
unfolding count_admission
admit w m = count_admission w.priority (record m { in_flight = m.in_flight + 1 })

abbrev or_priority : String → String → String
or_priority name priority = if name == "" then priority else name

abbrev max : ℕ → ℕ → ℕ
max a b = if ltb a b then b else a

unfoldable pub enqueue : Work → Manager → Manager
enqueue w m =
    let waiting = m.waiting ++ record { work = w; cancelled = false } ∷ [] in
    record m { waiting = waiting; peak_waiting = max m.peak_waiting (length waiting) }

abbrev pub is_empty {ℓ} : {A : Type ℓ} → List A → Bool
is_empty [] = true
is_empty (x ∷ xs) = false

-- `acquire` up to its `await`: the work, whether it has a slot at once, and the manager.
unfoldable pub acquire : String → String → Manager → Work × Bool × Manager
unfolding admit enqueue
acquire priority name m =
    let w : Work = record {
      priority = priority;
      sequence = m.sequence + 1;
      name = or_priority name priority;
    } in
    let m' : Manager = record m { sequence = m.sequence + 1 } in
    if ltb m.in_flight m.capacity && is_empty m.waiting
    then (w, true, admit w m')
    else (w, false, enqueue w m')

-- `acquire` after its `await`, when the future has its result.
unfoldable pub resume : String → Manager → Manager
unfolding count_admission
resume priority m = count_admission priority m

-- `acquire` after its `await`, when the task was cancelled.
unfoldable pub drop : Work → Manager → Manager
unfolding keep
drop w m = record m { waiting = keep (λ v. not (nat_beq v.work.sequence w.sequence)) m.waiting }

unfoldable pub cancel_each : Work → List Waiter → List Waiter
cancel_each w [] = []
cancel_each w (v ∷ vs) =
    (if nat_beq v.work.sequence w.sequence then record v { cancelled = true } else v)
    ∷ cancel_each w vs

-- The future of a waiter is cancelled; its task drops it at a later moment.
unfoldable pub cancel : Work → Manager → Manager
unfolding cancel_each
cancel w m = record m { waiting = cancel_each w m.waiting }

-- The loop of `_admit_next`, on the waiters in order: sorting again what is sorted changes nothing.
unfoldable pub grant_from : List Waiter → Option Work × List Waiter
grant_from [] = (none, [])
grant_from (v ∷ vs) = let next = grant_from vs in if v.cancelled then next else (some v.work, vs)

abbrev pub one_if_some {ℓ} : {A : Type ℓ} → Option A → ℕ
one_if_some none = 0
one_if_some (some a) = 1

-- `_admit_next`: the work that it grants a slot, if any.
unfoldable pub admit_next : Manager → Option Work × Manager
unfolding grant_from
admit_next m =
    let (granted, rest) = grant_from (sort goes_before m.waiting) in
    if ltb m.in_flight m.capacity
    then (granted, record m { waiting = rest; in_flight = m.in_flight + one_if_some granted })
    else (none, m)

-- `release`
unfoldable pub release : Work → Manager → Option Work × Manager
release w m = admit_next (record m {
  in_flight = m.in_flight - 1;
  yield_requested = if is_background w.priority then m.yield_requested else false;
})

unfoldable pub user_input_arrived : Manager → Manager
user_input_arrived m = record m { yield_requested = true }

unfoldable pub resume_background : Manager → Manager
resume_background m = record m { yield_requested = false }

unfoldable pub should_yield : String → Manager → Bool
should_yield priority m = m.yield_requested && is_background priority

-- `WorkCancelled`
pub data WorkCancelled : Type 0 where
  gave_way : WorkCancelled

unfoldable pub checkpoint : String → Manager → Result WorkCancelled (Unit {0}) × Manager
unfolding should_yield
checkpoint priority m =
    if should_yield priority m
    then (raised gave_way, record m { yielded = m.yielded + 1 })
    else (ok tt, m)

-- What can happen to the manager, in any order that the tasks of the process bring about.
pub data Op : Type 0 where
  acquiring : String → String → Op
  resuming : String → Op
  dropping cancelling releasing : Work → Op
  user_input resuming_background : Op
  checking : String → Op

unfoldable pub apply : Op → Manager → Manager
apply (acquiring priority name) m = (acquire priority name m).2
apply (resuming priority) m = resume priority m
apply (dropping w) m = drop w m
apply (cancelling w) m = cancel w m
apply (releasing w) m = (release w m).1
apply user_input m = user_input_arrived m
apply resuming_background m = resume_background m
apply (checking priority) m = (checkpoint priority m).1

unfoldable pub apply_all : List Op → Manager → Manager
apply_all [] m = m
apply_all (o ∷ os) m = apply_all os (apply o m)
