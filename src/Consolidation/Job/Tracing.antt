-- ===== src/Consolidation/Job/Tracing.antt =====
-- Where the candidates of a run come from: from before it, or from its own moment.
use mathlib.Core.List.{Memᴰ}
use discord_personality_bot.Base.{
  ℕ, ◌-◌, ◌≡◌, ◌≢◌, ◌⊎◌, refl, inl, inr, String, true, Bool-cases, Option, some, Option-cases, List,
  [], ◌∷◌, ◌++◌, nat_beq, Key, text_test,
}
use discord_personality_bot.Base.Lists.{All, All-append, All-mono, members}
use discord_personality_bot.Consolidation.Dynamics.{Direction}
use discord_personality_bot.Consolidation.Candidates.{
  CandidateStatus, Candidate, expired, is_accumulating, open_candidate, create, change, resolve,
  all_accumulating,
}
use discord_personality_bot.Consolidation.Gate.{is_expired}
use discord_personality_bot.Consolidation.Adaptations.{Adaptation, Evidence, adaptation_named}
use discord_personality_bot.Consolidation.Scanning.{
  JobPolicy, Tallies, Row, scan_rows, in_order, observe_all,
}
use discord_personality_bot.Consolidation.Job.{
  Raising, Life, joined, raise_target, raise_targets, raise_tally, raise_candidates,
  tally_direction, deep_targets, turned, expire_each, expire_stale, prepare,
}

-- The same candidate, later: if it is open still, it was open.
pub record IsSame (b c : Candidate) : Type 0 where
  pub candidate_id : b.candidate_id ≡ c.candidate_id
  pub target_domain : b.target_domain ≡ c.target_domain
  pub target_key : b.target_key ≡ c.target_key
  pub direction : b.direction ≡ c.direction
  pub first_seen_at : b.first_seen_at ≡ c.first_seen_at
  pub open_before : is_accumulating c.status ≡ true → is_accumulating b.status ≡ true

abbrev pub IsKnown : List Candidate → Candidate → Type 0
IsKnown before c = (b : Candidate) × Memᴰ b before × IsSame b c

-- Known from before, or seen for the first and for the last time now.
abbrev pub IsTraced : List Candidate → ℕ → Candidate → Type 0
IsTraced before now c = IsKnown before c ⊎ ((c.first_seen_at ≡ now) × (c.last_seen_at ≡ now))

IsSame-refl : (c : Candidate) → IsSame c c
IsSame-refl c = record {
  candidate_id = refl;
  target_domain = refl;
  target_key = refl;
  direction = refl;
  first_seen_at = refl;
  open_before = λ h. h;
}

module _ (before : List Candidate) (now : ℕ) where
  change-IsTraced :
      (i : ℕ) (f : Candidate → Candidate) (rows : List Candidate)
      → ((c : Candidate) → IsTraced before now c → IsTraced before now (f c))
      → All (IsTraced before now) rows
      → All (IsTraced before now) (change i f rows)
  unfolding change
  change-IsTraced i f [] k h = tt
  change-IsTraced i f (c ∷ rows) k h = elim (Bool-cases (nat_beq c.candidate_id i)) [
    | inl q ↦ rw (change, q) (k c h.0, change-IsTraced i f rows k h.1)
    | inr q ↦ rw (change, q) (h.0, change-IsTraced i f rows k h.1)
  ]

  joined-IsTraced :
      (magnitude : ℕ) (es : List Evidence) (c : Candidate)
      → IsTraced before now c
      → IsTraced before now (joined now magnitude es c)
  unfolding joined
  joined-IsTraced magnitude es c (inl (b, m, same)) = inl (
    b,
    m,
    record {
      candidate_id = same.candidate_id;
      target_domain = same.target_domain;
      target_key = same.target_key;
      direction = same.direction;
      first_seen_at = same.first_seen_at;
      open_before = same.open_before;
    },
  )
  joined-IsTraced magnitude es c (inr (first, last)) = inr (first, refl)

  pub resolved-IsTraced :
      (i : ℕ) (status : CandidateStatus) (rows : List Candidate)
      → is_accumulating status ≢ true
      → All (IsTraced before now) rows
      → All (IsTraced before now) (resolve i status now rows)
  unfolding resolve
  resolved-IsTraced i status rows closed h =
      change-IsTraced i (λ c. record c { status = status; resolved_at = some now }) rows
        (λ c t. elim t [
          | inl (b, m, same) ↦ inl (
            b,
            m,
            record {
              candidate_id = same.candidate_id;
              target_domain = same.target_domain;
              target_key = same.target_key;
              direction = same.direction;
              first_seen_at = same.first_seen_at;
              open_before = λ h. absurd (closed h);
            },
          )
          | inr p ↦ inr p
        ])
        h

  raise_target-IsTraced :
      (name : String) (magnitude : ℕ) (es : List Evidence) (direction : Direction)
      (t : Key × Direction) (s : Raising)
      → All (IsTraced before now) s.rows
      → All (IsTraced before now) (raise_target now name magnitude es direction t s).rows
  unfolding raise_target create
  raise_target-IsTraced name magnitude es direction ((domain, key), sign) s h =
      let d = turned sign direction in
      elim (Option-cases (open_candidate domain key d s.rows)) [
        | inl p ↦
            rw (raise_target, p)
              (change-IsTraced s.next_id (joined now magnitude es)
                (s.rows ++ create s.next_id domain key d (some name) now ∷ [])
                (joined-IsTraced magnitude es)
                (All-append (IsTraced before now) s.rows
                  (create s.next_id domain key d (some name) now ∷ []) h (inr (refl, refl), tt)))
        | inr (c, p) ↦
            rw (raise_target, p)
              (change-IsTraced c.candidate_id (joined now magnitude es) s.rows
                (joined-IsTraced magnitude es) h)
      ]

  raise_targets-IsTraced :
      (name : String) (magnitude : ℕ) (es : List Evidence) (direction : Direction)
      (ts : List (Key × Direction)) (s : Raising)
      → All (IsTraced before now) s.rows
      → All (IsTraced before now) (raise_targets now name magnitude es direction ts s).rows
  unfolding raise_targets
  raise_targets-IsTraced name magnitude es direction [] s h = h
  raise_targets-IsTraced name magnitude es direction (t ∷ ts) s h =
      raise_targets-IsTraced name magnitude es direction ts
        (raise_target now name magnitude es direction t s)
        (raise_target-IsTraced name magnitude es direction t s h)

  module _ (policy : JobPolicy) where
    raise_tally-IsTraced :
        (adaptations : List Adaptation) (name : String) (es : List Evidence) (s : Raising)
        → All (IsTraced before now) s.rows
        → All (IsTraced before now) (raise_tally policy now adaptations name es s).rows
    unfolding raise_tally
    raise_tally-IsTraced adaptations name es s h = elim (Option-cases (tally_direction es)) [
      | inl p ↦ rw (raise_tally, p) h
      | inr (d, p) ↦ elim (Option-cases (adaptation_named name adaptations)) [
        | inl q ↦ rw (raise_tally, p, q) h
        | inr (a, q) ↦
            rw (raise_tally, p, q)
              (raise_targets-IsTraced name _ es d (deep_targets policy name) s h)
      ]
    ]

    raise_candidates-IsTraced :
        (adaptations : List Adaptation) (tallies : Tallies) (s : Raising)
        → All (IsTraced before now) s.rows
        → All (IsTraced before now) (raise_candidates policy now adaptations tallies s).rows
    unfolding raise_candidates
    raise_candidates-IsTraced adaptations [] s h = h
    raise_candidates-IsTraced adaptations ((name, es) ∷ tallies) s h =
        raise_candidates-IsTraced adaptations tallies (raise_tally policy now adaptations name es s)
          (raise_tally-IsTraced adaptations name es s h)

    expire_each-IsTraced :
        (cs rows : List Candidate)
        → All (IsTraced before now) rows
        → All (IsTraced before now) (expire_each policy now cs rows)
    unfolding expire_each
    expire_each-IsTraced [] rows h = h
    expire_each-IsTraced (c ∷ cs) rows h =
        elim (Bool-cases (is_expired policy.growth.gate (now - c.last_seen_at))) [
          | inl q ↦
              rw (expire_each, q)
                (expire_each-IsTraced cs (resolve c.candidate_id expired now rows)
                  (resolved-IsTraced c.candidate_id expired rows (λ h. cc h) h))
          | inr q ↦ rw (expire_each, q) (expire_each-IsTraced cs rows h)
        ]

    pub prepare-IsTraced :
        (clock : ℕ) (mood : Option ℕ) (rows : List Row) (life : Life)
        → All (IsTraced before now) life.ledger.candidates
        → All (IsTraced before now) (prepare policy clock now mood rows life).ledger.candidates
    unfolding prepare expire_stale
    prepare-IsTraced clock mood rows life h =
        let tallies = in_order (scan_rows policy mood rows []) in
        let adaptations = observe_all policy.adaptation clock tallies life.adaptations in
        let start : Raising = record {
          rows = life.ledger.candidates;
          next_id = life.next_id;
          raised = 0;
        } in
        let s = raise_candidates policy now adaptations tallies start in
        expire_each-IsTraced (all_accumulating s.rows) s.rows
          (raise_candidates-IsTraced adaptations tallies start h)

pub all_known : (now : ℕ) (rows : List Candidate) → All (IsTraced rows now) rows
all_known now rows =
    All-mono (λ c. Memᴰ c rows) (IsTraced rows now) rows (λ c m. inl (c, m, IsSame-refl c))
      (members rows)
