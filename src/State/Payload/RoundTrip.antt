-- ===== src/State/Payload/RoundTrip.antt =====
-- A stored snapshot read back.
use discord_personality_bot.Base.{
  ℕ, String, ◌≡◌, refl, ap, ◌∙◌, inl, inr, ◌&&◌, Bool-cases, Option, none, some, Option-cases, [],
  ◌∷◌, Key, key_test, text_test, ◌==◌, if◌then◌else◌,
}
use discord_personality_bot.Base.Lists.{All, DistinctBy}
use discord_personality_bot.Base.Dict.{Dict, lookup, insert, lookup-insert}
use discord_personality_bot.State.Value.{StateValue}
use discord_personality_bot.State.Snapshot.{StateSnapshot, get}
use discord_personality_bot.State.Payload.{
  Entry, Payload, entry_of, or_empty, add_entry, add_entries, to_payload, restored, restore_keys,
  restore_domains, from_payload,
}
use discord_personality_bot.State.Payload.Nested.{
  key_of, lookup_absent, insert-All, insert-DistinctBy,
}

entry_at : String → String → Payload → Option Entry
entry_at d k payload = lookup k (or_empty (lookup d payload))

abbrev pub or_else {ℓ} : {A : Type ℓ} → Option A → Option A → Option A
or_else none o = o
or_else (some a) o = some a

abbrev pub map_some {ℓ κ} : {A : Type ℓ} {B : Type κ} → (A → B) → Option A → Option B
map_some f none = none
map_some f (some a) = some (f a)

entry_at-add :
    (d k d' k' : String) (e : Entry) (p : Payload)
    → entry_at d' k' (add_entry (d, k) e p)
      ≡ (if d == d' && k == k' then some e else entry_at d' k' p)
unfolding entry_at add_entry
entry_at-add d k d' k' e p = elim (Bool-cases (d == d')) [
  | inl same ↦ rw (lookup-insert d d') (
      rw same (
        rw (lookup-insert k k') (
          ap (λ x. if k == k' then some e else lookup k' (or_empty (lookup x p)))
            ((text_test.test_iff d d').0 same))))
  | inr other ↦ rw (lookup-insert d d') (rw other refl)
]

add_entries-lookup :
    (vs : Dict Key StateValue) (p : Payload) (d k : String)
    → DistinctBy key_of vs
    → entry_at d k (add_entries vs p)
      ≡ or_else (map_some entry_of (lookup (d, k) vs)) (entry_at d k p)
unfolding add_entries lookup
add_entries-lookup [] p d k h = refl
add_entries-lookup (((c, i), v) ∷ vs) p d k h =
    add_entries-lookup vs (add_entry (c, i) (entry_of v) p) d k h.1
    ∙ elim (Bool-cases (key_test.test (c, i) (d, k))) [
      | inl same ↦
          let eq : (c, i) ≡ (d, k) = (key_test.test_iff (c, i) (d, k)).0 same in
          rw (entry_at-add c i d k) (rw same (rw (lookup_absent (d, k) vs (rw eq at h.0)) refl))
      | inr other ↦ rw (entry_at-add c i d k) (rw other refl)
    ]

restore_keys-lookup :
    (c : String) (es : Dict String Entry) (acc : Dict Key StateValue) (d k : String)
    → DistinctBy key_of es
    → lookup (d, k) (restore_keys c es acc) ≡ (
        if c == d
        then or_else (map_some restored (lookup k es)) (lookup (d, k) acc)
        else lookup (d, k) acc)
unfolding restore_keys lookup
restore_keys-lookup c [] acc d k h = elim (Bool-cases (c == d)) [
  | inl s ↦ rw s refl
  | inr o ↦ rw o refl
]
restore_keys-lookup c ((i, e) ∷ es) acc d k h =
    restore_keys-lookup c es (insert (c, i) (restored e) acc) d k h.1 ∙ elim (Bool-cases (c == d)) [
      | inr other ↦ rw (lookup-insert {K = Key} (c, i) (d, k)) (rw other refl)
      | inl same ↦ elim (Bool-cases (i == k)) [
        | inl hit ↦
            let eq : i ≡ k = (text_test.test_iff i k).0 hit in
            rw (lookup-insert {K = Key} (c, i) (d, k))
              (rw (same, hit) (rw (lookup_absent k es (rw eq at h.0)) refl))
        | inr miss ↦ rw (lookup-insert {K = Key} (c, i) (d, k)) (rw (same, miss) refl)
      ]
    ]

-- The domains are distinct, and the keys of each.
abbrev IsNested : Payload → Type 0
IsNested p = DistinctBy key_of p × All (λ q. DistinctBy key_of q.1) p

or_empty-DistinctBy :
    (d : String) (p : Payload)
    → All (λ q. DistinctBy key_of q.1) p
    → DistinctBy key_of (or_empty (lookup d p))
unfolding lookup
or_empty-DistinctBy d [] h = tt
or_empty-DistinctBy d ((c, es) ∷ p) h = elim (Bool-cases (c == d)) [
  | inl same ↦ rw same h.0
  | inr other ↦ rw other (or_empty-DistinctBy d p h.1)
]

add_entries-IsNested :
    (vs : Dict Key StateValue) (p : Payload) → IsNested p → IsNested (add_entries vs p)
unfolding add_entries add_entry
add_entries-IsNested [] p h = h
add_entries-IsNested (((d, k), v) ∷ vs) p h =
    let es = insert k (entry_of v) (or_empty (lookup d p)) in
    let distinct : DistinctBy key_of es =
      insert-DistinctBy k (entry_of v) (or_empty (lookup d p)) (or_empty-DistinctBy d p h.1) in
    add_entries-IsNested vs (insert d es p) (
      insert-DistinctBy d es p h.0,
      insert-All (λ q. DistinctBy key_of q.1) d es p (λ j q. distinct) h.1,
    )

restore_domains-lookup :
    (p : Payload) (acc : Dict Key StateValue) (d k : String)
    → IsNested p
    → lookup (d, k) (restore_domains p acc)
      ≡ or_else (map_some restored (entry_at d k p)) (lookup (d, k) acc)
unfolding restore_domains lookup entry_at
restore_domains-lookup [] acc d k h = refl
restore_domains-lookup ((c, es) ∷ p) acc d k h =
    restore_domains-lookup p (restore_keys c es acc) d k (h.0.1, h.1.1)
    ∙ elim (Bool-cases (c == d)) [
      | inl same ↦
          let eq : c ≡ d = (text_test.test_iff c d).0 same in
          rw (restore_keys-lookup c es acc d k h.1.0)
            (rw same (rw (lookup_absent d p (rw eq at h.0.0)) refl))
      | inr other ↦ rw (restore_keys-lookup c es acc d k h.1.0) (rw other refl)
    ]

-- What a value is after it was stored: its moment of update stands for the one of creation, and no
-- run or event is known.
abbrev pub reread : StateValue → StateValue
reread v = record {
  value = v.value;
  confidence = v.confidence;
  version = v.version;
  created_at = v.updated_at;
  updated_at = v.updated_at;
  updated_by_run = none;
  updated_by_event = none;
}

-- A snapshot with distinct keys that is stored as a payload and read back gives, for every key,
-- what it held: no value where there was none, and otherwise the same value, confidence, version
-- and moment of update, with this moment as the one of creation and no run or event.
pub payload_round_trip :
    (s : StateSnapshot) (snapshot_id created_at : ℕ) (root_event_id : Option ℕ) (d k : String)
    → DistinctBy key_of s.values
    → get (from_payload snapshot_id created_at (to_payload s) root_event_id) (d, k)
      ≡ map_some reread (get s (d, k))
unfolding get from_payload to_payload entry_at lookup restored entry_of
payload_round_trip s snapshot_id created_at root_event_id d k h =
    restore_domains-lookup (add_entries s.values []) [] d k
      (add_entries-IsNested s.values [] (tt, tt))
    ∙ elim (Option-cases (lookup {K = Key} (d, k) s.values)) [
      | inl absent ↦ rw (add_entries-lookup s.values [] d k h) (rw absent refl)
      | inr (v, there) ↦ rw (add_entries-lookup s.values [] d k h) (rw there refl)
    ]
