-- ===== src/Jobs/Proactive.antt =====
-- app/jobs/proactive.py, the deliberation of app/runtime/proactive.py with the modes of
-- app/runtime/shadow.py, and the contacts of app/storage/repositories/world.py: whether the bot may
-- and wants to write first. The replies of the models, of the guard and of the sender are data.
-- Instants are seconds, the factor of the waiting time is in thousandths, and the desire is in units
-- of 1e-11, so that the weights are whole. A number of the state that is not finite, which no accepted
-- change has, reads as one that is missing.
pub mod Silence
pub mod Spacing
pub mod Sending
use Prim.Native.Nat.{◌/◌, ◌%◌}
use discord_personality_bot.Base.{
  ℕ, zero, suc, ◌+◌, ◌*◌, ◌-◌, String, Bool, true, false, not, ◌&&◌, ◌||◌, Option, none, some, List,
  [], ◌∷◌, ◌++◌, ltb, leb, text_test, ◌==◌, nat_beq, if◌then◌else◌,
}
use discord_personality_bot.Base.Int.{ℤ, pos, negsuc, pos_part, neg_part}
use discord_personality_bot.Number.{Float, fin, inf, neg_inf, nan}
use discord_personality_bot.State.Snapshot.{StateSnapshot, number_of}

-- A row of `proactive_contacts`.
pub record Contact : Type 0 where
  pub contact_id : ℕ
  pub opportunity : String
  pub sent_at : ℕ
  pub answered_at : Option ℕ

-- `unanswered_count`
unfoldable pub unanswered_count : List Contact → ℕ
unanswered_count [] = 0
unanswered_count (c ∷ cs) = (elim c.answered_at [ none ↦ 1 | some t ↦ 0 ]) + unanswered_count cs

abbrev pub later_of : ℕ → Option ℕ → ℕ
later_of t none = t
later_of t (some u) = if ltb t u then u else t

-- `last_contact_at`
unfoldable pub last_contact_at : List Contact → Option ℕ
last_contact_at [] = none
last_contact_at (c ∷ cs) = some (later_of c.sent_at (last_contact_at cs))

-- `record_contact`
unfoldable pub record_contact : ℕ → String → ℕ → List Contact → List Contact
record_contact i opportunity now contacts =
    contacts
    ++ record { contact_id = i; opportunity = opportunity; sent_at = now; answered_at = none } ∷ []

-- `mark_answered`
unfoldable pub mark_answered : ℕ → List Contact → List Contact
mark_answered now [] = []
mark_answered now (c ∷ cs) =
    (elim c.answered_at [ none ↦ record c { answered_at = some now } | some t ↦ c ])
    ∷ mark_answered now cs

-- `ProactivePolicy`
pub record ProactivePolicy : Type 0 where
  pub min_seconds_between_contacts : ℕ
  pub max_unanswered : ℕ
  pub backoff_thousandths : ℕ
  pub quiet_from : ℕ
  pub quiet_until : ℕ
  pub base_threshold : ℕ

-- The two sides of `moment - last < required_wait`, both times 1000 to the power of the unanswered.
unfoldable pub required : ℕ → ℕ → ℕ → ℕ
required wait factor zero = wait
required wait factor (suc unanswered) = factor * required wait factor unanswered

unfoldable pub elapsed : ℕ → ℕ → ℕ
elapsed seconds zero = seconds
elapsed seconds (suc unanswered) = 1000 * elapsed seconds unanswered

unfoldable pub too_soon : ProactivePolicy → ℕ → Option ℕ → ℕ → Bool
too_soon policy unanswered none moment = false
too_soon policy unanswered (some last) moment =
    ltb moment last
    || ltb (elapsed (moment - last) unanswered)
        (required policy.min_seconds_between_contacts policy.backoff_thousandths unanswered)

-- `_in_quiet_hours`
unfoldable pub in_quiet_hours : ProactivePolicy → ℕ → Bool
in_quiet_hours policy moment =
    let hour = moment / 3600 % 24 in
    if leb policy.quiet_from policy.quiet_until
    then leb policy.quiet_from hour && ltb hour policy.quiet_until
    else leb policy.quiet_from hour || ltb hour policy.quiet_until

-- `view.number(…, default) or default`: a zero reads as the default.
unfoldable pub or_default : ℤ → Option Float → ℤ
or_default default none = default
or_default default (some (fin (pos zero))) = default
or_default default (some (fin x)) = x
or_default default (some _) = default

-- The desire before it is clamped: what speaks for contact, and what against it.
unfoldable pub pull : ℤ → ℤ → ℤ → ℤ → ℕ → ℕ
pull connection loneliness closeness solitude urgency =
    45 * pos_part connection
    + 35 * pos_part loneliness
    + 20 * pos_part closeness
    + 30 * neg_part solitude
    + 15 * urgency

unfoldable pub push : ℤ → ℤ → ℤ → ℤ → ℕ
push connection loneliness closeness solitude =
    45 * neg_part connection
    + 35 * neg_part loneliness
    + 20 * neg_part closeness
    + 30 * pos_part solitude

abbrev min : ℕ → ℕ → ℕ
min a b = if ltb b a then b else a

unfoldable pub desire : StateSnapshot → ℕ → ℕ
unfolding or_default pull push
desire s urgency =
    let loneliness = or_default (pos 0) (number_of s ("needs", "loneliness") none) in
    let connection = or_default (pos 0) (number_of s ("needs", "connection_desire") none) in
    let closeness =
      or_default (pos 300000000) (number_of s ("relationship", "emotional_closeness") none) in
    let solitude = or_default (pos 0) (number_of s ("needs", "solitude_desire") none) in
    min 100000000000 (
      pull connection loneliness closeness solitude urgency
      - push connection loneliness closeness solitude)

pub data Assessment : Type 0 where
  too_many_unanswered too_soon_after_last not_available nothing_pressing : Assessment
  allowed : ℕ → Assessment

-- `assess`, on the count and the last moment that it reads.
unfoldable pub assess_from :
    ProactivePolicy → StateSnapshot → ℕ → Bool → ℕ → ℕ → Option ℕ → Assessment
assess_from policy s urgency awake moment unanswered last =
    if leb policy.max_unanswered unanswered
    then too_many_unanswered
    else if too_soon policy unanswered last moment
    then too_soon_after_last
    else if not awake || in_quiet_hours policy moment
    then not_available
    else if ltb (desire s urgency) (100 * policy.base_threshold)
    then nothing_pressing
    else allowed (desire s urgency)

-- `assess`
unfoldable pub assess : ProactivePolicy → StateSnapshot → ℕ → Bool → ℕ → List Contact → Assessment
unfolding assess_from
assess policy s urgency awake moment contacts =
    assess_from policy s urgency awake moment (unanswered_count contacts) (last_contact_at contacts)

abbrev pub is_allowed : Assessment → Bool
is_allowed (allowed d) = true
is_allowed _ = false

-- The mode of a capability: off, deliberating without acting, or acting.
pub data Mode : Type 0 where
  off shadow live : Mode

-- An occasion to write: its opportunity, the state, the mode, and the replies of the models, of the
-- guard and of the sender. `judgment` says whether there is something to say, if a judgment was made;
-- `draft` is the text and `clean` the verdict of the guard on it; `confirmed` is the instant at which
-- the contact is recorded and its identifier, if the sender gave a message.
pub record Occasion : Type 0 where
  pub snapshot : StateSnapshot
  pub urgency : ℕ
  pub moment : ℕ
  pub kind : String
  pub mode : Mode
  pub judgment : Option Bool
  pub draft : String
  pub clean : Bool
  pub confirmed : Option (ℕ × ℕ)

abbrev pub is_off : Mode → Bool
is_off off = true
is_off _ = false

-- How a deliberation ends.
pub data Ending : Type 0 where
  switched_off refused declined withheld unsent sent : Ending

unfoldable pub is_affirmative : Option Bool → Bool
is_affirmative none = false
is_affirmative (some wants) = wants

-- The verdict of the mode on a draft: `would_send` and the mode acts.
unfoldable pub acts : Mode → Bool → Bool
acts live would_act = would_act
acts _ would_act = false

-- `_send`: a contact is recorded once the message is confirmed.
unfoldable pub send : Occasion → List Contact → Ending × List Contact
send o contacts = elim o.confirmed [
  | none ↦ (unsent, contacts)
  | some (now, contact_id) ↦ (sent, record_contact contact_id o.kind now contacts)
]

-- `deliberate`, which leaves the user to be taken as awake.
unfoldable pub deliberate : ProactivePolicy → Occasion → List Contact → Ending × List Contact
unfolding send acts is_affirmative
deliberate policy o contacts =
    if is_off o.mode
    then (switched_off, contacts)
    else if not (is_allowed (assess policy o.snapshot o.urgency true o.moment contacts))
    then (refused, contacts)
    else if not (is_affirmative o.judgment)
    then (declined, contacts)
    else if not (acts o.mode (not (o.draft == "") && o.clean))
    then (withheld, contacts)
    else send o contacts

-- Occasions one after another, without a reply between them.
unfoldable pub write_on : ProactivePolicy → List Occasion → List Contact → List Contact
write_on policy [] contacts = contacts
write_on policy (o ∷ occasions) contacts =
    write_on policy occasions (deliberate policy o contacts).1
