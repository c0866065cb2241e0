-- ===== src/Events/Model.antt =====
-- app/events/model.py: the record of an event, its categories and origins. A payload is the text
-- that is stored; its typing is not modelled.
use discord_personality_bot.Base.{ℕ, String, Bool, true, false, Option}

pub data Category : Type 0 where
  world social internal action knowledge system admin : Category

pub data Origin : Type 0 where
  real_discord virtual_life simulated_past by_admin by_system : Origin

pub data Rank : Type 0 where
  p0 p1 p2 p3 p4 p5 p6 p7 : Rank

pub record Event : Type 0 where
  pub event_id : ℕ
  pub event_type : String
  pub category : Category
  pub occurred_at : ℕ
  pub recorded_at : ℕ
  pub root_event_id : ℕ
  pub parent_event_id : Option ℕ
  pub priority : Rank
  pub origin : Origin
  pub payload : String

-- `category in NON_PSYCHOLOGICAL_CATEGORIES`
unfoldable pub is_non_psychological : Category → Bool
is_non_psychological system = true
is_non_psychological admin = true
is_non_psychological _ = false
