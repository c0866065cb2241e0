-- ===== src/FirstBoot/History.antt =====
-- Commands one after another, each with an environment of its own, such as another process.
use discord_personality_bot.Base.{List, [], ◌∷◌}
use discord_personality_bot.Base.Lists.{All}
use discord_personality_bot.FirstBoot.Store.{LifeAnchors, Store}
use discord_personality_bot.FirstBoot.Machine.{IsLegal, IsLegal-refl, IsLegal-trans}
use discord_personality_bot.FirstBoot.Legal.{IsPolite, resume-Keeps, pause-Keeps, audit-Keeps}
use discord_personality_bot.FirstBoot.Starting.{start-Keeps}
use discord_personality_bot.FirstBoot.Orchestrator.{Environment, start, resume, pause, audit}

pub data Command : Type 0 where
  to_start : Environment → LifeAnchors → Command
  to_resume to_pause to_audit : Environment → Command

-- What `first-boot` does with a command (app/main.py).
unfoldable pub obey : Command → Store → Store
obey (to_start env anchors) s = (start env anchors s).1
obey (to_resume env) s = (resume env s).1
obey (to_pause env) s = (pause env s).1
obey (to_audit env) s = (audit env s).1

unfoldable pub history : List Command → Store → Store
unfolding obey
history [] s = s
history (c ∷ cs) s = history cs (obey c s)

abbrev env_of : Command → Environment
env_of (to_start env anchors) = env
env_of (to_resume env) = env
env_of (to_pause env) = env
env_of (to_audit env) = env

-- What the command awaits keeps to the machine.
abbrev pub IsPoliteCommand : Command → Type 0
IsPoliteCommand c = IsPolite (env_of c)

obey-IsLegal : (c : Command) (s : Store) → IsPoliteCommand c → IsLegal s (obey c s)
unfolding obey
obey-IsLegal (to_start env anchors) s p = (start-Keeps env p anchors).at s
obey-IsLegal (to_resume env) s p = (resume-Keeps env p).at s
obey-IsLegal (to_pause env) s p = (pause-Keeps env p).at s
obey-IsLegal (to_audit env) s p = (audit-Keeps env p).at s

-- Whatever commands (start, resume, pause, audit) are given in whatever order by whatever
-- processes, if what they await (the generation, the audits and the promotion) keeps to it too,
-- every write of a status is along an arrow of the state machine, the writes of an epoch lead
-- without a gap from its status before to its status after, and an epoch that has a run keeps that
-- run.
pub history-IsLegal :
    (cs : List Command) (s : Store) → All IsPoliteCommand cs → IsLegal s (history cs s)
unfolding history
history-IsLegal [] s h = IsLegal-refl s
history-IsLegal (c ∷ cs) s h =
    IsLegal-trans s (obey c s) (history cs (obey c s)) (obey-IsLegal c s h.0)
      (history-IsLegal cs (obey c s) h.1)
