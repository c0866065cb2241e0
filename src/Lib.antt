-- ===== src/Lib.antt =====
-- A verification library for the state core of the bot: how an event becomes changes of the state.
--
-- The program. An event (app/events/model.py) is stored, a run opens on a snapshot of the state, the
-- bus (app/events/bus.py) chooses the subscribers, and the dispatcher (app/events/dispatcher.py)
-- awaits each under a reserved delivery (app/storage/repositories/deliveries.py). The subscribers
-- return proposals. The arbitrator (app/state/arbitrator.py) screens, groups, merges and orders
-- them; the committer (app/state/committer.py) writes the accepted changes with optimistic
-- versions in one transaction (app/storage/database.py). The processor
-- (app/orchestrator/processor.py) composes these steps, closes a run on every error, and reprocesses
-- the event on a fresh snapshot when the commit lost a version race. The resource manager
-- (app/reliability/resources.py) admits the work of all this to the one local model by priority. The
-- scheduler (app/jobs/scheduler.py) makes opportunities for background work. Before any of it, the
-- first boot (app/firstboot) generates a life once, audits it, lands it in the present, and only
-- then opens the bot to its user. The consolidation (app/consolidation) turns evidence of many events
-- into small changes of the personality and of the priorities of the values. The memory (app/memory)
-- recalls in stages: candidates are judged by the model, those that pass a gate are selected by how
-- easily they come to mind, and only what a reply uses is practised. The agency (app/agency) keeps
-- habits, which cues fire, and chooses among actions by their expected values.
--
-- The files.
--   Base, Number, Text: tests, lists, Python's dict and stable sort, floats, the order of texts.
--   State.Value, Ownership, Layers, Policy, Proposal, Snapshot: the modules of app/state so named
--     (Layers is dependency_graph.py). State.Payload: the stored form of a snapshot, with its proofs.
--   State.Arbitrator: arbitrator.py; Screen is _screen, Groups is _group, Resolve is
--     _resolve_group, and Overflow is where it raises OverflowError. State.Arbitration: its proofs.
--   State.Committer: committer.py. State.Committed: its proofs.
--   Events.Model, Bus, Dispatcher: app/events. Events.Failing, Dispatching, Routing: proofs.
--   Storage.Tables, Database, StateTable, Deliveries, Runs, EventTable: database.py and the
--     repositories of app/storage/repositories that a run writes. Storage.Effects, Atomic,
--     Recording, Delivering, Recovery: proofs.
--   Orchestrator.Outcome, RunLog, Processor: processor.py. Orchestrator.Processing: proofs.
--   Reliability.Resources: resources.py, with its proofs in the child modules.
--   Ids: app/ids.py, with its proofs in the child modules.
--   Jobs.Scheduler: app/jobs/scheduler.py, the jobs of app/world/models.py and their table in
--     app/storage/repositories/world.py, with the proofs in the child modules.
--   Jobs.Proactive: app/jobs/proactive.py, its use in app/runtime/proactive.py, the contacts of
--     app/storage/repositories/world.py and the policy of app/world/policy.py: whether the bot
--     writes first.
--   FirstBoot.Status, Preflight, Orchestrator, Landing: app/firstboot (Landing is _land and
--     _final_consistency), with the rows of app/storage/repositories/firstboot.py in Store, and the
--     commands of app/main.py in History. Machine is the documented state machine, Holding the
--     lease; the other modules are proofs.
--   Consolidation.Dynamics, Gate, Growth, Adaptations, Job, Drift: modules of app/consolidation so
--     named (Gate is deep_gate.py, and Scanning is the first half of job.py); Candidates and Ledger
--     are tables of app/storage/repositories/growth.py; Values is redistribute of values.py, Shifts is
--     apply_committed of its engine, and Mirror is handle of adaptations.py. The child modules are proofs.
--   Agency.Habits, Decision: habits.py and decision.py of app/agency, with their tables in
--     app/storage/repositories/agency.py. The child modules are proofs.
--   Memory.Tokens, Relevance, Selection, Practice: the stages of a recall in app/memory: the words
--     and the labels of relevance.py, selection.py with retrieval.py, and recall,
--     mark_used_in_reply and the record of engine.py with their table in
--     app/storage/repositories/memory.py. Gate, Conservation and the child of Practice are proofs.
--   Tests: concrete runs, and each theorem applied at one.
--
-- State and errors. A call that may raise or write is a function from a `World` (tables, open
-- transaction, supply of identifiers, reads of the clock) to a result and the world after it; what
-- was written before an exception stays unless a transaction rolls it back. The subscribers and the
-- interpreter are parameters: a call of one returns any reply and any world, since other tasks
-- write while it is awaited. A theorem that needs them to leave the values of the state alone says
-- so by `LeavesState`. A synchronous unit of work is one step. The constraints of the history of
-- changes (a stored run, a stored event, a proposal of its own) raise; of event_deliveries, that
-- the event is stored is not checked, since process stores an event before it is dispatched.
-- Cancellation, of a subscriber or of a task, is not modelled but in Reliability. The first boot
-- has a store of its own, and its generation, its audits and its promotion of the survivors are
-- calls that return any store and may raise. Reads of the clock
-- whose result is not used are left out there; its list of moves is no state of the program, and
-- serves the statements.
--
-- Bounds. The attempts of `process` are recursion on their number, which the configuration gives;
-- no definition takes fuel. A float is a multiple of 1e-9, an infinity or NaN: the epsilon of the
-- arbitrator is one unit, and sums are exact, where Python rounds to 53 bits. An integer is a
-- number of units too; a row stores it as a float, rounded to 53 bits beyond 2^53, and from 2^1024
-- on the write raises. A set of such an integer, or adjusts whose sum grows as large, make the
-- arbitrator raise. The consolidation keeps values that it rounds to six digits: there they are
-- numbers of millionths, and a product is exact until it is rounded, to the even one of two
-- neighbours. Of the memory, an accessibility is a number of 1e-12 and exact, and an availability
-- is rounded to millionths. The recency of a memory, the power in the gain of a practice and the
-- draws of the random stream are arguments.
--
-- Not modelled. Outside Ids, identifiers are numbers from a supply; instants are numbers. The texts
-- of errors, rejections and reports, JSON encoding, the typing of payloads, the manifest and the
-- fingerprint of a run, and queries that only read for display are left out. Logging is left out.
-- Of the agency, goals and plans are not modelled; of the memory, the search for candidates is an
-- argument; a retriever without a reranker, which the engine never makes, and the segmentation of a
-- conversation, encoding, forgetting, semantic memory and revision are not modelled. Nor are the
-- psychology, the conversation, the social and the simulated world, the generation of a life, and
-- the interfaces.
pub mod Base
pub mod Number
pub mod Text
pub mod Ids
pub mod State
pub mod Events
pub mod Storage
pub mod Orchestrator
pub mod Reliability
pub mod Jobs
pub mod Tests
pub mod FirstBoot
pub mod Consolidation
pub mod Agency
pub mod Memory
