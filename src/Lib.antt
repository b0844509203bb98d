-- ===== src/Lib.antt =====
-- shelldon: the deterministic core of the pet.
--
-- The program is a set of processes around one core (shelldon/core): core owns the state and is
-- its only writer, admits one turn at a time, and spawns a worker for each; the scheduler proposes
-- turns of its own; sqlite holds what has to survive. The development models the parts that
-- decide, first each on its own, as functions on explicit states, and then core, which puts them
-- together: a handler of core is a function on the whole state, with its raises.
--
--   Base       texts, tables, instants, results and the tests that the others share
--   Arbiter    shelldon/core/arbiter.py    Arbiter: submit, complete, reset
--   Fence      shelldon/core/turn.py       TurnFence: open, close, accept
--   Budget     shelldon/core/budget.py     BudgetGate, with TurnBudget of shelldon/core/state.py
--   Power      shelldon/core/power.py      BackoffPolicy: level, cadence_scale, skips
--   Cadence    shelldon/core/scheduler.py  Interval, Idle, Daily and QuietHours
--   Scheduler  shelldon/core/scheduler.py  Job and Scheduler: register, due, tick
--   History    shelldon/core/history.py    the store's tables, the conversation and the learnings
--   Parked     shelldon/core/history.py    parked approvals and promotions, the strike ledger
--   Display    shelldon/display/service.py the intake and render loops, with contracts' StateSnapshot
--   Broker     shelldon/broker/broker.py   retry and fallback; build_chain of shelldon/broker/chain.py
--   Plugins    shelldon/plugins/host.py    claims, fan-out, and the handle a plugin draws through
--   Faces      shelldon/core/faces.py      select_face and FaceRegistry
--   Memory     shelldon/core/memory.py     CuratedMemory: the operations on the markdown tree
--   Bus        shelldon/core/bus/server.py the hub's registry and routing
--   Framing    shelldon/core/bus/frame.py  the length-prefixed frames on a stream
--   State      shelldon/core/state.py      the personality state: patches and checkpoint
--   Selfcode   shelldon/core/selfcode.py   self-written tools: staging, gate, promotion, quarantine
--   Runtime    shelldon/core/runtime.py    Core: turns, approvals, operations; shelldon/core/dispatch.py
--   Worker     shelldon/worker/worker.py   the loop of tool calls; shelldon/worker/tools.py: one call
--   Timeouts   shelldon/timeouts.py        the three turn timeouts
--   Xp         shelldon/plugins/xp.py      the experience plugin
--   Reactions  shelldon/core/reactions.py  compute_nudge_patch
--
-- An inbound message goes through the arbiter, which starts a turn or keeps the message for the
-- catch-up turn; the fence admits the worker's Result for the open turn alone. A tick of the
-- scheduler reads the power level, marks each due job and runs it; a turn job that the backoff
-- lets through is proposed to core, where the budget gate decides. The worker's job goes to the
-- broker, which tries its providers in order. Core and the plugins push snapshots to the display,
-- each to regions of its own; the display shows the newest of each region. A method of a class is
-- a function from the object to the new object and the result, an exception is a value, a file
-- operation that may fail has its fate as an argument, and a method that the source overrides is
-- one function by cases. Core's statements are in a monad of state and exceptions whose state
-- survives a raise; the fates of a step's calls are a list that the step consumes, and the
-- theorems hold for every such list. A run of core is a list of steps in any order: an envelope of
-- the inbox, or a timer.
--
-- Numbers are natural numbers. Instants are microseconds since the epoch; the time zone is a
-- function from an instant to what the wall clock shows. Floats are thousandths. Nothing here
-- needs fuel: every loop is a recursion over a list, but for the reader of frames, which is asked
-- for at most `n` of them, and its theorem holds for every `n` that is large enough.
--
-- The worker's loop runs at most seven rounds, so that it recurses on the rounds that are left; that
-- it returns before they run out is a theorem. The broker's answers and the time of each round are
-- functions of the round.
--
-- Not modelled: of the worker (shelldon/worker), its prompt, its tools and their guards, the
-- patterns by which it reads a reply, and the process that forks it, the drift of the mood
-- (shelldon/core/reflexes.py), whose patch the runtime is given, and the texts of the prompts of
-- self-initiated turns (shelldon/core/proactive.py); what runs while a handler of core waits;
-- sockets, processes and files, the remote providers, the chat transports, the panel and its
-- drivers (a copy of the vendor's), the full-text search of sqlite, log lines.
pub mod Base
pub mod Arbiter
pub mod Fence
pub mod Budget
pub mod Power
pub mod Cadence
pub mod Scheduler
pub mod History
pub mod Parked
pub mod Display
pub mod Broker
pub mod Plugins
pub mod Faces
pub mod Bus
pub mod Timeouts
pub mod Xp
pub mod Reactions
pub mod Memory
pub mod Framing
pub mod State
pub mod Selfcode
pub mod Runtime
pub mod Worker
