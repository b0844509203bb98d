-- ===== src/Runtime.antt =====
-- shelldon/core/runtime.py: the turn orchestrator. `Core` holds what governs turns (`Control`: the
-- fence, the arbiter, the timeout, the reap task and the stashes of the turn in flight) and all the
-- rest (`Body`: the stores, the screen's bookkeeping, what was sent and spawned, and the calls'
-- fates). A handler runs from its start to its end: what another task may do while a handler waits
-- is not modelled. `Json` is the type of parsed arguments, `Bytes` that of encoded state. Code outside
-- the core is a field of `World`.
pub mod Exec
pub mod Screen
pub mod Ops
pub mod Tools
pub mod Turns
pub mod Approvals
pub mod Dispatch
pub mod Loop
pub mod Coherent
pub mod Frame
pub mod Watched
pub mod Digest
pub mod Inputs
pub mod Directive
pub mod Forks
pub mod Slot
pub mod Handling
pub mod Refinement
pub mod Refines
pub mod Admission
pub mod Settles
pub mod Handlers
pub mod Sound
pub mod Spending
pub mod Asking
pub mod Parking
pub mod Freed
pub mod Samples
use shelldon.Arbiter.{Arbiter}
use shelldon.Base.{ℕ, Option, Bool, String, List, [], ◌∷◌}
use shelldon.Base.Result.{Result, Error}
use shelldon.Base.Text.{Text, codes}
use shelldon.Base.Time.{Instant}
use shelldon.Broker.{ToolCall, Message}
use shelldon.Budget.{BudgetGate}
use shelldon.Display.{Region}
use shelldon.Faces.{Face}
use shelldon.Fence.{TurnFence}
use shelldon.History.{HistoryStore, Status}
use shelldon.Memory.{MemoryOp, Tree}
use shelldon.Plugins.{EventKind}
use shelldon.Selfcode.Imports.{Node}
use shelldon.Selfcode.{Workspace, StageFate, Process}
use shelldon.State.{PersistentState}

-- The operations that a worker may propose.
pub data ProposedOp (Json : Type 0) : Type 0 where
  memory_op : MemoryOp → ProposedOp Json
  add_face_op : Face → Bool → ProposedOp Json
  capture_learning_op : Text → Option Text → ProposedOp Json
  resolve_learning_op : ℕ → Status → ProposedOp Json
  request_tool_approval : ToolCall Json → Text → List (Message Json) → ProposedOp Json
  propose_tool : String → Text → Text → ProposedOp Json
  rewrite_directive : Text → ProposedOp Json

-- The worker's Result, without its error text, which the runtime never reads.
pub record WorkerResult (Json : Type 0) : Type 0 where
  pub is_ok : Bool
  pub payload : Text
  pub proposed_ops : List (ProposedOp Json)
  pub blurb : Text
  pub face : Text
  pub tool_failures : List String

-- The envelopes that core originates, by their bodies.
pub data Sent : Type 0 where
  outbound : Text → Option String → Sent
  snapshot : Region → ℕ → Text → Sent
  broadcast : EventKind → Sent

-- The workers that were to be forked. `Body` notes each with whether it was.
pub data Spawn (Json : Type 0) : Type 0 where
  fresh_turn : String → Text → Spawn Json
  resumed : String → List (Message Json) → ToolCall Json → Bool → Spawn Json

-- What surrounds the core. `hex n` is the n-th id that `uuid4` gives; what the file system, the
-- parser and pytest do with a turn's proposal is given by the turn's id.
pub record World (Json Bytes : Type 0) : Type 0 where
  pub hex : ℕ → String
  pub encode : List (Message Json) → ToolCall Json → Bytes
  pub decode : Bytes → Option (List (Message Json) × ToolCall Json)
  pub content_args : Text → Json
  pub content_of : Json → Result Text
  pub normalize : Text → Text
  pub is_word : ℕ → Bool
  pub lower : Text → Text
  pub tool_normalize : String → String
  pub is_keyword : String → Bool
  pub parse : Text → Option (List Node)
  pub repr : Text → Text
  pub describe : Error → Text
  pub stage_fate : String → StageFate
  pub read_error : String → Option Text
  pub process : String → Process
  pub zone : Instant → ℕ
  pub budget : BudgetGate
  pub nudge_cooldown : ℕ

-- `luck` is what the next calls that can raise do, the first one first: true is a raise. When it is
-- used up, no call raises any more.
pub record Body (Json Bytes : Type 0) : Type 0 where
  pub history : HistoryStore Bytes
  pub memory : Tree
  pub faces : List Face
  pub tools : Workspace
  pub state : PersistentState
  pub last_face : Option Text
  pub last_caption : Option Text
  pub reaction_hold_until : ℕ
  pub seq : ℕ
  pub last_nudge : List (EventKind × ℕ)
  pub sent : List Sent
  pub spawned : List (Bool × Spawn Json)
  pub luck : List Bool
  pub now : Instant
  pub monotonic : ℕ

-- `timeout` is the turn whose timeout is armed; `minted` counts the ids drawn so far.
pub record Control : Type 0 where
  pub fence : TurnFence
  pub arbiter : Arbiter
  pub timeout : Option String
  pub reaping : Bool
  pub current_prompt : Option Text
  pub current_turn_id : Option String
  pub is_owner : Bool
  pub minted : ℕ

pub record Core (Json Bytes : Type 0) : Type 0 where
  pub control : Control
  pub body : Body Json Bytes

abbrev pub max_proposed_ops : ℕ
max_proposed_ops = 16

abbrev pub quarantine_strike_threshold : ℕ
quarantine_strike_threshold = 3

abbrev pub face_thinking : Text
face_thinking = codes "thinking"

abbrev pub face_reply : Text
face_reply = codes "happy"

abbrev pub face_degraded : Text
face_degraded = codes "cant-think"

abbrev pub degrade_text : Text
degrade_text = codes "…can't think right now…"

abbrev pub caption_max : ℕ
caption_max = 48

-- In microseconds.
abbrev pub reaction_dwell : ℕ
reaction_dwell = 60_000_000

abbrev pub reaction_faces : List Text
reaction_faces =
    codes "happy"
    ∷ codes "excited"
    ∷ codes "curious"
    ∷ codes "content"
    ∷ codes "grumpy"
    ∷ codes "sleepy"
    ∷ []
