-- ===== src/Bus.antt =====
-- shelldon/core/bus/server.py: the hub's registry and its routing, with the actors, the kinds and the
-- routing table of shelldon/contracts/__init__.py. A connection is a number. A write to it fails with
-- an OSError when the connection is gone, which an argument tells. `Body` is the type of the bodies.
pub mod Routing
pub mod Samples
use shelldon.Base.{
  ℕ, Option, none, some, Bool, true, false, not, ◌&&◌, ◌||◌, String, List, [], ◌∷◌, ◌++◌, ◌==◌,
  if◌then◌else◌,
}

pub data Actor : Type 0 where
  core broker worker chat_transport display plugin_host : Actor

pub data MsgKind : Type 0 where
  job result completion inbound_msg outbound_msg state_snapshot event : MsgKind

-- Two actors are the same member when their places are equal.
unfoldable pub place : Actor → ℕ
place core = 0
place broker = 1
place worker = 2
place chat_transport = 3
place display = 4
place plugin_host = 5

pub record Envelope (Body : Type 0) : Type 0 where
  pub id : String
  pub kind : MsgKind
  pub src : Actor
  pub dst : Option Actor
  pub body : Body
  pub turn_id : Option String

-- ROUTING_TABLE, of the kinds that go from point to point.
unfoldable pub routing_table : MsgKind → Option Actor
routing_table job = some broker
routing_table result = some core
routing_table completion = some worker
routing_table inbound_msg = some core
routing_table outbound_msg = some chat_transport
routing_table state_snapshot = some display
routing_table event = none

-- `_registry`, `core_inbox`, and the frames written to the connections.
pub record Hub (Body : Type 0) : Type 0 where
  pub registry : ℕ → Option ℕ
  pub core_inbox : List (Envelope Body)
  pub written : List (ℕ × Envelope Body)

unfoldable pub is_event : MsgKind → Bool
is_event event = true
is_event job = false
is_event result = false
is_event completion = false
is_event inbound_msg = false
is_event outbound_msg = false
is_event state_snapshot = false

is_held_by : Option ℕ → ℕ → Bool
is_held_by none c = false
is_held_by (some d) c = d == c

module _ {B : Type 0} where
  unfoldable pub new_hub : Hub B
  new_hub = record { registry = λ a. none; core_inbox = []; written = [] }

  -- `self._registry[actor] = writer`
  unfoldable pub register_client : Actor → ℕ → Hub B → Hub B
  unfolding place
  register_client a c h = record h { registry = λ b. if b == place a then some c else h.registry b }

  -- `if self._registry.get(actor) is writer: del self._registry[actor]`
  unfoldable pub deregister : Actor → ℕ → Hub B → Hub B
  unfolding place is_held_by
  deregister a c h =
      if is_held_by (h.registry (place a)) c
      then record h { registry = λ b. if b == place a then none else h.registry b }
      else h

  -- `_deliver_to`; `gone` tells which connections fail.
  unfoldable pub deliver_to : (ℕ → Bool) → Actor → Envelope B → Hub B → Hub B
  unfolding place deregister
  deliver_to gone a env h = elim (h.registry (place a)) [
    | none ↦ h
    | some c ↦
        if gone c then deregister a c h else record h { written = h.written ++ (c, env) ∷ [] }
  ]

  enqueue : Envelope B → Hub B → Hub B
  enqueue env h = record h { core_inbox = h.core_inbox ++ env ∷ [] }

  -- An envelope of a kind that goes from point to point.
  forward : (ℕ → Bool) → Option Actor → Envelope B → Hub B → Hub B
  unfolding enqueue deliver_to
  forward gone none env h = h
  forward gone (some core) env h = enqueue env h
  forward gone (some broker) env h = deliver_to gone broker env h
  forward gone (some worker) env h = deliver_to gone worker env h
  forward gone (some chat_transport) env h = deliver_to gone chat_transport env h
  forward gone (some display) env h = deliver_to gone display env h
  forward gone (some plugin_host) env h = deliver_to gone plugin_host env h

  -- `_route`, which `deliver` calls.
  unfoldable pub route : (ℕ → Bool) → Envelope B → Hub B → Hub B
  unfolding is_event place enqueue deliver_to forward routing_table
  route gone env h =
      let sent = deliver_to gone plugin_host env h in
      if is_event env.kind
      then (if place env.src == place core then sent else enqueue env sent)
      else forward gone (routing_table env.kind) env h

  -- The frames of all connections, in the order in which the hub routes them; a connection is gone
  -- from one frame on, so that each frame comes with the ones that fail by then.
  unfoldable pub route_all : List ((ℕ → Bool) × Envelope B) → Hub B → Hub B
  unfolding route
  route_all [] h = h
  route_all ((gone, env) ∷ es) h = route_all es (route gone env h)
