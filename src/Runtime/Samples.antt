-- ===== src/Runtime/Samples.antt =====
-- A world in which ids are runs of one letter and state is stored as it is, and a conversation in it.
use shelldon.Base.{
  ℕ, zero, suc, none, some, true, false, String, List, [], ◌∷◌, ◌≡◌, refl, sym, ap, ◌∙◌, All, take,
  arith,
}
use shelldon.Arbiter.{new_arbiter}
use shelldon.Base.Result.{ok}
use shelldon.Base.Text.{Text, codes}
use shelldon.Broker.{ToolCall, Message}
use shelldon.Cadence.{interval}
use shelldon.Fence.{new_fence, is_current}
use shelldon.History.{new_store}
use shelldon.Memory.{directive_name}
use shelldon.Runtime.{World, Body, Control, Core, WorkerResult, rewrite_directive, max_proposed_ops}
use shelldon.Runtime.Coherent.{at_rest, in_flight, other_id, IsGood, IsInjective}
use shelldon.Runtime.Directive.{directive, core_of, is_approval_of, run_directive}
use shelldon.Runtime.Freed.{handle_result_once, IsFreed, timeout_watch-IsFreed}
use shelldon.Runtime.Loop.{Input, inbound, result_of, timeout_of, Moment, running, step, run}
use shelldon.Runtime.Ops.{apply_proposed_ops}
use shelldon.Runtime.Parking.{ParksOnce, apply_proposed_ops-ParksOnce}
use shelldon.Runtime.Refinement.{IsMove, step-IsMove}
use shelldon.Runtime.Slot.{told}
use shelldon.Runtime.Sound.{IsSafe, runs, run-IsSafe}
use shelldon.Runtime.Spending.{Dispatched, dispatch_turn_job-Dispatched}
use shelldon.Runtime.Dispatch.{dispatch_turn_job}
use shelldon.Runtime.Turns.{handle_result, timeout_watch}
use shelldon.Scheduler.{Job, turn}
use shelldon.Selfcode.{written, timed_out}
use shelldon.State.{new_personality}

abbrev Json : Type 0
Json = Text

abbrev Bytes : Type 0
Bytes = List (Message Json) × ToolCall Json

abbrev letters : ℕ → String
letters zero = ""
letters (suc n) = String.◌∷◌ "a" (letters n)

abbrev count : String → ℕ
count String.[] = zero
count (String.◌∷◌ c s) = suc (count s)

count-letters : (n : ℕ) → count (letters n) ≡ n
count-letters zero = refl
count-letters (suc n) = ap suc (count-letters n)

letters-IsInjective : IsInjective letters
letters-IsInjective m n e = sym (count-letters m) ∙ (ap count e ∙ count-letters n)

abbrev world : World Json Bytes
world = record {
  hex = letters;
  encode = λ messages tool_call. (messages, tool_call);
  decode = λ bytes. some bytes;
  content_args = λ text. text;
  content_of = λ args. ok args;
  normalize = λ t. t;
  is_word = λ c. true;
  lower = λ t. t;
  tool_normalize = λ s. s;
  is_keyword = λ s. false;
  parse = λ t. none;
  repr = λ t. t;
  describe = λ e. codes "failed";
  stage_fate = λ t. record { has_dir = true; unlinks = (true, true); writes = (written, written) };
  read_error = λ t. none;
  process = λ t. timed_out;
  zone = λ t. t;
  budget = record { daily_turn_budget = 12; turn_cooldown = 1_800_000_000 };
  nudge_cooldown = 30_000_000;
}

abbrev body : Body Json Bytes
body = record {
  history = new_store;
  memory = (directive_name, codes "be kind") ∷ [];
  faces = [];
  tools = record { staging = []; live = []; quarantined = [] };
  state = record { state = new_personality; dirty = false };
  last_face = none;
  last_caption = none;
  reaction_hold_until = 0;
  seq = 0;
  last_nudge = [];
  sent = [];
  spawned = [];
  luck = [];
  now = 1000;
  monotonic = 5;
}

abbrev control : Control
control = record {
  fence = new_fence 64;
  arbiter = new_arbiter;
  timeout = none;
  reaping = false;
  current_prompt = none;
  current_turn_id = none;
  is_owner = false;
  minted = 0;
}

abbrev core : Core Json Bytes
core = record { control = control; body = body }

core-IsGood : IsGood letters control
unfolding new_fence new_arbiter is_current
core-IsGood = record {
  coherent = at_rest refl refl refl refl;
  fresh = record { not_closed = λ n h. refl; not_current = λ n h. refl };
}

core-IsSafe : IsSafe letters (running core)
core-IsSafe = runs core core-IsGood

abbrev calm : Moment
calm = record { luck = []; now = 2000; monotonic = 9 }

abbrev unlucky : Moment
unlucky = record { luck = true ∷ false ∷ true ∷ []; now = 3000; monotonic = 12 }

abbrev answer : WorkerResult Json
answer = record {
  is_ok = true;
  payload = codes "hello";
  proposed_ops = rewrite_directive (codes "be bold") ∷ [];
  blurb = [];
  face = codes "happy";
  tool_failures = [];
}

-- A message, a second one while the turn is in flight, its answer, and a timeout of the next turn.
abbrev talk : List (Moment × Input Json Bytes)
talk =
    (calm, inbound (codes "hi"))
    ∷ (calm, inbound (codes "there"))
    ∷ (unlucky, result_of (some "") answer)
    ∷ (calm, timeout_of "a")
    ∷ []

run-IsSafe_example : IsSafe letters (run world talk (running core))
run-IsSafe_example = run-IsSafe world letters-IsInjective talk (running core) core-IsSafe

step-IsMove_example :
    IsMove
      (told (codes "hi"))
      (running core)
      (step world (calm, inbound (codes "hi")) (running core))
unfolding shelldon.Runtime.Slot.given
step-IsMove_example = step-IsMove world (calm, inbound (codes "hi")) (running core) core-IsSafe

none_approves : All (λ s. is_approval_of s.1 ≡ false) talk
unfolding is_approval_of
none_approves = (refl, (refl, (refl, (refl, tt))))

run_directive_example : directive (core_of (run world talk (running core))) ≡ directive core
run_directive_example = run_directive world talk (running core) none_approves

-- Core with its second turn in flight, and a message that waits.
abbrev flying : Core Json Bytes
flying = record {
  control = record control {
    fence = record (new_fence 64) { current = some "a" };
    arbiter = record { worker_in_flight = true; pending = codes "there" ∷ [] };
    timeout = some "a";
    reaping = true;
    current_prompt = some (codes "hi");
    current_turn_id = some "a";
    is_owner = true;
    minted = 2;
  };
  body = body;
}

flying-IsGood : IsGood letters flying.control
unfolding new_fence is_current
flying-IsGood = record {
  coherent = in_flight "a" refl refl refl refl;
  fresh = record {
    not_closed = λ n h. refl;
    not_current = λ n h. other_id letters 1 n letters-IsInjective (omega arith);
  };
}

handle_result_once_example :
    (let l = (handle_result world (some "a") answer flying).1 in
      handle_result world (some "a") answer l ≡ (ok tt, l))
handle_result_once_example = handle_result_once world "a" answer answer flying flying-IsGood

timeout_watch-IsFreed_example : IsFreed "a" (timeout_watch world "a" flying).control
timeout_watch-IsFreed_example = timeout_watch-IsFreed world "a" flying flying-IsGood refl

abbrev musing : Job (Core Json Bytes)
musing = record {
  name = "proactive";
  cadence = interval 14_400;
  cost_tier = turn;
  run = none;
  cost = 1;
  prompt = some (codes "speak up");
  essential = false;
  prompt_builder = none;
  history_owner_text = some (codes "(shelldon spoke up on its own)");
}

dispatch_turn_job-Dispatched_example :
    Dispatched world musing core (dispatch_turn_job world musing core)
dispatch_turn_job-Dispatched_example = dispatch_turn_job-Dispatched world musing core

apply_proposed_ops-ParksOnce_example :
    ParksOnce world flying.control
      (take max_proposed_ops answer.proposed_ops)
      body
      (apply_proposed_ops world flying.control answer.proposed_ops body).1
apply_proposed_ops-ParksOnce_example =
    apply_proposed_ops-ParksOnce world flying.control answer.proposed_ops body
