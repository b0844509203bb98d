-- ===== src/Runtime/Tools.antt =====
-- shelldon/core/runtime.py: a proposed tool's way through the gate, and the strikes of the tools that
-- failed.
use shelldon.Base.{
  ℕ, ◌-◌, none, some, Bool, true, false, not, String, List, [], ◌∷◌, ◌++◌, leb, length, drop,
  if◌then◌else◌,
}
use shelldon.Base.Result.{Result, ok, err, os_error}
use shelldon.Base.Text.{Text, codes, strip}
use shelldon.Parked.{park_promotion, record_tool_failure, default_ttl}
use shelldon.Runtime.{World, quarantine_strike_threshold}
use shelldon.Runtime.Exec.{Exec, done, modify, attempt, draw, perhaps, ◌>>=◌, ◌>>◌}
use shelldon.Runtime.Ops.{sql}
use shelldon.Runtime.Screen.{send_reply}
use shelldon.Selfcode.{Workspace, stage_tool, run_gate, discard_tool, promote_tool, quarantine_tool}

-- `output.strip()[-500:]`, or a note that there is none
unfoldable pub brief : Text → Text
brief output = or_no_output (drop (length (strip output) - 500) (strip output))
  where
    or_no_output : Text → Text
    or_no_output [] = codes "(no output)"
    or_no_output (c ∷ cs) = c ∷ cs

unfoldable pub quoted : String → Text
quoted name = codes "`" ++ (codes name ++ codes "`")

module _ {J B : Type 0} where
  unfoldable pub set_tools : Workspace → Exec J B (Unit {0})
  set_tools t = modify (λ b. record b { tools = t })

  unfoldable pub discard_staged : String → Exec J B (Unit {0})
  unfolding set_tools draw
  discard_staged stem = do
    first_fails ← draw
    second_fails ← draw
    λ b. set_tools (discard_tool (not first_fails) (not second_fails) stem b.tools) b

  -- The answer tells whether the tool was promoted.
  unfoldable pub promote_staged : String → Exec J B Bool
  unfolding set_tools draw
  promote_staged stem = do
    move_fails ← draw
    unlink_fails ← draw
    λ b.
        let end = promote_tool (not move_fails) (not unlink_fails) stem b.tools in
        (ok end.0, record b { tools = end.1 })

  unfoldable pub quarantine_live : String → Exec J B (Unit {0})
  unfolding set_tools draw
  quarantine_live name = do
    move_fails ← draw
    λ b. set_tools (quarantine_tool (not move_fails) name b.tools).1 b

  -- `run_gate` guards itself, but a raise of the parser is not excluded.
  unfoldable pub run_gate_on : World J B → String → String → Exec J B (Bool × Text)
  unfolding perhaps
  run_gate_on w turn_id stem = do
    perhaps
    λ b. (
      ok (
          run_gate w.parse w.repr (w.read_error turn_id) (w.describe os_error) (w.process turn_id)
            stem b.tools),
      b,
    )

  unfoldable pub offer_tool : String → String → Exec J B (Unit {0})
  unfolding sql send_reply quoted
  offer_tool turn_id stem = do
    λ b. sql (park_promotion turn_id stem b.now default_ttl) b
    send_reply
        (codes "I wrote a tool " ++ (quoted stem ++ codes " and it passed its test — add it?"))
        (some turn_id)

  unfoldable pub after_gate : String → String → Result (Bool × Text) → Exec J B (Unit {0})
  unfolding discard_staged send_reply offer_tool quoted brief
  after_gate turn_id stem (err e) = do
    discard_staged stem
    send_reply
        (codes "I wrote a tool "
          ++ (quoted stem ++ codes " but its check errored out, so I tossed it."))
        none
  after_gate turn_id stem (ok (false, output)) = do
    discard_staged stem
    send_reply
        (codes "I wrote a tool "
          ++ (quoted stem ++ (codes " but it failed its check, so I tossed it.\n" ++ brief output)))
        none
  after_gate turn_id stem (ok (true, output)) = offer_tool turn_id stem

  unfoldable pub after_stage : World J B → String → String → Result String → Exec J B (Unit {0})
  unfolding send_reply run_gate_on after_gate quoted
  after_stage w turn_id name (err e) =
      send_reply
        (codes "I tried to write a tool "
          ++ (quoted name ++ (codes " but couldn't stage it (" ++ (w.describe e ++ codes ")."))))
        none
  after_stage w turn_id name (ok stem) =
      λ b. let gate = run_gate_on w turn_id stem b in after_gate turn_id stem gate.0 gate.1

  -- The replies and the parked promotion are not guarded.
  unfoldable pub handle_propose_tool :
      World J B → String → String → Text → Text → Exec J B (Unit {0})
  unfolding after_stage
  handle_propose_tool w turn_id name source test b =
      let staged =
        stage_tool w.tool_normalize w.is_keyword (w.stage_fate turn_id) name source test b.tools in
      after_stage w turn_id name staged.0 (record b { tools = staged.1 })

  unfoldable pub strike : String → Exec J B ℕ
  unfolding perhaps
  strike name = do
    perhaps
    λ b.
        let counted = record_tool_failure name b.now b.history in
        (ok counted.1, record b { history = counted.0 })

  unfoldable pub strike_tool : String → Exec J B (Unit {0})
  unfolding strike quarantine_live
  strike_tool name = do
    strikes ← strike name
    if leb quarantine_strike_threshold strikes then quarantine_live name else done tt

  unfoldable pub handle_tool_failures : List String → Exec J B (Unit {0})
  unfolding strike_tool attempt
  handle_tool_failures [] = done tt
  handle_tool_failures (name ∷ names) = attempt (strike_tool name) >> handle_tool_failures names
