-- ===== src/Commands/Execution.antt =====
-- `Setup`, `executeCommand` and `execute` of internal/commands/commands.go. A process is run by the operating system,
-- which is a parameter.
pub mod Configured
use chirpstack_gateway_bridg.Prelude.{
  ltb, leb, ◌==◌, if◌then◌else◌, ltb→lt, lt→ltb, leb→le, ==_iff, Bool-cases, Option-cases, is_some,
  then-eq, else-eq, length, get_or, take, drop, length-append, take-append, drop-append, take_all,
  length-take, take-append-drop, All, All-append, set_at, set_from, fill, set_from-fill, Pointwise,
  Result, ok, err, ◌>>=◌, map_err, >>=-eq-ok, ok-injective, or_fail, or_fail-eq-ok, Result-cases,
  guard-eq-ok, Bytes, AreBytes, codes, bytes_eq, bytes_eq_iff, put_u16_le, put_u32_be, from_be,
  u_be, Key, nat_key, bytes_key, beq_refl, lookup, insert, delete, lookup-insert, lookup-delete, ℕ,
  zero, suc, ◌+◌, ◌-◌, ◌*◌, ◌/◌, ◌%◌, ◌^◌, ◌≤◌, ◌<◌, ◌≡◌, refl, sym, ap, ◌∙◌, ◌≢◌, ◌↔◌, ◌⊎◌, inl,
  inr, Bool, true, false, not, ◌&&◌, ◌||◌, Option, none, some, List, [], ◌∷◌, ◌++◌, map, arith,
}
use chirpstack_gateway_bridg.Prelude.Int.{
  ℤ, pos, negsuc, negate, quotient, wrap, int64, mul_int64, is_zero_ℤ, int_sub, add_int,
  add_int-int_sub, sub_from, add_ℤ, sub_int, leb_ℤ, add_ℤ-sub_from,
}
use chirpstack_gateway_bridg.Events.{Subscribe, copy_eui}
use chirpstack_gateway_bridg.Commands.CommandLine.{
  Mode, start, quotes, arg, Parser, CommandLineError, unclosed_quote, parse_command_line,
}

pub record Command : Type 0 where
  pub command_line : Bytes
  pub max_execution_duration : ℤ

-- `gw.GatewayCommandExecRequest` and `gw.GatewayCommandExecResponse`
pub record ExecRequest : Type 0 where
  pub gateway_id : Bytes
  pub exec_id : Bytes
  pub command_name : Bytes
  pub stdin : Bytes
  pub environment : List (Bytes × Bytes)

pub record ExecResponse : Type 0 where
  pub gateway_id : Bytes
  pub exec_id : Bytes
  pub stdout : Bytes
  pub stderr : Bytes
  pub exec_error : Bytes

-- A process: its command with the arguments, its input, what is added to the environment, and its time.
pub record Process : Type 0 where
  pub args : List Bytes
  pub process_stdin : Bytes
  pub added_environment : List Bytes
  pub deadline : ℤ

pub data ExecError : Type 0 where
  command_does_not_exist no_command_is_given : ExecError
  parse_command_error : CommandLineError → ExecError
  -- An error of a pipe, of the start or of the end.
  process_error : Bytes → ExecError

-- The outcome of a process, its two outputs or an error, and `err.Error()`.
pub record OperatingSystem : Type 0 where
  pub run_process : Process → Result Bytes (Bytes × Bytes)
  pub error_text : ExecError → Bytes

-- `Setup`: the loop over the configured commands.
setup_from : List (Bytes × Command) → List (Bytes × Command) → List (Bytes × Command)
setup_from [] commands = commands
setup_from ((k, c) ∷ confs) commands = setup_from confs (insert k c commands)

unfoldable pub setup_commands : List (Bytes × Command) → List (Bytes × Command)
unfolding setup_from
setup_commands confs = setup_from confs []

-- `fmt.Sprintf("%s=%s", k, v)`
abbrev pub added : List (Bytes × Bytes) → List Bytes
added = map (λ kv. kv.0 ++ (codes "=" ++ kv.1))

module _ (os : OperatingSystem) where
  -- The two results, and the processes that were run.
  run_args : ExecRequest → Command → List Bytes → Result ExecError (Bytes × Bytes) × List Process
  run_args r c [] = (err no_command_is_given, [])
  run_args r c (program ∷ words) =
      let process : Process = record {
        args = program ∷ words;
        process_stdin = r.stdin;
        added_environment = added r.environment;
        deadline = c.max_execution_duration;
      } in
      (map_err process_error (os.run_process process), process ∷ [])

  run_parsed :
      ExecRequest
      → Command
      → Result CommandLineError (List Bytes)
      → Result ExecError (Bytes × Bytes) × List Process
  unfolding run_args
  run_parsed r c (err e) = (err (parse_command_error e), [])
  run_parsed r c (ok args) = run_args r c args

  run_command : ExecRequest → Option Command → Result ExecError (Bytes × Bytes) × List Process
  unfolding run_parsed
  run_command r none = (err command_does_not_exist, [])
  run_command r (some c) = run_parsed r c (parse_command_line c.command_line)

  -- `execute`
  unfoldable pub execute :
      List (Bytes × Command) → ExecRequest → Result ExecError (Bytes × Bytes) × List Process
  unfolding run_command
  execute commands r = run_command r (lookup r.command_name commands)

  response : ExecRequest → Result ExecError (Bytes × Bytes) → ExecResponse
  response r (ok (out, errors)) = record {
    gateway_id = r.gateway_id;
    exec_id = r.exec_id;
    stdout = out;
    stderr = errors;
    exec_error = [];
  }
  response r (err e) = record {
    gateway_id = r.gateway_id;
    exec_id = r.exec_id;
    stdout = [];
    stderr = [];
    exec_error = os.error_text e;
  }

  -- `executeCommand`: the event of the gateway, and the processes.
  unfoldable pub execute_command :
      List (Bytes × Command) → ExecRequest → (Bytes × ExecResponse) × List Process
  unfolding response
  execute_command commands r =
      let (result, processes) = execute commands r in
      ((copy_eui r.gateway_id, response r result), processes)
