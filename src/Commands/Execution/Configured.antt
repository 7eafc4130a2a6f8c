-- ===== src/Commands/Execution/Configured.antt =====
-- internal/commands/commands.go: no request runs anything but a configured command.
use chirpstack_gateway_bridg.Prelude.{
  Bool-cases, then-eq, else-eq, Result, ok, err, Bytes, bytes_eq, bytes_eq_iff, nat_key, bytes_key,
  lookup, insert, lookup-insert, ◌≡◌, refl, sym, ap, ◌∙◌, ◌≢◌, ◌⊎◌, inl, inr, Option, none, some,
  List, [], ◌∷◌,
}
use chirpstack_gateway_bridg.Events.{copy_eui}
use chirpstack_gateway_bridg.Commands.CommandLine.{CommandLineError, parse_command_line}
use chirpstack_gateway_bridg.Commands.Execution.{
  Command, ExecRequest, Process, ExecError, OperatingSystem, setup_from, setup_commands, added,
  run_args, run_parsed, run_command, execute, response, execute_command,
}

-- One command of the list, under its name.
abbrev pub IsListed : Bytes → Command → List (Bytes × Command) → Type 0
IsListed k c [] = ⊥
IsListed k c (entry ∷ confs) = (entry ≡ (k, c)) ⊎ IsListed k c confs

command_or : Command → Option Command → Command
command_or d none = d
command_or d (some c) = c

none≢some : (c : Command) → ◌≢◌ {A = Option Command} none (some c)
none≢some c e = cc

lookup-setup_from :
    (confs m : List (Bytes × Command)) (k : Bytes) (c : Command)
    → lookup k (setup_from confs m) ≡ some c
    → IsListed k c confs ⊎ (lookup k m ≡ some c)
unfolding setup_from command_or
lookup-setup_from [] m k c e = inr e
lookup-setup_from ((j, d) ∷ confs) m k c e = elim (lookup-setup_from confs (insert j d m) k c e) [
  | inl h ↦ inl (inr h)
  | inr h ↦ elim (Bool-cases (bytes_eq j k)) [
    | inl same ↦ inl (
        inl (
          ap (λ i. (i, d)) ((bytes_eq_iff j k).0 same)
          ∙ ap (λ o. (k, command_or d o))
              (then-eq (bytes_eq j k) _ _ same (sym (lookup-insert j k d m) ∙ h))))
    | inr other ↦ inr (else-eq (bytes_eq j k) _ _ other (sym (lookup-insert j k d m) ∙ h))
  ]
]

-- The processes of a request: none, or the one of a configured command of the requested name.
abbrev pub RunsConfigured : List (Bytes × Command) → ExecRequest → List Process → Type 0
RunsConfigured confs r processes =
    (processes ≡ [])
    ⊎ ((c : Command) × (args : List Bytes) × IsListed r.command_name c confs
        × (parse_command_line c.command_line ≡ ok args)
        × (processes
            ≡ record {
              args = args;
              process_stdin = r.stdin;
              added_environment = added r.environment;
              deadline = c.max_execution_duration;
            }
              ∷ []))

run_parsed-RunsConfigured :
    (os : OperatingSystem) (confs : List (Bytes × Command)) (r : ExecRequest) (c : Command)
    (m : Result CommandLineError (List Bytes))
    → IsListed r.command_name c confs
    → parse_command_line c.command_line ≡ m
    → RunsConfigured confs r (run_parsed os r c m).1
unfolding run_parsed run_args
run_parsed-RunsConfigured os confs r c (err e) h p = inl refl
run_parsed-RunsConfigured os confs r c (ok []) h p = inl refl
run_parsed-RunsConfigured os confs r c (ok (program ∷ words)) h p =
    inr (c, program ∷ words, h, p, refl)

run_command-RunsConfigured :
    (os : OperatingSystem) (confs : List (Bytes × Command)) (r : ExecRequest) (o : Option Command)
    → lookup r.command_name (setup_commands confs) ≡ o
    → RunsConfigured confs r (run_command os r o).1
unfolding run_command setup_commands lookup
run_command-RunsConfigured os confs r none e = inl refl
run_command-RunsConfigured os confs r (some c) e =
    elim (lookup-setup_from confs [] r.command_name c e) [
      | inl h ↦ run_parsed-RunsConfigured os confs r c (parse_command_line c.command_line) h refl
      | inr h ↦ absurd (none≢some c h)
    ]

response-ids :
    (os : OperatingSystem) (r : ExecRequest) (m : Result ExecError (Bytes × Bytes))
    → ((response os r m).gateway_id ≡ r.gateway_id) × ((response os r m).exec_id ≡ r.exec_id)
unfolding response
response-ids os r (ok (out, errors)) = (refl, refl)
response-ids os r (err e) = (refl, refl)

-- With the configured commands, a request runs no process, or one: a configured command of the requested name, with the words
-- of its command line as its arguments and the requested input and environment. In any case it is answered by an event of its gateway, with
-- the identifiers of the request.
pub execute_command-RunsConfigured :
    (os : OperatingSystem) (confs : List (Bytes × Command)) (r : ExecRequest)
    → RunsConfigured confs r (execute_command os (setup_commands confs) r).1
      × ((execute_command os (setup_commands confs) r).0.0 ≡ copy_eui r.gateway_id)
      × ((execute_command os (setup_commands confs) r).0.1.gateway_id ≡ r.gateway_id)
      × ((execute_command os (setup_commands confs) r).0.1.exec_id ≡ r.exec_id)
unfolding execute_command execute
execute_command-RunsConfigured os confs r =
    let o = lookup r.command_name (setup_commands confs) in
    let (g, e) = response-ids os r (run_command os r o).0 in
    (run_command-RunsConfigured os confs r o refl, refl, g, e)
