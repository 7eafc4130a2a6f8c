-- ===== src/Tests/DispatchTests.antt =====
-- The theorems on commands of the network-server and on metadata.
use chirpstack_gateway_bridg.Prelude.{
  ok, err, Bytes, codes, nat_key, bytes_key, ℕ, ◌≡◌, refl, true, none, some, List, [], ◌∷◌, ◌++◌,
}
use chirpstack_gateway_bridg.Prelude.Int.{pos}
use chirpstack_gateway_bridg.Events.{copy_eui}
use chirpstack_gateway_bridg.Commands.Execution.{
  Command, ExecRequest, OperatingSystem, setup_commands, execute_command,
}
use chirpstack_gateway_bridg.Commands.Execution.Configured.{
  RunsConfigured, execute_command-RunsConfigured,
}
use chirpstack_gateway_bridg.Metadata.{Runner}
use chirpstack_gateway_bridg.Mqtt.Dispatch.{
  downlink_frame, gateway_configuration, exec_request, unmarshal_message_error, Decoders,
  handle_command,
}
use chirpstack_gateway_bridg.Mqtt.Dispatch.Topics.{is_free, free, handle_command-append}
use chirpstack_gateway_bridg.Tests.{mac}

abbrev operating_system : OperatingSystem
operating_system = record {
  run_process = λ p. ok (codes "done", []);
  error_text = λ e. codes "error";
}

abbrev configured : List (Bytes × Command)
configured =
    (codes "reboot", record { command_line = codes "reboot -f"; max_execution_duration = pos 5 })
    ∷ []

abbrev request : ExecRequest
request = record {
  gateway_id = mac;
  exec_id = 7 ∷ [];
  command_name = codes "reboot";
  stdin = [];
  environment = (codes "A", codes "1") ∷ [];
}

execute_command_example :
    RunsConfigured configured request
      (execute_command operating_system (setup_commands configured) request).1
    × ((execute_command operating_system (setup_commands configured) request).0.0 ≡ copy_eui mac)
    × ((execute_command operating_system (setup_commands configured) request).0.1.gateway_id ≡ mac)
    × ((execute_command operating_system (setup_commands configured) request).0.1.exec_id ≡ 7 ∷ [])
execute_command_example = execute_command-RunsConfigured operating_system configured request

abbrev runner : Runner
runner = record { output = λ words. some (codes "42"); is_valid_utf8 = λ out. true }

abbrev fixed_values : List (Bytes × Bytes)
fixed_values = (codes "serial", codes "1") ∷ (codes "temperature", codes "0") ∷ []

abbrev value_commands : List (Bytes × Bytes)
value_commands = (codes "temperature", codes "sensors now") ∷ []

abbrev decoders : Decoders ℕ ℕ ℕ ℕ
decoders = record {
  decode_downlink = λ bs. some 1;
  decode_configuration = λ bs. some 2;
  decode_exec = λ bs. some 3;
  decode_raw = λ bs. none;
}

handle_command_example :
    (handle_command decoders (codes "gateway/1" ++ codes "/command/down") []
      ≡ ok (downlink_frame 1))
    × (handle_command decoders (codes "gateway/1" ++ codes "/command/config") []
        ≡ ok (gateway_configuration 2))
    × (handle_command decoders (codes "gateway/1" ++ codes "/command/exec") []
        ≡ ok (exec_request 3))
    × (handle_command decoders (codes "gateway/1" ++ codes "/command/raw") []
        ≡ err unmarshal_message_error)
unfolding is_free
handle_command_example =
    handle_command-append decoders (codes "gateway/1") [] (free (codes "gateway/1") refl)
