-- ===== src/Metadata.antt =====
-- internal/metadata/metadata.go: the metadata of the gateway, from fixed values and from the output of commands. Go visits
-- the entries of a map in any order, here that of the list.
pub mod Orders
use chirpstack_gateway_bridg.Prelude.{
  ltb, leb, ◌==◌, if◌then◌else◌, ltb→lt, lt→ltb, leb→le, ==_iff, Bool-cases, Option-cases, is_some,
  then-eq, else-eq, length, get_or, take, drop, length-append, take-append, drop-append, take_all,
  length-take, take-append-drop, All, All-append, set_at, set_from, fill, set_from-fill, Pointwise,
  Result, ok, err, ◌>>=◌, map_err, >>=-eq-ok, ok-injective, or_fail, or_fail-eq-ok, Result-cases,
  guard-eq-ok, Bytes, AreBytes, codes, bytes_eq, bytes_eq_iff, put_u16_le, put_u32_be, from_be,
  u_be, Key, nat_key, bytes_key, beq_refl, lookup, insert, delete, lookup-insert, lookup-delete, ℕ,
  zero, suc, ◌+◌, ◌-◌, ◌*◌, ◌/◌, ◌%◌, ◌^◌, ◌≤◌, ◌<◌, ◌≡◌, refl, sym, ap, ◌∙◌, ◌≢◌, ◌↔◌, ◌⊎◌, inl,
  inr, Bool, true, false, not, ◌&&◌, ◌||◌, Option, none, some, List, [], ◌∷◌, ◌++◌, map, arith,
}
use chirpstack_gateway_bridg.Commands.CommandLine.{
  Mode, start, quotes, arg, Parser, CommandLineError, unclosed_quote, parse_command_line,
}

-- What runs a command within the time it has, and `utf8.Valid`.
pub record Runner : Type 0 where
  pub output : List Bytes → Option Bytes
  pub is_valid_utf8 : Bytes → Bool

pub data MetadataError : Type 0 where
  parse_error : CommandLineError → MetadataError
  empty_command execution_error invalid_utf8 : MetadataError

-- `strings.TrimRight(s, "\n\r")`
trim_byte : ℕ → Bytes → Bytes
trim_byte b [] = if b == 10 || (b == 13) then [] else b ∷ []
trim_byte b (c ∷ cs) = b ∷ c ∷ cs

unfoldable pub trim_right : Bytes → Bytes
unfolding trim_byte
trim_right [] = []
trim_right (b ∷ bs) = trim_byte b (trim_right bs)

module _ (runner : Runner) where
  valid_text : Bytes → Result MetadataError Bytes
  valid_text out = if runner.is_valid_utf8 out then ok (trim_right out) else err invalid_utf8

  run_words : List Bytes → Result MetadataError Bytes
  unfolding valid_text
  run_words [] = err empty_command
  run_words (program ∷ words) =
      or_fail execution_error (runner.output (program ∷ words)) >>= valid_text

  -- `runCommand`
  unfoldable pub run_metadata_command : Bytes → Result MetadataError Bytes
  unfolding run_words
  run_metadata_command command = map_err parse_error (parse_command_line command) >>= run_words

  -- A command with an error leaves the map as it is.
  with_result : Bytes → Result MetadataError Bytes → List (Bytes × Bytes) → List (Bytes × Bytes)
  with_result k (err e) kv = kv
  with_result k (ok out) kv = insert k out kv

  -- The loop over the commands.
  run_each : List (Bytes × Bytes) → List (Bytes × Bytes) → List (Bytes × Bytes)
  unfolding with_result
  run_each [] kv = kv
  run_each ((k, command) ∷ cs) kv = run_each cs (with_result k (run_metadata_command command) kv)

  -- The loop over the fixed values.
  copy_static : List (Bytes × Bytes) → List (Bytes × Bytes) → List (Bytes × Bytes)
  copy_static [] kv = kv
  copy_static ((k, v) ∷ kvs) kv = copy_static kvs (insert k v kv)

  -- `runCommands`, which gives what `Get` then returns.
  unfoldable pub run_commands : List (Bytes × Bytes) → List (Bytes × Bytes) → List (Bytes × Bytes)
  unfolding run_each copy_static
  run_commands static commands = run_each commands (copy_static static [])
