-- ===== src/Metadata/Orders.antt =====
-- internal/metadata/metadata.go: the value of each key, in whatever order the maps are visited.
use chirpstack_gateway_bridg.Prelude.{
  Result, ok, err, Bytes, nat_key, bytes_key, lookup, ◌≡◌, Option, none, some, List, [], ◌∷◌,
}
use chirpstack_gateway_bridg.Metadata.{Runner, MetadataError, run_metadata_command}

-- A map has one entry for a key.
abbrev pub IsMap : List (Bytes × Bytes) → Type 0
IsMap [] = Unit
IsMap (entry ∷ m) = (lookup entry.0 m ≡ none) × IsMap m

abbrev pub or_value : Option Bytes → Option Bytes → Option Bytes
or_value none o = o
or_value (some v) o = some v

module _ (runner : Runner) where
  unfoldable pub result_value : Result MetadataError Bytes → Option Bytes
  result_value (err e) = none
  result_value (ok out) = some out

  -- The output of the command of a key, if there is one and it has no error.
  unfoldable pub command_value : Option Bytes → Option Bytes
  unfolding result_value
  command_value none = none
  command_value (some command) = result_value (run_metadata_command runner command)
