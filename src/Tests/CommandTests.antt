-- ===== src/Tests/CommandTests.antt =====
-- The theorems on command lines, at commands.
use chirpstack_gateway_bridg.Prelude.{ok, ◌≡◌, [], ◌∷◌, ◌++◌, arith}
use chirpstack_gateway_bridg.Commands.CommandLine.{parse_command_line}
use chirpstack_gateway_bridg.Commands.CommandLine.Words.{
  bare, quoted, arguments, parse_command_line-words,
}

parse_command_line_words_example :
    parse_command_line
      (b'l' ∷ b's' ∷ [] ++ arguments (bare (b'a' ∷ []) ∷ quoted (b'b' ∷ 32 ∷ []) ∷ []))
    ≡ ok ((b'l' ∷ b's' ∷ []) ∷ (b'a' ∷ []) ∷ (b'b' ∷ 32 ∷ []) ∷ [])
parse_command_line_words_example =
    parse_command_line-words b'l' b's' [] (bare (b'a' ∷ []) ∷ quoted (b'b' ∷ 32 ∷ []) ∷ [])
      (ground arith, (ground arith, tt))
      ((ground arith, tt), ((ground arith, (ground arith, tt)), tt))
