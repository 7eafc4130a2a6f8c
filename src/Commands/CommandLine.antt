-- ===== src/Commands/CommandLine.antt =====
-- `ParseCommandLine` of internal/commands/commands.go. A command is its bytes; `string(c)` of a byte is the UTF-8
-- encoding of the code point of that number.
pub mod Words
use chirpstack_gateway_bridg.Prelude.{
  ltb, ◌==◌, if◌then◌else◌, Result, ok, err, Bytes, bytes_eq, ℕ, ◌+◌, ◌/◌, ◌%◌, Bool, true, false,
  not, ◌||◌, List, [], ◌∷◌, ◌++◌,
}

pub data Mode : Type 0 where
  start quotes arg : Mode

-- The variables of the function.
pub record Parser : Type 0 where
  pub args : List Bytes
  pub mode : Mode
  pub current : Bytes
  pub quote : Bytes
  pub escape_next : Bool

pub data CommandLineError : Type 0 where
  unclosed_quote : CommandLineError

abbrev is_quotes : Mode → Bool
is_quotes quotes = true
is_quotes start = false
is_quotes arg = false

abbrev is_arg : Mode → Bool
is_arg arg = true
is_arg start = false
is_arg quotes = false

-- `string(c)`
string_of : ℕ → Bytes
string_of c = if ltb c 128 then c ∷ [] else (192 + c / 64) ∷ (128 + c % 64) ∷ []

is_blank : ℕ → Bool
is_blank c = c == 32 || c == 9

-- `current += string(c)`
add : Parser → ℕ → Parser
unfolding string_of
add s c = record s { current = s.current ++ string_of c }

-- `args = append(args, current)`, and what follows it.
close_arg : Parser → Parser
close_arg s = record s { args = s.args ++ s.current ∷ []; current = []; mode = start }

-- The body of the loop.
read_byte : Parser → ℕ → Parser
unfolding add close_arg is_blank string_of
read_byte s c =
    if is_quotes s.mode
    then (if not (bytes_eq (string_of c) s.quote) then add s c else close_arg s)
    else if s.escape_next
    then record s { current = s.current ++ string_of c; escape_next = false }
    else if c == 92
    then record s { escape_next = true }
    else if c == 34 || c == 39
    then record s { mode = quotes; quote = string_of c }
    else if is_arg s.mode
    then (if is_blank c then close_arg s else add s c)
    else if not (is_blank c)
    then record s { current = s.current ++ string_of c; mode = arg }
    else s

read_bytes : Parser → Bytes → Parser
unfolding read_byte
read_bytes s [] = s
read_bytes s (c ∷ cs) = read_bytes (read_byte s c) cs

-- The source starts with `escapeNext := true`.
initial : Parser
initial = record { args = []; mode = start; current = []; quote = 34 ∷ []; escape_next = true }

last_arg : List Bytes → Bytes → List Bytes
last_arg args [] = args
last_arg args (c ∷ cs) = args ++ (c ∷ cs) ∷ []

finish : Parser → Result CommandLineError (List Bytes)
unfolding last_arg
finish s = if is_quotes s.mode then err unclosed_quote else ok (last_arg s.args s.current)

-- `ParseCommandLine`
unfoldable pub parse_command_line : Bytes → Result CommandLineError (List Bytes)
unfolding read_bytes initial finish
parse_command_line command = finish (read_bytes initial command)
