-- ===== src/Commands/CommandLine/Words.antt =====
-- commands.go: what a written command is parsed to.
use mathlib.Core.List.{append-nil, append_assoc}
use chirpstack_gateway_bridg.Prelude.{
  All, ok, Bytes, bytes_eq_iff, ℕ, ◌<◌, ◌≡◌, refl, sym, ap, ◌∙◌, ◌≢◌, false, List, [], ◌∷◌, ◌++◌,
  map, arith,
}
use chirpstack_gateway_bridg.Commands.CommandLine.{
  Mode, start, quotes, arg, Parser, string_of, is_blank, add, close_arg, read_byte, read_bytes,
  initial, last_arg, finish, parse_command_line,
}

-- A byte that stands for itself outside quotes, and one that does inside of `"`.
abbrev pub IsPlain : ℕ → Type 0
IsPlain c = (c < 128) × (c ≢ 32) × (c ≢ 9) × (c ≢ 34) × (c ≢ 39) × (c ≢ 92)

abbrev pub IsQuotable : ℕ → Type 0
IsQuotable c = (c < 128) × (c ≢ 34)

-- An argument, as it is or between quotation marks.
pub data Word : Type 0 where
  bare quoted : Bytes → Word

abbrev pub IsWord : Word → Type 0
IsWord (bare []) = ⊥
IsWord (bare (c ∷ cs)) = All IsPlain (c ∷ cs)
IsWord (quoted cs) = All IsQuotable cs

abbrev pub text : Word → Bytes
text (bare cs) = cs
text (quoted cs) = cs

abbrev pub written : Word → Bytes
written (bare cs) = cs
written (quoted cs) = 34 ∷ cs ++ 34 ∷ []

-- Words behind the command, with a space before each.
abbrev pub arguments : List Word → Bytes
arguments [] = []
arguments (x ∷ xs) = 32 ∷ written x ++ arguments xs

-- A state in which the next byte is not escaped.
abbrev at_ease : List Bytes → Mode → Bytes → Bytes → Parser
at_ease args m current q = record {
  args = args;
  mode = m;
  current = current;
  quote = q;
  escape_next = false;
}

read_bytes-append :
    (s : Parser) (xs ys : Bytes) → read_bytes s (xs ++ ys) ≡ read_bytes (read_bytes s xs) ys
unfolding read_bytes
read_bytes-append s [] ys = refl
read_bytes-append s (x ∷ xs) ys = read_bytes-append (read_byte s x) xs ys

read_byte-arg :
    (args : List Bytes) (current q : Bytes) (c : ℕ)
    → IsPlain c
    → read_byte (at_ease args arg current q) c ≡ at_ease args arg (current ++ c ∷ []) q
unfolding read_byte add is_blank string_of
read_byte-arg args current q c (lt, a, b, d, e, f) = ground arith

read_byte-start :
    (args : List Bytes) (current q : Bytes) (c : ℕ)
    → IsPlain c
    → read_byte (at_ease args start current q) c ≡ at_ease args arg (current ++ c ∷ []) q
unfolding read_byte is_blank string_of
read_byte-start args current q c (lt, a, b, d, e, f) = ground arith

read_bytes-arg :
    (cs : Bytes) (args : List Bytes) (current q : Bytes)
    → All IsPlain cs
    → read_bytes (at_ease args arg current q) cs ≡ at_ease args arg (current ++ cs) q
unfolding read_bytes
read_bytes-arg [] args current q h = ap (λ x. at_ease args arg x q) (sym (append-nil current))
read_bytes-arg (c ∷ cs) args current q h =
    ap (λ s. read_bytes s cs) (read_byte-arg args current q c h.0)
    ∙ read_bytes-arg cs args (current ++ c ∷ []) q h.1
    ∙ ap (λ x. at_ease args arg x q) (append_assoc current (c ∷ []) cs)

read_bytes-start :
    (c : ℕ) (cs : Bytes) (args : List Bytes) (current q : Bytes)
    → All IsPlain (c ∷ cs)
    → read_bytes (at_ease args start current q) (c ∷ cs) ≡ at_ease args arg (current ++ c ∷ cs) q
unfolding read_bytes
read_bytes-start c cs args current q h =
    ap (λ s. read_bytes s cs) (read_byte-start args current q c h.0)
    ∙ read_bytes-arg cs args (current ++ c ∷ []) q h.1
    ∙ ap (λ x. at_ease args arg x q) (append_assoc current (c ∷ []) cs)

read_byte-quotes :
    (args : List Bytes) (current : Bytes) (c : ℕ)
    → IsQuotable c
    → read_byte (at_ease args quotes current (34 ∷ [])) c
      ≡ at_ease args quotes (current ++ c ∷ []) (34 ∷ [])
unfolding read_byte add string_of
read_byte-quotes args current c (lt, a) = ground (arith, bytes_eq_iff (c ∷ []) (34 ∷ []))

read_byte-quote :
    (args : List Bytes) (current : Bytes)
    → read_byte (at_ease args quotes current (34 ∷ [])) 34
      ≡ at_ease (args ++ current ∷ []) start [] (34 ∷ [])
unfolding read_byte close_arg string_of
read_byte-quote args current = ground (arith, bytes_eq_iff (34 ∷ []) (34 ∷ []))

read_bytes-quotes :
    (cs : Bytes) (args : List Bytes) (current : Bytes)
    → All IsQuotable cs
    → read_bytes (at_ease args quotes current (34 ∷ [])) (cs ++ 34 ∷ [])
      ≡ at_ease (args ++ (current ++ cs) ∷ []) start [] (34 ∷ [])
unfolding read_bytes
read_bytes-quotes [] args current h =
    read_byte-quote args current
    ∙ ap (λ x. at_ease (args ++ x ∷ []) start [] (34 ∷ [])) (sym (append-nil current))
read_bytes-quotes (c ∷ cs) args current h =
    ap (λ s. read_bytes s (cs ++ 34 ∷ [])) (read_byte-quotes args current c h.0)
    ∙ read_bytes-quotes cs args (current ++ c ∷ []) h.1
    ∙ ap (λ x. at_ease (args ++ x ∷ []) start [] (34 ∷ [])) (append_assoc current (c ∷ []) cs)

abbrev Finishes : Parser → Bytes → List Bytes → Type 0
Finishes s cs args = finish (read_bytes s cs) ≡ ok args

-- The arguments behind a state between arguments, and behind one with an argument that is not closed.
abbrev Continues : List Word → Type 0
Continues xs =
    ((args : List Bytes) (q : Bytes)
      → Finishes (at_ease args start [] q) (arguments xs) (args ++ map text xs))
    × ((args : List Bytes) (c : ℕ) (cs q : Bytes)
        → Finishes (at_ease args arg (c ∷ cs) q) (arguments xs) (args ++ (c ∷ cs) ∷ map text xs))

finish-word :
    (x : Word) (xs : List Word) (args : List Bytes) (q : Bytes)
    → IsWord x
    → Continues xs
    → Finishes (at_ease args start [] q) (written x ++ arguments xs) (args ++ text x ∷ map text xs)
unfolding read_bytes read_byte string_of
finish-word (bare []) xs args q h k = absurd h
finish-word (bare (c ∷ cs)) xs args q h k =
    ap finish (
      read_bytes-append (at_ease args start [] q) (c ∷ cs) (arguments xs)
      ∙ ap (λ s. read_bytes s (arguments xs)) (read_bytes-start c cs args [] q h))
    ∙ k.1 args c cs q
finish-word (quoted cs) xs args q h k =
    ap finish (
      read_bytes-append (at_ease args start [] q) (34 ∷ cs ++ 34 ∷ []) (arguments xs)
      ∙ ap (λ s. read_bytes s (arguments xs)) (read_bytes-quotes cs args [] h))
    ∙ k.0 (args ++ cs ∷ []) (34 ∷ [])
    ∙ ap ok (append_assoc args (cs ∷ []) (map text xs))

continues : (xs : List Word) → All IsWord xs → Continues xs
unfolding read_bytes finish last_arg read_byte is_blank close_arg
continues [] h = (λ args q. rw append-nil refl, λ args c cs q. refl)
continues (x ∷ xs) h =
    let k = continues xs h.1 in
    (
      λ args q. finish-word x xs args q h.0 k,
      λ args c cs q.
          finish-word x xs (args ++ (c ∷ cs) ∷ []) q h.0 k
          ∙ ap ok (append_assoc args ((c ∷ cs) ∷ []) (map text (x ∷ xs))),
    )

-- The first byte is always taken as it is.
first : (a : ℕ) → a < 128 → read_byte initial a ≡ at_ease [] start (a ∷ []) (34 ∷ [])
unfolding read_byte initial string_of
first a lt = ground arith

-- A command of at least two bytes, none of them a blank, a quotation mark or a backslash, and then arguments with a
-- space before each, bare or between quotation marks, are parsed to the command and the texts of the arguments. All bytes are ASCII.
pub parse_command_line-words :
    (a b : ℕ) (cs : Bytes) (xs : List Word)
    → All IsPlain (a ∷ b ∷ cs)
    → All IsWord xs
    → parse_command_line (a ∷ b ∷ cs ++ arguments xs) ≡ ok ((a ∷ b ∷ cs) ∷ map text xs)
unfolding parse_command_line initial
parse_command_line-words a b cs xs h k =
    ap finish (
      ap (λ s. read_bytes s (b ∷ cs ++ arguments xs)) (first a h.0.0)
      ∙ read_bytes-append (at_ease [] start (a ∷ []) (34 ∷ [])) (b ∷ cs) (arguments xs)
      ∙ ap (λ s. read_bytes s (arguments xs)) (read_bytes-start b cs [] (a ∷ []) (34 ∷ []) h.1))
    ∙ (continues xs k).1 [] a (b ∷ cs) (34 ∷ [])

-- A command of one byte loses the space behind it: with a bare argument it is parsed to one command, which starts with the
-- byte and goes on with the argument.
pub parse_command_line-one_byte :
    (a : ℕ) (cs : Bytes) (xs : List Word)
    → a < 128
    → IsWord (bare cs)
    → All IsWord xs
    → parse_command_line (a ∷ arguments (bare cs ∷ xs)) ≡ ok ((a ∷ cs) ∷ map text xs)
unfolding parse_command_line initial
parse_command_line-one_byte a [] xs lt h k = absurd h
parse_command_line-one_byte a (c ∷ cs) xs lt h k =
    ap finish (
      ap (λ s. read_bytes s (32 ∷ (c ∷ cs) ++ arguments xs)) (first a lt)
      ∙ (unfold read_bytes in
          unfold read_byte in
          unfold is_blank in
          read_bytes-append (at_ease [] start (a ∷ []) (34 ∷ [])) (c ∷ cs) (arguments xs))
      ∙ ap (λ s. read_bytes s (arguments xs)) (read_bytes-start c cs [] (a ∷ []) (34 ∷ []) h))
    ∙ (continues xs k).1 [] a (c ∷ cs) (34 ∷ [])
