-- ===== src/Mqtt/Dispatch/Topics.antt =====
-- internal/integration/mqtt/backend.go: the topics that end in a command, as those of the template of the documentation.
use mathlib.Core.List.{append_assoc}
use chirpstack_gateway_bridg.Prelude.{
  leb, ◌==◌, Bool-cases, length, drop, length-append, drop-append, All, All-append, Bytes, codes,
  bytes_eq, nat_key, bytes_key, ◌-◌, ◌≡◌, refl, sym, ap, ◌∙◌, ◌≢◌, inl, inr, Bool, true, not, ◌&&◌,
  [], ◌∷◌, ◌++◌, arith,
}
use chirpstack_gateway_bridg.Mqtt.Dispatch.{
  downlink_frame, gateway_configuration, exec_request, raw_command, Decoders, has_prefix,
  has_suffix, contains, is_for, decoded_as, handle_command,
}

-- No byte of the text is `=`.
abbrev pub HasNoEquals : Bytes → Type 0
HasNoEquals = All (λ b. b ≢ 61)

has_prefix-HasNoEquals :
    (part s : Bytes) → has_prefix part s ≡ true → HasNoEquals s → HasNoEquals part
unfolding has_prefix
has_prefix-HasNoEquals [] s h k = tt
has_prefix-HasNoEquals (x ∷ xs) [] h k = cc
has_prefix-HasNoEquals (x ∷ xs) (y ∷ ys) h k =
    (ground (arith, h, k.0), has_prefix-HasNoEquals xs ys (ground (arith, h)) k.1)

contains-HasNoEquals : (part s : Bytes) → contains part s ≡ true → HasNoEquals s → HasNoEquals part
unfolding contains
contains-HasNoEquals part [] h k = has_prefix-HasNoEquals part [] h k
contains-HasNoEquals part (x ∷ xs) h k = elim (Bool-cases (has_prefix part (x ∷ xs))) [
  | inl t ↦ has_prefix-HasNoEquals part (x ∷ xs) t k
  | inr f ↦ contains-HasNoEquals part xs (ground (arith, h, f)) k.1
]

-- Without the sign, a topic is for the command that it ends in.
is_for-HasNoEquals :
    (command topic : Bytes) → HasNoEquals topic → is_for command topic ≡ has_suffix command topic
unfolding is_for
is_for-HasNoEquals command topic h =
    elim (Bool-cases (contains (codes "command=" ++ command) topic)) [
      | inl t ↦
          absurd
            ((contains-HasNoEquals (codes "command=" ++ command) topic t h).1.1.1.1.1.1.1.0 refl)
      | inr f ↦ ground (arith, f)
    ]

drop-length : (p q : Bytes) → drop (length (p ++ q) - length q) (p ++ q) ≡ q
drop-length p q = drop-append p q _ (omega (arith, length-append p q))

has_suffix-append :
    (suffix p q : Bytes) → length suffix ≡ length q → has_suffix suffix (p ++ q) ≡ bytes_eq q suffix
unfolding has_suffix
has_suffix-append suffix p q h =
    ap (λ n. leb n (length (p ++ q)) && bytes_eq (drop (length (p ++ q) - n) (p ++ q)) suffix) h
    ∙ ap (λ s. leb (length q) (length (p ++ q)) && bytes_eq s suffix) (drop-length p q)
    ∙ ground (arith, length-append p q)

unfoldable pub is_free : Bytes → Bool
is_free [] = true
is_free (b ∷ bs) = not (b == 61) && is_free bs

-- For a literal, by computation.
pub free : (s : Bytes) → is_free s ≡ true → HasNoEquals s
unfolding is_free
free [] h = tt
free (b ∷ bs) h = (ground (arith, h), free bs (ground (arith, h)))

-- The end of a topic, which is as long as the command.
is_for-append :
    (command p q r : Bytes)
    → HasNoEquals p
    → is_free (q ++ r) ≡ true
    → length command ≡ length r
    → is_for command (p ++ (q ++ r)) ≡ bytes_eq r command
is_for-append command p q r h k e =
    is_for-HasNoEquals command (p ++ (q ++ r))
      (All-append (λ b. b ≢ 61) p (q ++ r) h (free (q ++ r) k))
    ∙ ap (has_suffix command) (sym (append_assoc p q r))
    ∙ has_suffix-append command (p ++ q) r e

module _ {D G E R : Type 0} (decoders : Decoders D G E R) where
  -- A message whose topic has no sign `=` and ends in `/command/` and the name of one of the four commands is decoded as a message of that
  -- command, and passed on as one if it can be decoded.
  pub handle_command-append :
      (p payload : Bytes)
      → HasNoEquals p
      → (handle_command decoders (p ++ codes "/command/down") payload
          ≡ decoded_as downlink_frame (decoders.decode_downlink payload))
        × (handle_command decoders (p ++ codes "/command/config") payload
            ≡ decoded_as gateway_configuration (decoders.decode_configuration payload))
        × (handle_command decoders (p ++ codes "/command/exec") payload
            ≡ decoded_as exec_request (decoders.decode_exec payload))
        × (handle_command decoders (p ++ codes "/command/raw") payload
            ≡ decoded_as raw_command (decoders.decode_raw payload))
  unfolding handle_command is_free
  handle_command-append p payload h = (
    rw (is_for-append (codes "down") p (codes "/command/") (codes "down") h refl refl) refl,
    rw
        (
          is_for-append (codes "down") p (codes "/command/co") (codes "nfig") h refl refl,
          is_for-append (codes "config") p (codes "/command/") (codes "config") h refl refl,
        )
        refl,
    rw
        (
          is_for-append (codes "down") p (codes "/command/") (codes "exec") h refl refl,
          is_for-append (codes "config") p (codes "/comman") (codes "d/exec") h refl refl,
          is_for-append (codes "exec") p (codes "/command/") (codes "exec") h refl refl,
        )
        refl,
    rw
        (
          is_for-append (codes "down") p (codes "/command") (codes "/raw") h refl refl,
          is_for-append (codes "config") p (codes "/comma") (codes "nd/raw") h refl refl,
          is_for-append (codes "exec") p (codes "/command") (codes "/raw") h refl refl,
          is_for-append (codes "raw") p (codes "/command/") (codes "raw") h refl refl,
        )
        refl,
  )
