-- ===== src/Mqtt/Dispatch.antt =====
-- internal/integration/mqtt/backend.go: what is done with a message of the broker, and how an event is published.
pub mod Topics
use chirpstack_gateway_bridg.Prelude.{
  ltb, leb, ◌==◌, if◌then◌else◌, ltb→lt, lt→ltb, leb→le, ==_iff, Bool-cases, Option-cases, is_some,
  then-eq, else-eq, length, get_or, take, drop, length-append, take-append, drop-append, take_all,
  length-take, take-append-drop, All, All-append, set_at, set_from, fill, set_from-fill, Pointwise,
  Result, ok, err, ◌>>=◌, map_err, >>=-eq-ok, ok-injective, or_fail, or_fail-eq-ok, Result-cases,
  guard-eq-ok, Bytes, AreBytes, codes, bytes_eq, bytes_eq_iff, put_u16_le, put_u32_be, from_be,
  u_be, Key, nat_key, bytes_key, beq_refl, lookup, insert, delete, lookup-insert, lookup-delete, ℕ,
  zero, suc, ◌+◌, ◌-◌, ◌*◌, ◌/◌, ◌%◌, ◌^◌, ◌≤◌, ◌<◌, ◌≡◌, refl, sym, ap, ◌∙◌, ◌≢◌, ◌↔◌, ◌⊎◌, inl,
  inr, Bool, true, false, not, ◌&&◌, ◌||◌, Option, none, some, List, [], ◌∷◌, ◌++◌, map, arith,
}

-- A message on one of the channels, of the types of `gw`: `handleDownlinkFrame`, `handleGatewayConfiguration`,
-- `handleGatewayCommandExecRequest` and `handleRawPacketForwarderCommand`.
pub data Command (D G E R : Type 0) : Type 0 where
  downlink_frame : D → Command D G E R
  gateway_configuration : G → Command D G E R
  exec_request : E → Command D G E R
  raw_command : R → Command D G E R

pub data DispatchError : Type 0 where
  unmarshal_message_error unexpected_command : DispatchError

-- The configured `unmarshal` at each of the four types.
pub record Decoders (D G E R : Type 0) : Type 0 where
  pub decode_downlink : Bytes → Option D
  pub decode_configuration : Bytes → Option G
  pub decode_exec : Bytes → Option E
  pub decode_raw : Bytes → Option R

-- `strings.HasPrefix`, `strings.HasSuffix` and `strings.Contains`
unfoldable pub has_prefix : Bytes → Bytes → Bool
has_prefix [] s = true
has_prefix (x ∷ xs) [] = false
has_prefix (x ∷ xs) (y ∷ ys) = x == y && has_prefix xs ys

unfoldable pub has_suffix : Bytes → Bytes → Bool
has_suffix suffix s =
    leb (length suffix) (length s) && bytes_eq (drop (length s - length suffix) s) suffix

unfoldable pub contains : Bytes → Bytes → Bool
unfolding has_prefix
contains part [] = has_prefix part []
contains part (x ∷ xs) = let rest = contains part xs in has_prefix part (x ∷ xs) || rest

-- The test of a topic for one command.
unfoldable pub is_for : Bytes → Bytes → Bool
unfolding has_suffix contains
is_for command topic = has_suffix command topic || contains (codes "command=" ++ command) topic

abbrev pub decoded_as {ℓ} : {A : Type 0} {B : Type ℓ} → (A → B) → Option A → Result DispatchError B
decoded_as f none = err unmarshal_message_error
decoded_as f (some a) = ok (f a)

module _ {D G E R : Type 0} (decoders : Decoders D G E R) where
  -- `handleCommand`, of the topic and the payload.
  unfoldable pub handle_command : Bytes → Bytes → Result DispatchError (Command D G E R)
  unfolding is_for
  handle_command topic payload =
      if is_for (codes "down") topic
      then decoded_as downlink_frame (decoders.decode_downlink payload)
      else if is_for (codes "config") topic
      then decoded_as gateway_configuration (decoders.decode_configuration payload)
      else if is_for (codes "exec") topic
      then decoded_as exec_request (decoders.decode_exec payload)
      else if is_for (codes "raw") topic
      then decoded_as raw_command (decoders.decode_raw payload)
      else err unexpected_command

-- A message that is published, and the errors of `publish`.
pub record Publication : Type 0 where
  pub topic : Bytes
  pub qos : ℕ
  pub retained : Bool
  pub payload : Bytes

pub data PublishError : Type 0 where
  template_error marshal_message_error broker_error : PublishError

-- `PublishEvent` and `publish`, with the topic that the template gives, the encoded message, and whether the broker accepts it.
unfoldable pub publish_event :
    (Bytes → Bytes → Option Bytes)
    → (Publication → Bool)
    → ℕ
    → Bytes
    → Bytes
    → Option Bytes
    → Result PublishError Publication
publish_event template accepts qos gateway_id event encoded = do
  topic ← or_fail template_error (template gateway_id event)
  payload ← or_fail marshal_message_error encoded
  let p : Publication = record { topic = topic; qos = qos; retained = false; payload = payload }
  if accepts p then ok p else err broker_error
