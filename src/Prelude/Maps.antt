-- ===== src/Prelude/Maps.antt =====
-- Go's maps, as association lists in any order. A key that is missing gives `none`.
use mathlib.Core.Logic.{◌↔◌}
use mathlib.Core.Bool.{Bool, true}
use mathlib.Core.List.{List, [], ◌∷◌}
use mathlib.Core.Option.{Option, none, some}
use mathlib.Core.Path.{◌≡◌, refl}
use Prim.Native.Nat.{ℕ}
use native.Mathlib.Omega.{arith}
use chirpstack_gateway_bridg.Prelude.Tests.{◌==◌, if◌then◌else◌, ==_iff}
use chirpstack_gateway_bridg.Prelude.ByteStrings.{Bytes, bytes_eq, bytes_eq_iff}

-- The types that a map may have for keys.
pub record Key {ℓ} (K : Type ℓ) : Type ℓ where
  pub beq : K → K → Bool
  pub beq_iff : (a b : K) → (beq a b ≡ true) ↔ (a ≡ b)

instance abbrev pub nat_key : Key ℕ
nat_key = record { beq = λ a b. a == b; beq_iff = ==_iff }

instance abbrev pub bytes_key : Key Bytes
bytes_key = record { beq = bytes_eq; beq_iff = bytes_eq_iff }

pub beq_refl {ℓ} : {K : Type ℓ} ⦃k : Key K⦄ (a : K) → k.beq a a ≡ true
beq_refl ⦃k⦄ a = (k.beq_iff a a).1 refl

module _ {ℓ κ} {K : Type ℓ} {V : Type κ} ⦃k : Key K⦄ where
  unfoldable pub lookup : K → List (K × V) → Option V
  lookup a [] = none
  lookup a ((b, v) ∷ m) = if k.beq b a then some v else lookup a m

  -- `m[a] = v`
  unfoldable pub insert : K → V → List (K × V) → List (K × V)
  insert a v [] = (a, v) ∷ []
  insert a v ((b, u) ∷ m) = if k.beq b a then (b, v) ∷ m else (b, u) ∷ insert a v m

  -- `delete(m, a)`: all entries of the key, though a map has one at most.
  unfoldable pub delete : K → List (K × V) → List (K × V)
  delete a [] = []
  delete a ((b, u) ∷ m) = let rest = delete a m in if k.beq b a then rest else (b, u) ∷ rest

  pub lookup-insert :
      (a b : K) (v : V) (m : List (K × V))
      → lookup b (insert a v m) ≡ (if k.beq a b then some v else lookup b m)
  unfolding lookup insert
  lookup-insert a b v [] = refl
  lookup-insert a b v ((c, u) ∷ m) =
      ground (arith, k.beq_iff a b, k.beq_iff c a, k.beq_iff c b, lookup-insert a b v m)

  pub lookup-delete :
      (a b : K) (m : List (K × V))
      → lookup b (delete a m) ≡ (if k.beq a b then none else lookup b m)
  unfolding lookup delete
  lookup-delete a b [] = ground arith
  lookup-delete a b ((c, u) ∷ m) =
      ground (arith, k.beq_iff a b, k.beq_iff c a, k.beq_iff c b, lookup-delete a b m)
