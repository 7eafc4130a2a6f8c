-- ===== src/Filters/Configure.antt =====
-- `Setup` of internal/filters/filters.go.
use mathlib.Core.List.{append-nil, append_assoc}
use mathlib.Core.Path.{subst}
use chirpstack_gateway_bridg.Prelude.{
  Option-cases, Pointwise, Bytes, ◌≡◌, refl, sym, ap, ◌∙◌, inl, inr, Option, none, some, List, [],
  ◌∷◌, ◌++◌, arith,
}
use chirpstack_gateway_bridg.Filters.{Lorawan, Filters}

pub data SetupError : Type 0 where
  bad_net_id bad_join_eui : SetupError

-- The part of the configuration that is read: texts of NetIDs, and of the ends of JoinEUI ranges.
pub record FilterConf : Type 0 where
  pub net_ids : List Bytes
  pub join_euis : List (Bytes × Bytes)

-- The loop over the NetIDs, and what stops it. What was appended before stays.
setup_net_ids : Lorawan → List Bytes → Filters → Filters × Option SetupError
setup_net_ids lw [] f = (f, none)
setup_net_ids lw (s ∷ ss) f = elim (lw.net_id_of_text s) [
  | none ↦ (f, some bad_net_id)
  | some n ↦ setup_net_ids lw ss (record f { net_ids = f.net_ids ++ n ∷ [] })
]

-- Both ends of a range.
parse_range : Lorawan → Bytes × Bytes → Option (Bytes × Bytes)
parse_range lw (from, to) = elim (lw.eui_of_text from) [
  | none ↦ none
  | some lo ↦ elim (lw.eui_of_text to) [ none ↦ none | some hi ↦ some (lo, hi) ]
]

setup_join_euis : Lorawan → List (Bytes × Bytes) → Filters → Filters × Option SetupError
setup_join_euis lw [] f = (f, none)
setup_join_euis lw (s ∷ ss) f = elim (parse_range lw s) [
  | none ↦ (f, some bad_join_eui)
  | some r ↦ setup_join_euis lw ss (record f { join_euis = f.join_euis ++ r ∷ [] })
]

then_join_euis :
    Lorawan → List (Bytes × Bytes) → Filters × Option SetupError → Filters × Option SetupError
then_join_euis lw ss (f, none) = setup_join_euis lw ss f
then_join_euis lw ss (f, some e) = (f, some e)

-- `Setup`
unfoldable pub setup : Lorawan → FilterConf → Filters → Filters × Option SetupError
unfolding setup_net_ids setup_join_euis then_join_euis parse_range
setup lw conf f = then_join_euis lw conf.join_euis (setup_net_ids lw conf.net_ids f)

-- What was read from the texts of a range.
abbrev pub IsRangeOf : Lorawan → Bytes × Bytes → Bytes × Bytes → Type 0
IsRangeOf lw s r = (lw.eui_of_text s.0 ≡ some r.0) × (lw.eui_of_text s.1 ≡ some r.1)

parse_range-IsRangeOf :
    (lw : Lorawan) (s r : Bytes × Bytes) → parse_range lw s ≡ some r → IsRangeOf lw s r
unfolding parse_range
parse_range-IsRangeOf lw (from, to) (lo, hi) e = ground arith

module _ (lw : Lorawan) where
  setup_net_ids-reads :
      (ss : List Bytes) (f g : Filters)
      → setup_net_ids lw ss f ≡ (g, none)
      → (new : List Bytes) × (g.net_ids ≡ f.net_ids ++ new)
        × Pointwise (λ s n. lw.net_id_of_text s ≡ some n) ss new
        × (g.join_euis ≡ f.join_euis)
  unfolding setup_net_ids
  setup_net_ids-reads [] f g e = ([], ground (arith, append-nil f.net_ids), tt, ground arith)
  setup_net_ids-reads (s ∷ ss) f g e = elim (Option-cases (lw.net_id_of_text s)) [
    | inl bad ↦ absurd (ground arith)
    | inr (n, good) ↦
        let (new, ns, reads, js) =
          setup_net_ids-reads ss (record f { net_ids = f.net_ids ++ n ∷ [] }) g (ground arith) in
        (n ∷ new, ns ∙ append_assoc f.net_ids (n ∷ []) new, (good, reads), js)
  ]

  setup_join_euis-reads :
      (ss : List (Bytes × Bytes)) (f g : Filters)
      → setup_join_euis lw ss f ≡ (g, none)
      → (new : List (Bytes × Bytes)) × (g.join_euis ≡ f.join_euis ++ new)
        × Pointwise (IsRangeOf lw) ss new
        × (g.net_ids ≡ f.net_ids)
  unfolding setup_join_euis
  setup_join_euis-reads [] f g e = ([], ground (arith, append-nil f.join_euis), tt, ground arith)
  setup_join_euis-reads (s ∷ ss) f g e = elim (Option-cases (parse_range lw s)) [
    | inl bad ↦ absurd (ground arith)
    | inr (r, good) ↦
        let (new, js, reads, ns) =
          setup_join_euis-reads ss (record f { join_euis = f.join_euis ++ r ∷ [] }) g
            (ground arith) in
        (
          r ∷ new,
          js ∙ append_assoc f.join_euis (r ∷ []) new,
          (parse_range-IsRangeOf lw s r good, reads),
          ns,
        )
  ]

  then_join_euis-reads :
      (ss : List (Bytes × Bytes)) (r : Filters × Option SetupError) (g : Filters)
      → then_join_euis lw ss r ≡ (g, none)
      → (m : Filters) × (r ≡ (m, none)) × (setup_join_euis lw ss m ≡ (g, none))
  unfolding then_join_euis
  then_join_euis-reads ss (f, none) g e = (f, refl, e)
  then_join_euis-reads ss (f, some x) g e = absurd (ground arith)

  -- When `Setup` succeeds on fresh variables, the filters are the NetIDs and the ranges that the texts
  -- of the configuration stand for, all of them and in their order.
  pub setup_reads :
      (conf : FilterConf) (g : Filters)
      → setup lw conf (record { net_ids = []; join_euis = [] }) ≡ (g, none)
      → Pointwise (λ s n. lw.net_id_of_text s ≡ some n) conf.net_ids g.net_ids
        × Pointwise (IsRangeOf lw) conf.join_euis g.join_euis
  unfolding setup
  setup_reads conf g e =
      let (m, first, second) = then_join_euis-reads conf.join_euis _ g e in
      let (ns, ens, rns, ejs) = setup_net_ids-reads conf.net_ids _ m first in
      let (js, fjs, rjs, fns) = setup_join_euis-reads conf.join_euis m g second in
      (
        subst (Pointwise (λ s n. lw.net_id_of_text s ≡ some n) conf.net_ids) (sym (fns ∙ ens)) rns,
        subst (Pointwise (IsRangeOf lw) conf.join_euis) (sym (fjs ∙ ap (λ l. l ++ js) ejs)) rjs,
      )
