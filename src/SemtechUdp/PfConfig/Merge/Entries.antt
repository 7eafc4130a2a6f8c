-- ===== src/SemtechUdp/PfConfig/Merge/Entries.antt =====
-- `mergeConfig` of internal/backend/semtechudp/pf_config.go: the last of a list of updates of a field.
use chirpstack_gateway_bridg.Prelude.{
  Bool-cases, Option-cases, Bytes, bytes_eq, bytes_eq_iff, nat_key, bytes_key, ◌≡◌, sym, ◌∙◌, ◌≢◌,
  ◌↔◌, ◌⊎◌, inl, inr, Option, none, some, List, [], ◌∷◌, ◌++◌,
}
use chirpstack_gateway_bridg.SemtechUdp.PfConfig.Merge.{Field, Object}
use chirpstack_gateway_bridg.SemtechUdp.PfConfig.Merge.Kept.{field_update, update_of}

-- The name and the value are one of the entries.
abbrev pub IsEntry : Bytes → Field → Object → Type 0
IsEntry name v [] = ⊥
IsEntry name v ((n, x) ∷ fs) = ((name ≡ n) × (v ≡ x)) ⊎ IsEntry name v fs

-- The same for a list of updates.
unfoldable pub IsUpdate : Bytes → Bytes → Field → List (Bytes × Object) → Type 0
IsUpdate key name v [] = ⊥
IsUpdate key name v ((k, fs) ∷ us) = ((key ≡ k) × IsEntry name v fs) ⊎ IsUpdate key name v us

field_update-IsEntry :
    (name : Bytes) (v : Field) (fs : Object) → field_update name fs ≡ some v → IsEntry name v fs
unfolding field_update
field_update-IsEntry name v [] e = absurd (cc)
field_update-IsEntry name v ((n, x) ∷ fs) e = elim (Option-cases (field_update name fs)) [
  | inr (y, later) ↦ inr (field_update-IsEntry name v fs (later ∙ (rw later at e)))
  | inl no_later ↦ elim (Bool-cases (bytes_eq n name)) [
    | inl t ↦ inl (sym ((bytes_eq_iff n name).0 t), value (rw (no_later, t) at e))
    | inr f ↦ absurd (nothing (rw (no_later, f) at e))
  ]
]
  where
    value : ◌≡◌ {A = Option Field} (some x) (some v) → v ≡ x
    value k = cc

    nothing : ◌≡◌ {A = Option Field} none (some v) → ⊥
    nothing k = cc

IsEntry-field_update :
    (name : Bytes) (v : Field) (fs : Object) → IsEntry name v fs → field_update name fs ≢ none
unfolding field_update
IsEntry-field_update name v [] h e = h
IsEntry-field_update name v ((n, x) ∷ fs) h e = elim (Option-cases (field_update name fs)) [
  | inr (y, later) ↦ something y (rw later at e)
  | inl no_later ↦ elim h [
    | inl (same, is) ↦ something x (rw (no_later, (bytes_eq_iff n name).1 (sym same)) at e)
    | inr there ↦ IsEntry-field_update name v fs there no_later
  ]
]
  where
    something : (y : Field) → ◌≡◌ {A = Option Field} (some y) none → ⊥
    something y k = cc

pub update_of-IsUpdate :
    (key name : Bytes) (v : Field) (us : List (Bytes × Object))
    → update_of key name us ≡ some v
    → IsUpdate key name v us
unfolding update_of IsUpdate
update_of-IsUpdate key name v [] e = absurd (cc)
update_of-IsUpdate key name v ((k, fs) ∷ us) e = elim (Option-cases (update_of key name us)) [
  | inr (y, later) ↦ inr (update_of-IsUpdate key name v us (later ∙ (rw later at e)))
  | inl no_later ↦ elim (Bool-cases (bytes_eq k key)) [
    | inl t ↦
        inl (sym ((bytes_eq_iff k key).0 t), field_update-IsEntry name v fs (rw (no_later, t) at e))
    | inr f ↦ absurd (nothing (rw (no_later, f) at e))
  ]
]
  where
    nothing : ◌≡◌ {A = Option Field} none (some v) → ⊥
    nothing k = cc

pub IsUpdate-update_of :
    (key name : Bytes) (v : Field) (us : List (Bytes × Object))
    → IsUpdate key name v us
    → update_of key name us ≢ none
unfolding update_of IsUpdate
IsUpdate-update_of key name v [] h e = h
IsUpdate-update_of key name v ((k, fs) ∷ us) h e = elim (Option-cases (update_of key name us)) [
  | inr (y, later) ↦ something y (rw later at e)
  | inl no_later ↦ elim h [
    | inl (same, is) ↦
        IsEntry-field_update name v fs is (rw (no_later, (bytes_eq_iff k key).1 (sym same)) at e)
    | inr there ↦ IsUpdate-update_of key name v us there no_later
  ]
]
  where
    something : (y : Field) → ◌≡◌ {A = Option Field} (some y) none → ⊥
    something y k = cc

module _ (key name : Bytes) (v : Field) where
  pub IsUpdate-append :
      (us vs : List (Bytes × Object))
      → IsUpdate key name v (us ++ vs) ↔ (IsUpdate key name v us ⊎ IsUpdate key name v vs)
  unfolding IsUpdate
  IsUpdate-append [] vs = (inr, λ h. elim h [ inl b ↦ absurd b | inr k ↦ k ])
  IsUpdate-append ((k, fs) ∷ us) vs =
      let (to, from) = IsUpdate-append us vs in
      (
        λ h. elim h [
          | inl here ↦ inl (inl here)
          | inr there ↦ elim (to there) [ inl l ↦ inl (inr l) | inr r ↦ inr r ]
        ],
        λ h. elim h [
          | inl l ↦ elim l [ inl here ↦ inl here | inr there ↦ inr (from (inl there)) ]
          | inr r ↦ inr (from (inr r))
        ],
      )
