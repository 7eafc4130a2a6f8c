-- ===== src/SemtechUdp/PfConfig/Merge/Kept.antt =====
-- `mergeConfig` of internal/backend/semtechudp/pf_config.go: what changes in the file, and what stays.
use chirpstack_gateway_bridg.Prelude.{
  if◌then◌else◌, Bool-cases, ok, >>=-eq-ok, ok-injective, Bytes, bytes_eq, bytes_eq_iff, nat_key,
  bytes_key, lookup, insert, lookup-insert, ◌≡◌, refl, sym, ap, ◌∙◌, ◌⊎◌, inl, inr, Bool, true,
  false, Option, none, some, List, [], ◌∷◌,
}
use chirpstack_gateway_bridg.SemtechUdp.PfConfig.Merge.{
  Field, Object, Section, object, not_object, set_fields, set_section, set_sections,
}

-- The value of a field of a key.
section_field : Bytes → Option Section → Option Field
section_field name none = none
section_field name (some (object o)) = lookup name o
section_field name (some (not_object f)) = none

unfoldable pub field_of : List (Bytes × Section) → Bytes → Bytes → Option Field
unfolding section_field
field_of conf key name = section_field name (lookup key conf)

abbrev pub or_else : Option Field → Option Field → Option Field
or_else none o = o
or_else (some f) o = some f

-- The last value that is set for a field.
unfoldable pub field_update : Bytes → Object → Option Field
field_update name [] = none
field_update name ((n, v) ∷ fs) =
    or_else (field_update name fs) (if bytes_eq n name then some v else none)

unfoldable pub update_of : Bytes → Bytes → List (Bytes × Object) → Option Field
unfolding field_update
update_of key name [] = none
update_of key name ((k, fs) ∷ us) =
    or_else (update_of key name us) (if bytes_eq k key then field_update name fs else none)

or_else_assoc : (a b c : Option Field) → or_else (or_else a b) c ≡ or_else a (or_else b c)
or_else_assoc none b c = refl
or_else_assoc (some f) b c = refl

or_else-if :
    (t : Bool) (a o : Option Field)
    → or_else (if t then a else none) o ≡ (if t then or_else a o else o)
or_else-if true a o = refl
or_else-if false a o = refl

lookup-set_fields :
    (fs o : Object) (name : Bytes)
    → lookup name (set_fields fs o) ≡ or_else (field_update name fs) (lookup name o)
unfolding set_fields field_update
lookup-set_fields [] o name = refl
lookup-set_fields ((n, v) ∷ fs) o name =
    lookup-set_fields fs (insert n v o) name
    ∙ ap (or_else (field_update name fs))
        (lookup-insert n name v o ∙ sym (or_else-if (bytes_eq n name) (some v) (lookup name o)))
    ∙ sym (or_else_assoc (field_update name fs) _ (lookup name o))

set_section-field :
    (key : Bytes) (fields : Object) (conf conf' : List (Bytes × Section)) (o : Option Section)
    → lookup key conf ≡ o
    → set_section key fields conf o ≡ ok conf'
    → (k name : Bytes)
    → field_of conf' k name
      ≡ or_else (if bytes_eq key k then field_update name fields else none) (field_of conf k name)
unfolding set_section field_of section_field
set_section-field key fields conf conf' none e h k name = cc
set_section-field key fields conf conf' (some (not_object f)) e h k name = cc
set_section-field key fields conf conf' (some (object o)) e h k name =
    ap (λ c. section_field name (lookup k c)) (sym (ok-injective h))
    ∙ ap (section_field name) (lookup-insert key k (object (set_fields fields o)) conf)
    ∙ go (Bool-cases (bytes_eq key k))
  where
    go :
        (bytes_eq key k ≡ true) ⊎ (bytes_eq key k ≡ false)
        → section_field name
            (if bytes_eq key k then some (object (set_fields fields o)) else lookup k conf)
          ≡ or_else
              (if bytes_eq key k then field_update name fields else none)
              (section_field name (lookup k conf))
    go (inl t) = rw t (
        lookup-set_fields fields o name
        ∙ ap (λ s. or_else (field_update name fields) (section_field name s))
            (sym e ∙ ap (λ a. lookup a conf) ((bytes_eq_iff key k).0 t)))
    go (inr f) = rw f refl

pub set_sections-field :
    (us : List (Bytes × Object)) (conf conf' : List (Bytes × Section))
    → set_sections us conf ≡ ok conf'
    → (k name : Bytes)
    → field_of conf' k name ≡ or_else (update_of k name us) (field_of conf k name)
unfolding set_sections update_of
set_sections-field [] conf conf' e k name = ap (λ c. field_of c k name) (sym (ok-injective e))
set_sections-field ((key, fields) ∷ us) conf conf' e k name =
    let (next, p, rest) =
      >>=-eq-ok (set_section key fields conf (lookup key conf)) (λ next. set_sections us next) e in
    set_sections-field us next conf' rest k name
    ∙ ap (or_else (update_of k name us))
        (set_section-field key fields conf next (lookup key conf) refl p k name)
    ∙ sym (or_else_assoc (update_of k name us) _ (field_of conf k name))
