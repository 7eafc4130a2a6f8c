-- ===== src/Basicstation/RouterInfo/Accepted.antt =====
-- `handleRouterInfo` and `handleGateway` of internal/backend/basicstation/backend.go: the address that a station is given is
-- one at which it is let in.
use chirpstack_gateway_bridg.Prelude.{
  ◌==◌, Bool-cases, Option-cases, All, ok, err, ◌>>=◌, or_fail, Bytes, codes, bytes_eq,
  bytes_eq_iff, nat_key, bytes_key, ◌≡◌, refl, sym, ap, ◌∙◌, ◌≢◌, ◌⊎◌, inl, inr, false, Option,
  none, some, [], ◌∷◌, ◌++◌, arith,
}
use chirpstack_gateway_bridg.Basicstation.Sessions.{
  no_gateway_id_in_url, bad_gateway_id, common_name_mismatch, split_first, split_slash, last_part,
  verified, requested_gateway,
}
use chirpstack_gateway_bridg.Basicstation.RouterInfo.{
  RouterInfoEnv, gateway_path, first_answer, mismatch_answer, is_mismatch, router_info_response,
}

abbrev pub HasNoSlash : Bytes → Type 0
HasNoSlash = All (λ b. (b == 47) ≡ false)

split_slash-HasNoSlash : (xs : Bytes) → HasNoSlash xs → split_slash xs ≡ (xs, [])
unfolding split_slash split_first
split_slash-HasNoSlash [] h = refl
split_slash-HasNoSlash (x ∷ xs) h = ap (split_first x) (split_slash-HasNoSlash xs h.1) ∙ rw h.0 refl

-- There is no certificate, or its common name is read as the identifier.
abbrev pub IsCertified : (Bytes → Option Bytes) → Bytes → Option Bytes → Type 0
IsCertified unmarshal id name =
    (name ≡ none) ⊎ ((text : Bytes) × (name ≡ some text) × (unmarshal text ≡ some id))

-- There is a certificate, and its common name is not read, or as another identifier.
abbrev pub IsForeign : (Bytes → Option Bytes) → Bytes → Option Bytes → Type 0
IsForeign unmarshal id name = (text : Bytes) × (name ≡ some text) × (unmarshal text ≢ some id)

module _ (env : RouterInfoEnv) where
  -- The station is given an address, and is let in there by a call of `handleGateway` that checks the same common name.
  abbrev pub IsAdmitted : Bytes → Option Bytes → Type 0
  IsAdmitted id name =
      ((router_info_response env id name).response_error ≡ [])
      × ((router_info_response env id name).uri
          ≡ env.scheme ++ (codes "://" ++ (env.host ++ gateway_path env id)))
      × (requested_gateway env.unmarshal_eui
            (record { path = gateway_path env id; common_name = name })
          ≡ ok id)

  abbrev pub IsRefused : Bytes → Option Bytes → Type 0
  IsRefused id name =
      ((router_info_response env id name).response_error ≢ [])
      × ((router_info_response env id name).uri ≡ [])
      × (requested_gateway env.unmarshal_eui
            (record { path = gateway_path env id; common_name = name })
          ≡ err common_name_mismatch)

requested_gateway-gateway_path :
    (env : RouterInfoEnv) (id : Bytes) (name : Option Bytes)
    → HasNoSlash (env.eui_string id)
    → env.unmarshal_eui (env.eui_string id) ≡ some id
    → requested_gateway env.unmarshal_eui
        (record { path = gateway_path env id; common_name = name })
      ≡ verified env.unmarshal_eui id name
unfolding requested_gateway split_slash split_first last_part
requested_gateway-gateway_path env id name h e =
    ap
      (λ ps. or_fail no_gateway_id_in_url (last_part ((codes "gateway" ∷ ps.0 ∷ ps.1))) >>= λ part.
        or_fail bad_gateway_id (env.unmarshal_eui part) >>= λ i. verified env.unmarshal_eui i name)
      (split_slash-HasNoSlash (env.eui_string id) h)
    ∙ ap (λ o. or_fail bad_gateway_id o >>= λ i. verified env.unmarshal_eui i name) e

some≢none : (a : Bytes) → ◌≢◌ {A = Option Bytes} none (some a)
some≢none a e = cc

some-injective : (a b : Bytes) → ◌≡◌ {A = Option Bytes} (some a) (some b) → a ≡ b
some-injective a b e = cc

-- A station without a certificate, or whose certificate has a common name that is read as the router of its request, is given an
-- address and no error, and the request for the path of this address is let in as this gateway. A station whose certificate has any
-- other common name is given an error and no address, and its request for that path is refused for its common name. The text of the
-- router's identifier has no slash and is read back.
pub router_info_response-accepted :
    (env : RouterInfoEnv) (id : Bytes) (name : Option Bytes)
    → HasNoSlash (env.eui_string id)
    → env.unmarshal_eui (env.eui_string id) ≡ some id
    → (IsCertified env.unmarshal_eui id name × IsAdmitted env id name)
      ⊎ (IsForeign env.unmarshal_eui id name × IsRefused env id name)
unfolding router_info_response first_answer mismatch_answer is_mismatch verified
router_info_response-accepted env id none h e =
    inl (inl refl, (refl, refl, requested_gateway-gateway_path env id none h e))
router_info_response-accepted env id (some name) h e =
    let path = requested_gateway-gateway_path env id (some name) h e in
    elim (Option-cases (env.unmarshal_eui name)) [
      | inl n ↦ inr (
        (name, refl, λ k. some≢none id (sym n ∙ k)),
        (rw n (λ bad. cc), rw n refl, path ∙ rw (n, verified) refl),
      )
      | inr (cn, r) ↦ elim (Bool-cases (bytes_eq cn id)) [
        | inl t ↦ inl (
          inr (name, refl, r ∙ ap some ((bytes_eq_iff cn id).0 t)),
          (rw (r, t) refl, rw (r, t) refl, path ∙ rw (r, verified, t) refl),
        )
        | inr f ↦ inr (
          (name, refl, λ k. ground (arith, bytes_eq_iff cn id, some-injective cn id (sym r ∙ k))),
          (rw (r, f) (λ bad. cc), rw (r, f) refl, path ∙ rw (r, verified, f) refl),
        )
      ]
    ]
