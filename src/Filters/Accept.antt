-- ===== src/Filters/Accept.antt =====
-- filters.go: exactly which frames are dropped.
use mathlib.Core.Path.{subst₂}
use chirpstack_gateway_bridg.Prelude.{
  if◌then◌else◌, Bool-cases, All, Bytes, bytes_eq, bytes_eq_iff, u_be, ◌<◌, ◌≡◌, refl, sym, ◌≢◌,
  ◌↔◌, ◌⊎◌, inl, inr, Bool, true, false, ◌&&◌, Option, none, some, List, [], ◌∷◌, arith,
}
use chirpstack_gateway_bridg.Filters.{
  MType, join_request, unconfirmed_data_up, confirmed_data_up, rejoin_request, MacPayload,
  mac_payload, join_request_payload, rejoin_request02_payload, rejoin_request1_payload, PhyPayload,
  Lorawan, Filters, is_empty, found, match_net_id_filter, match_net_id_filter_for_dev_addr,
  in_range, match_join_eui_filter, match_phy, match_decoded, match_filters,
}

abbrev IsOutside : Bytes → Bytes × Bytes → Type 0
IsOutside e r = (u_be e < u_be r.0) ⊎ (u_be r.1 < u_be e)

-- The reasons to drop a frame of type `t` with payload `p`: there are filters of a kind that the frame
-- has an identifier for, and it fits none of them.
pub data Dropped (lw : Lorawan) (f : Filters) (t : MType) (p : MacPayload) : Type 0 where
  foreign_dev_addr :
      (a : Bytes)
      → (t ≡ unconfirmed_data_up) ⊎ (t ≡ confirmed_data_up)
      → p ≡ mac_payload a
      → f.net_ids ≢ []
      → All (λ n. lw.is_net_id a n ≡ false) f.net_ids
      → Dropped lw f t p
  foreign_join_eui :
      (e : Bytes)
      → t ≡ join_request
      → p ≡ join_request_payload e
      → f.join_euis ≢ []
      → All (IsOutside e) f.join_euis
      → Dropped lw f t p
  foreign_net_id :
      (n : Bytes)
      → t ≡ rejoin_request
      → p ≡ rejoin_request02_payload n
      → f.net_ids ≢ []
      → All (λ m. m ≢ n) f.net_ids
      → Dropped lw f t p
  foreign_rejoin_eui :
      (e : Bytes)
      → t ≡ rejoin_request
      → p ≡ rejoin_request1_payload e
      → f.join_euis ≢ []
      → All (IsOutside e) f.join_euis
      → Dropped lw f t p

module _ {ℓ} {A : Type ℓ} (test : A → Bool) (P : A → Type 0) where
  found-All : ((a : A) → test a ≡ false → P a) → (xs : List A) → found test xs ≡ false → All P xs
  unfolding found
  found-All h [] e = tt
  found-All h (x ∷ xs) e = elim (Bool-cases (test x)) [
    | inl hit ↦ cc (rw hit at e)
    | inr miss ↦ (h x miss, found-All h xs (rw miss at e))
  ]

  All-found : ((a : A) → P a → test a ≡ false) → (xs : List A) → All P xs → found test xs ≡ false
  unfolding found
  All-found h [] p = refl
  All-found h (x ∷ xs) p = rw (h x p.0) (All-found h xs p.1)

  -- The filters on a list fail exactly when it is not empty and no entry fits.
  fails_iff :
      ((a : A) → (test a ≡ false) ↔ P a)
      → (xs : List A)
      → ((if is_empty xs then true else found test xs) ≡ false) ↔ ((xs ≢ []) × All P xs)
  unfolding is_empty
  fails_iff h [] = (λ e. cc, λ q. absurd (q.0 refl))
  fails_iff h (x ∷ xs) = (
    λ e. ((λ c. cc), found-All (λ a. (h a).0) (x ∷ xs) e),
    λ q. All-found (λ a. (h a).1) (x ∷ xs) q.1,
  )

in_range_fails_iff : (e : Bytes) (r : Bytes × Bytes) → (in_range (u_be e) r ≡ false) ↔ IsOutside e r
unfolding in_range
in_range_fails_iff e (lo, hi) = (λ h. ground arith, λ h. ground arith)

bytes_eq_fails_iff : (n m : Bytes) → (bytes_eq m n ≡ false) ↔ (m ≢ n)
bytes_eq_fails_iff n m = (
  λ h e. cc ((bytes_eq_iff m n).1 e),
  λ h. elim (Bool-cases (bytes_eq m n)) [
    | inl same ↦ absurd (h ((bytes_eq_iff m n).0 same))
    | inr other ↦ other
  ],
)

module _ (lw : Lorawan) (f : Filters) where
  join_eui_fails_iff :
      (e : Bytes)
      → (match_join_eui_filter f e ≡ false) ↔ ((f.join_euis ≢ []) × All (IsOutside e) f.join_euis)
  unfolding match_join_eui_filter
  join_eui_fails_iff e =
      fails_iff (in_range (u_be e)) (IsOutside e) (in_range_fails_iff e) f.join_euis

  net_id_fails_iff :
      (n : Bytes)
      → (match_net_id_filter f n ≡ false) ↔ ((f.net_ids ≢ []) × All (λ m. m ≢ n) f.net_ids)
  unfolding match_net_id_filter
  net_id_fails_iff n = fails_iff (λ m. bytes_eq m n) (λ m. m ≢ n) (bytes_eq_fails_iff n) f.net_ids

  dev_addr_fails_iff :
      (a : Bytes)
      → (match_net_id_filter_for_dev_addr lw f a ≡ false)
        ↔ ((f.net_ids ≢ []) × All (λ n. lw.is_net_id a n ≡ false) f.net_ids)
  unfolding match_net_id_filter_for_dev_addr
  dev_addr_fails_iff a =
      fails_iff (lw.is_net_id a) (λ n. lw.is_net_id a n ≡ false) (λ n. (λ e. e, λ e. e)) f.net_ids

  match_phy-Dropped : (t : MType) (p : MacPayload) → match_phy lw f t p ≡ false → Dropped lw f t p
  unfolding match_phy
  match_phy-Dropped unconfirmed_data_up (mac_payload a) e =
      let (n, out) = (dev_addr_fails_iff a).0 e in foreign_dev_addr a (inl refl) refl n out
  match_phy-Dropped confirmed_data_up (mac_payload a) e =
      let (n, out) = (dev_addr_fails_iff a).0 e in foreign_dev_addr a (inr refl) refl n out
  match_phy-Dropped join_request (join_request_payload e) h =
      let (n, out) = (join_eui_fails_iff e).0 h in foreign_join_eui e refl refl n out
  match_phy-Dropped rejoin_request (rejoin_request02_payload i) e =
      let (n, out) = (net_id_fails_iff i).0 e in foreign_net_id i refl refl n out
  match_phy-Dropped rejoin_request (rejoin_request1_payload e) h =
      let (n, out) = (join_eui_fails_iff e).0 h in foreign_rejoin_eui e refl refl n out
  match_phy-Dropped _ p e = cc

  Dropped-match_phy : (t : MType) (p : MacPayload) → Dropped lw f t p → match_phy lw f t p ≡ false
  unfolding match_phy
  Dropped-match_phy t p (foreign_dev_addr a (inl et) ep n out) =
      subst₂ (λ t p. match_phy lw f t p ≡ false) (sym et) (sym ep)
        ((dev_addr_fails_iff a).1 (n, out))
  Dropped-match_phy t p (foreign_dev_addr a (inr et) ep n out) =
      subst₂ (λ t p. match_phy lw f t p ≡ false) (sym et) (sym ep)
        ((dev_addr_fails_iff a).1 (n, out))
  Dropped-match_phy t p (foreign_join_eui e et ep n out) =
      subst₂ (λ t p. match_phy lw f t p ≡ false) (sym et) (sym ep)
        ((join_eui_fails_iff e).1 (n, out))
  Dropped-match_phy t p (foreign_net_id i et ep n out) =
      subst₂ (λ t p. match_phy lw f t p ≡ false) (sym et) (sym ep) ((net_id_fails_iff i).1 (n, out))
  Dropped-match_phy t p (foreign_rejoin_eui e et ep n out) =
      subst₂ (λ t p. match_phy lw f t p ≡ false) (sym et) (sym ep)
        ((join_eui_fails_iff e).1 (n, out))

  Dropped-has_filters :
      (t : MType) (p : MacPayload) → Dropped lw f t p → (f.net_ids ≢ []) ⊎ (f.join_euis ≢ [])
  Dropped-has_filters t p (foreign_dev_addr a et ep n out) = inl n
  Dropped-has_filters t p (foreign_join_eui e et ep n out) = inr n
  Dropped-has_filters t p (foreign_net_id i et ep n out) = inl n
  Dropped-has_filters t p (foreign_rejoin_eui e et ep n out) = inr n

  has_filters_guard :
      (xs : List Bytes) (ys : List (Bytes × Bytes))
      → (xs ≢ []) ⊎ (ys ≢ [])
      → (is_empty xs && is_empty ys) ≡ false
  unfolding is_empty
  has_filters_guard [] [] (inl n) = absurd (n refl)
  has_filters_guard [] [] (inr n) = absurd (n refl)
  has_filters_guard [] (y ∷ ys) h = refl
  has_filters_guard (x ∷ xs) ys h = refl

  match_decoded-Dropped :
      (o : Option PhyPayload)
      → match_decoded lw f o ≡ false
      → (phy : PhyPayload) × (o ≡ some phy) × Dropped lw f phy.m_type phy.payload
  unfolding match_decoded
  match_decoded-Dropped none e = cc
  match_decoded-Dropped (some phy) e = (phy, refl, match_phy-Dropped phy.m_type phy.payload e)

  -- A frame is dropped exactly when it decodes to a frame that there is a reason to drop: a data
  -- uplink whose DevAddr is of none of the NetIDs, a join or type 1 rejoin request whose JoinEUI is
  -- outside all ranges, or another rejoin request whose NetID is none of the NetIDs, each only where
  -- filters of that kind are configured. All else is passed on, frames that do not decode included.
  pub match_filters_drops_iff :
      (bs : Bytes)
      → (match_filters lw f bs ≡ false)
        ↔ ((phy : PhyPayload) × (lw.decode bs ≡ some phy) × Dropped lw f phy.m_type phy.payload)
  unfolding match_filters
  match_filters_drops_iff bs = (
    λ e. elim (Bool-cases (is_empty f.net_ids && is_empty f.join_euis)) [
      | inl bare ↦ cc (rw bare at e)
      | inr guarded ↦ match_decoded-Dropped (lw.decode bs) (rw guarded at e)
    ],
    λ (phy, decodes, why).
        rw
          (has_filters_guard f.net_ids f.join_euis (Dropped-has_filters phy.m_type phy.payload why))
          (unfold match_decoded in
            rw (decodes, match_decoded) (Dropped-match_phy phy.m_type phy.payload why)),
  )
