-- ===== src/Basicstation/Structs/RouterConfig/Frequencies.antt =====
-- router_config.go: the frequencies of the channels that `GetRouterConfig` makes of a concentrator, in any order.
use mathlib.Core.Path.{subst}
use mathlib.Core.List.{append_assoc, Permᴰ}
use mathlib.Core.List.Permᴰ.{
  nil, cons, swap, trans, append_right, append_left, append_comm, append-nil,
}
use chirpstack_gateway_bridg.Prelude.{
  ◌==◌, if◌then◌else◌, Bool-cases, nat_key, bytes_key, ℕ, ◌≡◌, refl, sym, ap, ◌∙◌, inl, inr, Bool,
  true, false, Option, none, some, List, [], ◌∷◌, ◌++◌, map,
}
use chirpstack_gateway_bridg.Prelude.Int.{ℤ, pos}
use chirpstack_gateway_bridg.Sx1301.Radios.{Channel}
use chirpstack_gateway_bridg.Sx1301.Heard.{
  is_multi_sf, is_single_sf, multi_sf_frequencies, single_sf_frequency,
}
use chirpstack_gateway_bridg.Basicstation.Structs.RouterConfig.Concentrator.{
  Concentrator, multi_sf_channel, fsk_channel, lora_std_channel, channels_of,
}

module _ {A B : Type 0} (g : A → List B) where
  concat_map : List A → List B
  concat_map [] = []
  concat_map (x ∷ xs) = g x ++ concat_map xs

  concat_map-append : (xs ys : List A) → concat_map (xs ++ ys) ≡ concat_map xs ++ concat_map ys
  unfolding concat_map
  concat_map-append [] ys = refl
  concat_map-append (x ∷ xs) ys =
      ap (λ o. g x ++ o) (concat_map-append xs ys)
      ∙ sym (append_assoc (g x) (concat_map xs) (concat_map ys))

  exchange : (a b : A) (l : List B) → Permᴰ (g a ++ (g b ++ l)) (g b ++ (g a ++ l))
  exchange a b l =
      subst (λ o. Permᴰ o (g b ++ (g a ++ l))) (append_assoc (g a) (g b) l)
        (subst (Permᴰ ((g a ++ g b) ++ l)) (append_assoc (g b) (g a) l)
          (append_right l (append_comm (g a) (g b))))

  concat_map-permuted : {xs ys : List A} → Permᴰ xs ys → Permᴰ (concat_map xs) (concat_map ys)
  unfolding concat_map
  concat_map-permuted nil = nil
  concat_map-permuted (cons {a = a} {l₁ = xs} {l₂ = ys} e p) =
      subst (λ z. Permᴰ (g a ++ concat_map xs) (g z ++ concat_map ys)) e
        (append_left (g a) (concat_map-permuted p))
  concat_map-permuted (swap {a = a} {b = b} {b' = b'} {l = l} e f) =
      subst (λ z. Permᴰ (g a ++ (g b ++ concat_map l)) (g z ++ (g b' ++ concat_map l))) f
        (subst (λ z. Permᴰ (g a ++ (g b ++ concat_map l)) (g b ++ (g z ++ concat_map l))) e
          (exchange a b (concat_map l)))
  concat_map-permuted (trans p q) = trans (concat_map-permuted p) (concat_map-permuted q)

-- A list of no or of one entry has one order only.
permuted_nil : {xs ys : List ℕ} → Permᴰ xs ys → ys ≡ [] → xs ≡ []
permuted_nil nil e = e
permuted_nil (cons h p) e = cc
permuted_nil (swap h k) e = cc
permuted_nil (trans p q) e = permuted_nil p (permuted_nil q e)

permuted_single : {xs ys : List ℕ} (a : ℕ) → Permᴰ xs ys → ys ≡ a ∷ [] → xs ≡ a ∷ []
permuted_single a nil e = e
permuted_single a (cons {l₂ = l} h p) e =
    let rest : l ≡ [] = cc in let none_left = permuted_nil p rest in cc
permuted_single a (swap h k) e = cc
permuted_single a (trans p q) e = permuted_single a p (permuted_single a q e)

many : Channel → List ℕ
many c = if is_multi_sf c then c.frequency ∷ [] else []

one : Channel → List ℕ
one c = if is_single_sf c then c.frequency ∷ [] else []

last_of : Option ℤ → List ℕ → Option ℤ
last_of f [] = f
last_of f (x ∷ xs) = last_of (some (pos x)) xs

multi_sf_frequencies-many :
    (cs : List Channel) → multi_sf_frequencies cs ≡ map (λ f. some (pos f)) (concat_map many cs)
unfolding concat_map many
multi_sf_frequencies-many [] = refl
multi_sf_frequencies-many (c ∷ cs) = go (is_multi_sf c) (multi_sf_frequencies-many cs)
  where
    go :
        (t : Bool)
        → multi_sf_frequencies cs ≡ map (λ f. some (pos f)) (concat_map many cs)
        → (if t then some (pos c.frequency) ∷ multi_sf_frequencies cs else multi_sf_frequencies cs)
          ≡ map (λ f. some (pos f)) ((if t then c.frequency ∷ [] else []) ++ concat_map many cs)
    go true e = ap (◌∷◌ (some (pos c.frequency))) e
    go false e = e

single_sf_frequency-one :
    (cs : List Channel) (f : Option ℤ) → single_sf_frequency cs f ≡ last_of f (concat_map one cs)
unfolding concat_map one last_of
single_sf_frequency-one [] f = refl
single_sf_frequency-one (c ∷ cs) f =
    single_sf_frequency-one cs (if is_single_sf c then some (pos c.frequency) else f)
    ∙ go (is_single_sf c)
  where
    go :
        (t : Bool)
        → last_of (if t then some (pos c.frequency) else f) (concat_map one cs)
          ≡ last_of f ((if t then c.frequency ∷ [] else []) ++ concat_map one cs)
    go true = unfold last_of in refl
    go false = refl

module _ (d : Concentrator) where
  many-multi_sf_channel : (fs : List ℕ) → concat_map many (map multi_sf_channel fs) ≡ fs
  unfolding concat_map many multi_sf_channel
  many-multi_sf_channel [] = refl
  many-multi_sf_channel (f ∷ fs) = ap (◌∷◌ f) (many-multi_sf_channel fs)

  one-multi_sf_channel : (fs : List ℕ) → concat_map one (map multi_sf_channel fs) ≡ []
  unfolding concat_map one multi_sf_channel
  one-multi_sf_channel [] = refl
  one-multi_sf_channel (f ∷ fs) = one-multi_sf_channel fs

  many-fsk_channel : (f : ℕ) → concat_map many (fsk_channel f) ≡ []
  unfolding concat_map many fsk_channel
  many-fsk_channel f = elim (Bool-cases (f == 0)) [ inl t ↦ rw t refl | inr n ↦ rw n refl ]

  one-fsk_channel : (f : ℕ) → concat_map one (fsk_channel f) ≡ []
  unfolding concat_map one fsk_channel
  one-fsk_channel f = elim (Bool-cases (f == 0)) [ inl t ↦ rw t refl | inr n ↦ rw n refl ]

  many-lora_std_channel : concat_map many (lora_std_channel d) ≡ []
  unfolding concat_map many lora_std_channel
  many-lora_std_channel = elim (Bool-cases (d.lora_std_frequency == 0)) [
    | inl t ↦ rw t refl
    | inr n ↦ rw n refl
  ]

  abbrev pub standard : List ℕ
  standard = if d.lora_std_frequency == 0 then [] else d.lora_std_frequency ∷ []

  one-lora_std_channel : concat_map one (lora_std_channel d) ≡ standard
  unfolding concat_map one lora_std_channel
  one-lora_std_channel = elim (Bool-cases (d.lora_std_frequency == 0)) [
    | inl t ↦ rw t refl
    | inr n ↦ rw n refl
  ]

  many-channels_of : concat_map many (channels_of d) ≡ d.multi_sf_frequencies ++ []
  unfolding channels_of
  many-channels_of =
      concat_map-append many (map multi_sf_channel d.multi_sf_frequencies) _
      ∙ ap (λ o. o ++ concat_map many (fsk_channel d.fsk_frequency ++ lora_std_channel d))
          (many-multi_sf_channel d.multi_sf_frequencies)
      ∙ ap (λ o. d.multi_sf_frequencies ++ o)
          (concat_map-append many (fsk_channel d.fsk_frequency) (lora_std_channel d)
            ∙ ap (λ o. o ++ concat_map many (lora_std_channel d)) (many-fsk_channel d.fsk_frequency)
            ∙ many-lora_std_channel)

  one-channels_of : concat_map one (channels_of d) ≡ standard
  unfolding channels_of
  one-channels_of =
      concat_map-append one (map multi_sf_channel d.multi_sf_frequencies) _
      ∙ ap (λ o. o ++ concat_map one (fsk_channel d.fsk_frequency ++ lora_std_channel d))
          (one-multi_sf_channel d.multi_sf_frequencies)
      ∙ concat_map-append one (fsk_channel d.fsk_frequency) (lora_std_channel d)
      ∙ ap (λ o. o ++ concat_map one (lora_std_channel d)) (one-fsk_channel d.fsk_frequency)
      ∙ one-lora_std_channel

  -- The frequency of the standard channel, where it is configured.
  abbrev pub standard_frequency : Option ℤ
  standard_frequency = if d.lora_std_frequency == 0 then none else some (pos d.lora_std_frequency)

  pub single_sf_frequency-channels_of :
      (cs : List Channel)
      → Permᴰ cs (channels_of d)
      → single_sf_frequency cs none ≡ standard_frequency
  unfolding last_of
  single_sf_frequency-channels_of cs p =
      let same = concat_map-permuted one p in
      single_sf_frequency-one cs none ∙ elim (Bool-cases (d.lora_std_frequency == 0)) [
        | inl t ↦
            let is : standard ≡ [] = rw t refl in
            ap (last_of none) (permuted_nil same (one-channels_of ∙ is)) ∙ rw t refl
        | inr f ↦
            let is : standard ≡ d.lora_std_frequency ∷ [] = rw f refl in
            ap (last_of none) (permuted_single d.lora_std_frequency same (one-channels_of ∙ is))
            ∙ rw f refl
      ]

  pub multi_sf_frequencies-channels_of :
      (cs : List Channel)
      → Permᴰ cs (channels_of d)
      → (fs : List ℕ) × Permᴰ fs d.multi_sf_frequencies
        × (multi_sf_frequencies cs ≡ map (λ f. some (pos f)) fs)
  multi_sf_frequencies-channels_of cs p = (
    concat_map many cs,
    trans (subst (Permᴰ (concat_map many cs)) many-channels_of (concat_map-permuted many p))
        (append-nil d.multi_sf_frequencies),
    multi_sf_frequencies-many cs,
  )
