-- ===== src/Sx1301/Heard.antt =====
-- The frequencies on which a concentrator listens, for the two configurations that are made of the channels
-- (internal/backend/basicstation/structs/router_config.go and internal/backend/semtechudp/pf_config.go).
use chirpstack_gateway_bridg.Prelude.{
  ◌==◌, if◌then◌else◌, length, set_at, set_from, nat_key, bytes_key, ℕ, zero, suc, ◌+◌, ◌≡◌, refl,
  ap, ◌∙◌, Bool, true, false, not, ◌&&◌, Option, none, some, List, [], ◌∷◌, map, arith,
}
use chirpstack_gateway_bridg.Prelude.Int.{ℤ, pos, add_ℤ}
use chirpstack_gateway_bridg.Platform.{Modulation, lora, fsk, other_modulation}
use chirpstack_gateway_bridg.Sx1301.Radios.{LoraModulationConfig, get_lora_config, Channel}

-- The channels of LoRa modulation, with parameters, and with any number of spreading factors but one; and those
-- with one.
abbrev pub multi_sf_of : Option LoraModulationConfig → Bool
multi_sf_of none = false
multi_sf_of (some i) = not (length i.spreading_factors == 1)

abbrev pub single_sf_of : Option LoraModulationConfig → Bool
single_sf_of none = false
single_sf_of (some i) = length i.spreading_factors == 1

abbrev pub on_lora : Bool → Modulation → Bool
on_lora b lora = b
on_lora b fsk = false
on_lora b (other_modulation n) = false

abbrev pub is_multi_sf : Channel → Bool
is_multi_sf c = on_lora (multi_sf_of (get_lora_config c.modulation_config)) c.modulation

abbrev pub is_single_sf : Channel → Bool
is_single_sf c = on_lora (single_sf_of (get_lora_config c.modulation_config)) c.modulation

abbrev pub multi_sf_frequencies : List Channel → List (Option ℤ)
multi_sf_frequencies [] = []
multi_sf_frequencies (c ∷ cs) =
    if is_multi_sf c
    then some (pos c.frequency) ∷ multi_sf_frequencies cs
    else multi_sf_frequencies cs

-- The last channel with one spreading factor.
abbrev pub single_sf_frequency : List Channel → Option ℤ → Option ℤ
single_sf_frequency [] f = f
single_sf_frequency (c ∷ cs) f =
    single_sf_frequency cs (if is_single_sf c then some (pos c.frequency) else f)

-- The frequency of an entry: that of its radio, and the intermediate frequency.
abbrev pub tuned_by : (ℕ → ℤ) → Bool → ℕ → ℤ → Option ℤ
tuned_by radio enable r if_freq = if enable then some (add_ℤ if_freq (radio r)) else none

pub map-set_at :
    {A B : Type 0} (g : A → B) (n : ℕ) (x : A) (xs : List A)
    → map g (set_at n x xs) ≡ set_at n (g x) (map g xs)
map-set_at g n x [] = refl
map-set_at g zero x (y ∷ ys) = refl
map-set_at g (suc n) x (y ∷ ys) = ap (◌∷◌ (g y)) (map-set_at g n x ys)

-- What a concentrator hears: the standard channel, the multi-SF channels, and the number of the latter so far.
abbrev pub Heard : Type 0
Heard = Option ℤ × List (Option ℤ) × ℕ

abbrev pub hear : Bool → Bool → ℕ → Heard → Heard
hear true single f (std, multi, n) = (std, set_at n (some (pos f)) multi, suc n)
hear false true f (std, multi, n) = (some (pos f), multi, n)
hear false false f s = s

abbrev pub hear_all : List Channel → Heard → Heard
hear_all [] h = h
hear_all (c ∷ cs) h = hear_all cs (hear (is_multi_sf c) (is_single_sf c) c.frequency h)

exclusive :
    (i : Option LoraModulationConfig) (m : Modulation)
    → on_lora (multi_sf_of i) m && on_lora (single_sf_of i) m ≡ false
exclusive none lora = refl
exclusive (some i) lora = ground arith
exclusive i fsk = refl
exclusive i (other_modulation n) = refl

-- After all channels, from any entries.
pub hear_all-eq :
    (cs : List Channel) (std : Option ℤ) (multi : List (Option ℤ)) (n : ℕ)
    → ((hear_all cs (std, multi, n)).0 ≡ single_sf_frequency cs std)
      × ((hear_all cs (std, multi, n)).1 ≡ set_from n (multi_sf_frequencies cs) multi)
hear_all-eq [] std multi n = (refl, refl)
hear_all-eq (c ∷ cs) std multi n =
    go (λ std multi n. hear_all-eq cs std multi n) (is_multi_sf c) (is_single_sf c)
      (exclusive (get_lora_config c.modulation_config) c.modulation)
  where
    go :
        ((std : Option ℤ) (multi : List (Option ℤ)) (n : ℕ)
          → ((hear_all cs (std, multi, n)).0 ≡ single_sf_frequency cs std)
            × ((hear_all cs (std, multi, n)).1 ≡ set_from n (multi_sf_frequencies cs) multi))
        → (m s : Bool) → m && s ≡ false
        → ((hear_all cs (hear m s c.frequency (std, multi, n))).0
            ≡ single_sf_frequency cs (if s then some (pos c.frequency) else std))
          × ((hear_all cs (hear m s c.frequency (std, multi, n))).1
              ≡ set_from n
                  (if m
                    then some (pos c.frequency) ∷ multi_sf_frequencies cs
                    else multi_sf_frequencies cs)
                  multi)
    go ih true true h = cc
    go ih true false h = ih std (set_at n (some (pos c.frequency)) multi) (suc n)
    go ih false true h = ih (some (pos c.frequency)) multi n
    go ih false false h = ih std multi n

-- The number of the multi-SF channels.
pub hear_all-count :
    (cs : List Channel) (std : Option ℤ) (multi : List (Option ℤ)) (n : ℕ)
    → (hear_all cs (std, multi, n)).2 ≡ n + length (multi_sf_frequencies cs)
hear_all-count [] std multi n = omega arith
hear_all-count (c ∷ cs) std multi n =
    go (λ std multi n. hear_all-count cs std multi n) (is_multi_sf c) (is_single_sf c)
  where
    go :
        ((std : Option ℤ) (multi : List (Option ℤ)) (n : ℕ)
          → (hear_all cs (std, multi, n)).2 ≡ n + length (multi_sf_frequencies cs))
        → (m s : Bool)
        → (hear_all cs (hear m s c.frequency (std, multi, n))).2
          ≡ n
            + length (
                if m
                then some (pos c.frequency) ∷ multi_sf_frequencies cs
                else multi_sf_frequencies cs)
    go ih true s = ih std (set_at n (some (pos c.frequency)) multi) (suc n) ∙ omega arith
    go ih false true = ih (some (pos c.frequency)) multi n
    go ih false false = ih std multi n
