-- ===== src/Sx1301/Radios/Cover.antt =====
-- sx1301v1.go: radios that could be planned cover their channels.
use mathlib.Core.Path.{subst}
use chirpstack_gateway_bridg.Prelude.{
  leb, ◌==◌, leb→le, Bool-cases, All, Pointwise, Result, ok, err, >>=-eq-ok, ok-injective, ℕ, suc,
  ◌+◌, ◌/◌, ◌%◌, ◌^◌, ◌≤◌, ◌<◌, ◌≡◌, refl, ◌∙◌, ◌≢◌, ◌↔◌, ◌⊎◌, inl, inr, true, false, List, [], ◌∷◌,
  arith,
}
use chirpstack_gateway_bridg.Sx1301.Radios.{
  Channel, channel_bandwidth, radio_bandwidth, channel_min, channel_max, half_radio,
  min_radio_center_freq, RadioError, place_next, place, plan, get_radio_frequencies, covers,
  radio_from, get_radio_for_channel,
}

-- A channel at 2 MHz or more, and far enough from the end of the 32 bits that nothing wraps.
abbrev pub InRange : Channel → Type 0
InRange c =
    (2000000 ≤ c.frequency) × (channel_bandwidth c ≤ 925000) × (c.frequency + 2000000 < 2 ^ 32)

-- Each channel has a minimal centre frequency that is at least n, and that of the one before.
abbrev pub Ascending : ℕ → List Channel → Type 0
Ascending n [] = Unit
Ascending n (c ∷ cs) = (n ≤ min_radio_center_freq c) × Ascending (min_radio_center_freq c) cs

-- A radio with a frequency that covers the channel.
abbrev Fits : Channel → ℕ → Type 0
Fits c r = (0 < r) × (covers c r ≡ true)

abbrev Covered : Channel → List ℕ → Type 0
Covered c [] = ⊥
Covered c (r ∷ rs) = Fits c r ⊎ Covered c rs

-- Radios that have no frequency, or one up to n.
abbrev Below : ℕ → List ℕ → Type 0
Below n = All (λ r. (r ≡ 0) ⊎ ((1000000 ≤ r) × (r ≤ n)))

-- A frequency, once set, stays.
abbrev Keeps : List ℕ → List ℕ → Type 0
Keeps = Pointwise (λ r s. (0 < r) → r ≡ s)

pub half_radio_bounds : (c : Channel) → (462500 ≤ half_radio c) × (half_radio c ≤ 550000)
unfolding half_radio radio_bandwidth
half_radio_bounds c = ground arith

-- Without wrap-around.
pub channel_max_eq :
    (c : Channel) → InRange c → channel_max c ≡ c.frequency + channel_bandwidth c / 2
unfolding channel_max
channel_max_eq c h = ground arith

pub channel_min_eq :
    (c : Channel) → InRange c → channel_min c + channel_bandwidth c / 2 ≡ c.frequency
unfolding channel_min
channel_min_eq c h = ground arith

pub center_eq : (c : Channel) → InRange c → min_radio_center_freq c ≡ channel_min c + half_radio c
unfolding min_radio_center_freq
center_eq c h = ground (arith, half_radio_bounds c, channel_min_eq c h)

covers_center :
    (c : Channel)
    → InRange c
    → (1000000 ≤ min_radio_center_freq c) × (covers c (min_radio_center_freq c) ≡ true)
unfolding covers
covers_center c h =
    ground (arith, half_radio_bounds c, channel_min_eq c h, channel_max_eq c h, center_eq c h)

covers_earlier :
    (c : Channel) (r : ℕ)
    → InRange c
    → 1000000 ≤ r
    → r ≤ min_radio_center_freq c
    → channel_max c ≤ (r + half_radio c) % 2 ^ 32
    → covers c r ≡ true
unfolding covers
covers_earlier c r h big le fit =
    ground (arith, half_radio_bounds c, channel_min_eq c h, channel_max_eq c h, center_eq c h)

Keeps-refl : (rs : List ℕ) → Keeps rs rs
Keeps-refl [] = tt
Keeps-refl (r ∷ rs) = (λ p. refl, Keeps-refl rs)

Keeps-trans : (rs ss ts : List ℕ) → Keeps rs ss → Keeps ss ts → Keeps rs ts
Keeps-trans [] [] [] h k = tt
Keeps-trans [] [] (t ∷ ts) h k = absurd k
Keeps-trans [] (s ∷ ss) ts h k = absurd h
Keeps-trans (r ∷ rs) [] ts h k = absurd h
Keeps-trans (r ∷ rs) (s ∷ ss) [] h k = absurd k
Keeps-trans (r ∷ rs) (s ∷ ss) (t ∷ ts) h k =
    (λ p. h.0 p ∙ k.0 (subst (λ x. 0 < x) (h.0 p) p), Keeps-trans rs ss ts h.1 k.1)

Covered-Keeps : (c : Channel) (rs ss : List ℕ) → Keeps rs ss → Covered c rs → Covered c ss
Covered-Keeps c [] ss h k = absurd k
Covered-Keeps c (r ∷ rs) [] h k = absurd h
Covered-Keeps c (r ∷ rs) (s ∷ ss) h (inl f) = inl (subst (Fits c) (h.0 f.0) f)
Covered-Keeps c (r ∷ rs) (s ∷ ss) h (inr k) = inr (Covered-Keeps c rs ss h.1 k)

Below-mono : (n m : ℕ) (rs : List ℕ) → n ≤ m → Below n rs → Below m rs
Below-mono n m [] le h = tt
Below-mono n m (r ∷ rs) le (inl z, h) = (inl z, Below-mono n m rs le h)
Below-mono n m (r ∷ rs) le (inr b, h) = (inr (b.0, omega arith), Below-mono n m rs le h)

-- What a round of the loop over the channels leaves.
abbrev Placed : Channel → List ℕ → List ℕ → Type 0
Placed c rs ss = Covered c ss × Keeps rs ss × Below (min_radio_center_freq c) ss

-- A radio that is passed over.
place_next-Placed :
    (c : Channel) (r : ℕ) (rs : List ℕ) (m : Result RadioError (List ℕ)) (ss : List ℕ)
    → (r ≡ 0) ⊎ ((1000000 ≤ r) × (r ≤ min_radio_center_freq c))
    → ((more : List ℕ) → m ≡ ok more → rs ≢ [] → Placed c rs more)
    → place_next c r rs m ≡ ok ss
    → Placed c (r ∷ rs) ss
place_next-Placed c r [] m ss b h e = cc
place_next-Placed c r (s ∷ rs) (err x) ss b h e = cc
place_next-Placed c r (s ∷ rs) (ok more) ss b h e =
    let (cov, keep, below) = h more refl (λ bad. cc) in
    subst (Placed c (r ∷ s ∷ rs)) (ok-injective e) (inr cov, (λ p. refl, keep), (b, below))

place-Placed :
    (c : Channel) (rs ss : List ℕ)
    → InRange c
    → Below (min_radio_center_freq c) rs
    → rs ≢ []
    → place c rs ≡ ok ss
    → Placed c rs ss
unfolding place
place-Placed c [] ss h b n e = absurd (n refl)
place-Placed c (r ∷ rs) ss h b n e = elim (Bool-cases (r == 0)) [
  | inl unset ↦
      let (big, fits) = covers_center c h in
      subst (Placed c (r ∷ rs)) (ok-injective (rw unset at e)) (
        inl (omega arith, fits),
        (λ p. absurd (ground arith), Keeps-refl rs),
        (inr (big, omega arith), b.1),
      )
  | inr set_already ↦ elim (Bool-cases (leb (channel_max c) ((r + half_radio c) % 2 ^ 32))) [
    | inl fits ↦
        subst (Placed c (r ∷ rs)) (ok-injective (rw (set_already, fits) at e))
          (inl (fits_of (ground (arith, b.0)) fits), (λ p. refl, Keeps-refl rs), b)
    | inr out ↦
        place_next-Placed c r rs (place c rs) ss b.0 (λ more m k. place-Placed c rs more h b.1 k m)
          (rw (set_already, out) at e)
  ]
]
  where
    fits_of :
        (1000000 ≤ r) × (r ≤ min_radio_center_freq c)
        → leb (channel_max c) ((r + half_radio c) % 2 ^ 32) ≡ true
        → Fits c r
    fits_of k f = (
      omega arith,
      covers_earlier c r h k.0 k.1 (leb→le (channel_max c) ((r + half_radio c) % 2 ^ 32) f),
    )

Keeps-ne-nil : (rs ss : List ℕ) → rs ≢ [] → Keeps rs ss → ss ≢ []
Keeps-ne-nil [] ss n k = absurd (n refl)
Keeps-ne-nil (r ∷ rs) [] n k = absurd k
Keeps-ne-nil (r ∷ rs) (s ∷ ss) n k = λ bad. cc

All-map :
    {P Q : Channel → Type 0}
    → ((c : Channel) → P c → Q c)
    → (cs : List Channel) → All P cs
    → All Q cs
All-map f [] h = tt
All-map f (c ∷ cs) h = (f c h.0, All-map f cs h.1)

later : (c : Channel) (r : ℕ) (rs : List ℕ) → covers c r ≡ false → Covered c (r ∷ rs) → Covered c rs
later c r rs out (inl f) = absurd (ground (arith, f.1, out))
later c r rs out (inr k) = k

Covered-radio_from :
    (c : Channel) (i : ℕ) (rs : List ℕ) → Covered c rs → (k : ℕ) × (radio_from c i rs ≡ ok k)
unfolding radio_from
Covered-radio_from c i [] k = absurd k
Covered-radio_from c i (r ∷ rs) h = elim (Bool-cases (covers c r)) [
  | inl fits ↦ (i, rw fits refl)
  | inr out ↦ let (k, e) = Covered-radio_from c (suc i) rs (later c r rs out h) in (k, rw out e)
]

plan-Covered :
    (cs : List Channel) (n : ℕ) (rs ss : List ℕ)
    → All InRange cs
    → Ascending n cs
    → Below n rs
    → rs ≢ []
    → plan cs rs ≡ ok ss
    → All (λ c. Covered c ss) cs × Keeps rs ss
unfolding plan
plan-Covered [] n rs ss h a b m e = (tt, subst (Keeps rs) (ok-injective e) (Keeps-refl rs))
plan-Covered (c ∷ cs) n rs ss h a b m e =
    let (next, one, rest) = >>=-eq-ok (place c rs) (λ next. plan cs next) e in
    let (cov, keep, below) =
      place-Placed c rs next h.0 (Below-mono n (min_radio_center_freq c) rs a.0 b) m one in
    let (all, keeps) =
      plan-Covered cs (min_radio_center_freq c) next ss h.1 a.1 below (Keeps-ne-nil rs next m keep)
        rest in
    ((Covered-Keeps c next ss keeps cov, all), Keeps-trans rs next ss keep keeps)

-- If `GetRadioFrequencies` returns radios, `GetRadioForChannel` finds one of them for each of its channels. The
-- sort puts the channels in the order of their minimal centre frequencies and keeps what holds of all of them; all
-- channels are from 2 MHz up to 2 MHz below 2^32 Hz, and have a bandwidth of 925 kHz at most.
pub get_radio_for_channel-get_radio_frequencies :
    (sort : List Channel → List Channel) (channels : List Channel) (radios : List ℕ)
    → Ascending 0 (sort channels)
    → ((P : Channel → Type 0) → All P channels ↔ All P (sort channels))
    → All InRange channels
    → get_radio_frequencies sort channels ≡ ok radios
    → All (λ c. (k : ℕ) × (get_radio_for_channel radios c ≡ ok k)) channels
unfolding get_radio_frequencies get_radio_for_channel
get_radio_for_channel-get_radio_frequencies sort channels radios a keeps h e =
    let (cov, k) =
      plan-Covered (sort channels) 0 (0 ∷ 0 ∷ []) radios ((keeps InRange).0 h) a
        (inl refl, (inl refl, tt)) (λ bad. cc) e in
    (keeps (λ c. (k : ℕ) × (radio_from c 0 radios ≡ ok k))).1
      (All-map (λ c. Covered-radio_from c 0 radios) (sort channels) cov)
