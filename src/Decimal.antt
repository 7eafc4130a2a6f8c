-- ===== src/Decimal.antt =====
-- Decimal numbers as the source prints and reads them: `strconv.FormatUint` and `%d` on unsigned
-- values, `strconv.ParseUint(s, 10, 32)` and `strconv.Atoi` on a run of digits.
use mathlib.Core.List.{concat-ne-nil}
use native.Mathlib.Nat.{pow-suc}
use chirpstack_gateway_bridg.Prelude.{
  refl, ◌≢◌, refl, ltb, leb, if◌then◌else◌, ltb→lt, lt→ltb, Bool-cases, All, All-append, Bytes, ℕ,
  zero, suc, ◌+◌, ◌-◌, ◌*◌, ◌/◌, ◌%◌, ◌^◌, ◌<◌, ◌≡◌, refl, ap, ◌∙◌, ◌≢◌, inl, inr, Bool, true, ◌&&◌,
  Option, none, some, [], ◌∷◌, ◌++◌, arith,
}

-- With fuel for k digits; the last digit is the last byte.
pub digits : ℕ → ℕ → Bytes
digits zero n = []
digits (suc k) n =
    let more = digits k (n / 10) in
    if ltb n 10 then (b'0' + n) ∷ [] else more ++ (b'0' + n % 10) ∷ []

-- Twenty digits are enough for an unsigned integer of 64 bits.
unfoldable pub format_uint : ℕ → Bytes
unfolding digits
format_uint n = digits 20 n

unfoldable pub is_digit : ℕ → Bool
is_digit c = leb b'0' c && leb c b'9'

-- The value of a run of digits; `none` at any other byte.
pub read_digits : ℕ → Bytes → Option ℕ
read_digits acc [] = some acc
read_digits acc (c ∷ cs) =
    let rest = read_digits (acc * 10 + (c - b'0')) cs in if is_digit c then rest else none

-- `none` where the value is out of range.
abbrev pub below : ℕ → Option ℕ → Option ℕ
below limit none = none
below limit (some n) = if ltb n limit then some n else none

-- `strconv.ParseUint(s, 10, bits)` with 2 ^ bits = limit, and `strconv.Atoi` at text without a sign.
unfoldable pub parse_uint : ℕ → Bytes → Option ℕ
unfolding read_digits is_digit
parse_uint limit [] = none
parse_uint limit (c ∷ cs) = below limit (read_digits 0 (c ∷ cs))

abbrev pub AreDigits : Bytes → Type 0
AreDigits = All (λ c. is_digit c ≡ true)

read_digits-append :
    (acc : ℕ) (xs ys : Bytes) (n : ℕ)
    → read_digits acc xs ≡ some n
    → read_digits acc (xs ++ ys) ≡ read_digits n ys
unfolding read_digits
read_digits-append acc [] ys n e = ground arith
read_digits-append acc (c ∷ cs) ys n e = elim (Bool-cases (is_digit c)) [
  | inl yes_digit ↦
      rw yes_digit (read_digits-append (acc * 10 + (c - b'0')) cs ys n (rw yes_digit at e))
  | inr not_digit ↦ cc (rw not_digit at e)
]

-- One more digit at the end.
read_digits-snoc :
    (xs : Bytes) (m d : ℕ)
    → read_digits 0 xs ≡ some m
    → d < 10
    → read_digits 0 (xs ++ (b'0' + d) ∷ []) ≡ some (m * 10 + d)
read_digits-snoc xs m d e h =
    read_digits-append 0 xs ((b'0' + d) ∷ []) m e ∙ unfold read_digits is_digit in ground arith

digits-suc :
    (k n : ℕ)
    → digits (suc k) n
      ≡ (if ltb n 10 then (b'0' + n) ∷ [] else digits k (n / 10) ++ (b'0' + n % 10) ∷ [])
unfolding digits
digits-suc k n = refl

read_digits_one : (n : ℕ) → n < 10 → read_digits 0 ((b'0' + n) ∷ []) ≡ some n
unfolding read_digits is_digit
read_digits_one n h = ground arith

-- With fuel for its digits, a printed number reads back.
read_digits-digits : (k n : ℕ) → n < 10 ^ k → 0 < k → read_digits 0 (digits k n) ≡ some n
read_digits-digits zero n h p = absurd (omega arith)
read_digits-digits (suc zero) n h p =
    rw (digits-suc, lt→ltb n 10 (omega arith)) (read_digits_one n (omega arith))
read_digits-digits (suc (suc k)) n h p = elim (Bool-cases (ltb n 10)) [
  | inl one ↦ rw (digits-suc, one) (read_digits_one n (ltb→lt n 10 one))
  | inr more ↦
      let smaller : n / 10 < 10 ^ suc k = omega (arith, pow-suc 10 (suc k)) in
      rw (digits-suc, more)
        (read_digits-snoc (digits (suc k) (n / 10)) (n / 10) (n % 10)
            (read_digits-digits (suc k) (n / 10) smaller (omega arith)) (omega arith)
          ∙ ap some (omega arith))
]

is_digit_of : (d : ℕ) → d < 10 → is_digit (b'0' + d) ≡ true
unfolding is_digit
is_digit_of d h = ground arith

digits-AreDigits : (k n : ℕ) → AreDigits (digits k n)
unfolding digits
digits-AreDigits zero n = tt
digits-AreDigits (suc k) n = elim (Bool-cases (ltb n 10)) [
  | inl one ↦ rw one (is_digit_of n (ltb→lt n 10 one), tt)
  | inr more ↦ rw more (
      All-append _ (digits k (n / 10)) _ (digits-AreDigits k (n / 10))
        (is_digit_of (n % 10) (omega arith), tt))
]

pub format_uint-AreDigits : (n : ℕ) → AreDigits (format_uint n)
unfolding format_uint
format_uint-AreDigits n = digits-AreDigits 20 n

digits-ne-nil : (k n : ℕ) → 0 < k → digits k n ≢ []
digits-ne-nil zero n p e = absurd (omega arith)
digits-ne-nil (suc k) n p e = elim (Bool-cases (ltb n 10)) [
  | inl one ↦ cc (rw (digits-suc, one) at e)
  | inr more ↦ concat-ne-nil _ (digits k (n / 10)) (rw (digits-suc, more) at e)
]

pub format_uint-ne-nil : (n : ℕ) → format_uint n ≢ []
unfolding format_uint
format_uint-ne-nil n e = digits-ne-nil 20 n (omega arith) e

pub parse_uint_of :
    (limit n : ℕ) (xs : Bytes)
    → xs ≢ []
    → read_digits 0 xs ≡ some n
    → n < limit
    → parse_uint limit xs ≡ some n
unfolding parse_uint
parse_uint_of limit n [] p e h = absurd (p refl)
parse_uint_of limit n (c ∷ cs) p e h = rw e (ground arith)

-- Every number below the limit, and below 10 ^ 20, is read back from its decimal text.
pub parse_uint-format_uint :
    (limit n : ℕ) → n < limit → n < 10 ^ 20 → parse_uint limit (format_uint n) ≡ some n
unfolding format_uint
parse_uint-format_uint limit n h k =
    parse_uint_of limit n (digits 20 n) (digits-ne-nil 20 n (omega arith))
      (read_digits-digits 20 n k (omega arith)) h
