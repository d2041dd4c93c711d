-- ===== src/DateTime/Fractions.antt =====
-- The fraction of a second in RFC 3339, printed in each of the formats of datetime.cpp and parsed.
use native.Mathlib.Nat.{pow-succ'}
use azure_sdk_for_cpp.Base.{
  ℕ, zero, suc, ◌+◌, ◌-◌, ◌*◌, ◌/◌, ◌^◌, ◌<◌, ◌≡◌, ◌≢◌, refl, sym, ◌∙◌, ap, true, arith, ◌==◌,
  if◌then◌else◌, Bytes, codes, ◌++◌, ◌∷◌, [], drop, length, Bool-cases, ◌⊎◌, inl, inr, ==_iff,
}
use azure_sdk_for_cpp.DateTime.Calendar.{ticks_in_second}
use azure_sdk_for_cpp.DateTime.Format.{
  digit, pad7, TimeFractionFormat, drop_trailing_zeros, all_digits, truncate, fraction, trim_zeros,
  is_nil,
}
use azure_sdk_for_cpp.DateTime.Parse.{at, is_digit, fraction_loop, parse_fraction}
use azure_sdk_for_cpp.DateTime.Digits.{is_digit-digit}

abbrev AllDigits : Bytes → Type 0
AllDigits [] = Unit {0}
AllDigits (c ∷ cs) = (is_digit 9 c ≡ true) × AllDigits cs

-- The number that digits stand for, after a number that was read before them.
value : ℕ → Bytes → ℕ
value acc [] = acc
value acc (c ∷ cs) = value (acc * 10 + (c - b'0')) cs

fraction_loop-end : (k acc : ℕ) → fraction_loop k acc (codes "Z") ≡ (acc * 10 ^ k, codes "Z")
unfolding fraction_loop
fraction_loop-end zero acc = ap (λ n. (n, codes "Z")) (omega arith)
fraction_loop-end (suc k) acc = refl

-- A digit is read as long as digits are wanted.
fraction_loop-digit :
    (k acc c : ℕ) (s : Bytes)
    → is_digit 9 c ≡ true
    → fraction_loop (suc k) acc (c ∷ s) ≡ fraction_loop k (acc * 10 + (c - b'0')) s
unfolding fraction_loop
fraction_loop-digit k acc c s h = rw h refl

shift : (acc c k : ℕ) → c ≡ b'0' → acc * 10 ^ suc k ≡ (acc * 10 + (c - b'0')) * 10 ^ k
shift acc c k e = rw (pow-succ' 10 k, e) (omega arith)

trim_step :
    (c acc k z : ℕ) (rest : Bytes)
    → is_digit 9 c ≡ true
    → fraction_loop k (acc * 10 + (c - b'0')) (rest ++ codes "Z") ≡ (z, codes "Z")
    → fraction_loop
        (suc k)
        acc
        ((if is_nil rest then (if c == b'0' then [] else c ∷ []) else c ∷ rest) ++ codes "Z")
      ≡ (z, codes "Z")
trim_step c acc k z [] d ih = elim (Bool-cases (c == b'0')) [
  | inl e ↦ rw e (
      fraction_loop-end (suc k) acc
      ∙ ap (λ n. (n, codes "Z")) (shift acc c k ((==_iff c b'0').0 e))
      ∙ sym (fraction_loop-end k (acc * 10 + (c - b'0')))
      ∙ ih)
  | inr e ↦ rw e (fraction_loop-digit k acc c (codes "Z") d ∙ ih)
]
trim_step c acc k z (x ∷ rest) d ih = fraction_loop-digit k acc c (x ∷ rest ++ codes "Z") d ∙ ih

-- The trailing zeros that were cut off are made up for by the multiplications at the end.
fraction_loop-trim_zeros :
    (ds : Bytes) (acc : ℕ)
    → AllDigits ds
    → fraction_loop (length ds) acc (trim_zeros ds ++ codes "Z") ≡ (value acc ds, codes "Z")
unfolding trim_zeros value
fraction_loop-trim_zeros [] acc h = fraction_loop-end 0 acc ∙ ap (λ n. (n, codes "Z")) (omega arith)
fraction_loop-trim_zeros (c ∷ cs) acc (d, h) =
    trim_step c acc (length cs) (value (acc * 10 + (c - b'0')) cs) (trim_zeros cs) d
      (fraction_loop-trim_zeros cs (acc * 10 + (c - b'0')) h)

-- One more digit of a number.
value_step : (m n k : ℕ) → k ≡ n / 10 → m ≡ k → m * 10 + (digit n - b'0') ≡ n
value_step m n k e f = omega arith

module _ (frac : ℕ) (h : frac < ticks_in_second) where
  AllDigits-pad7 : AllDigits (pad7 frac)
  AllDigits-pad7 = (
    is_digit-digit 9 (frac / 1_000_000) (omega arith),
    (
      is_digit-digit 9 (frac / 100_000) (omega arith),
      (
        is_digit-digit 9 (frac / 10_000) (omega arith),
        (
          is_digit-digit 9 (frac / 1000) (omega arith),
          (
            is_digit-digit 9 (frac / 100) (omega arith),
            (is_digit-digit 9 (frac / 10) (omega arith), (is_digit-digit 9 frac (omega arith), tt)),
          ),
        ),
      ),
    ),
  )

  value-pad7 : value 0 (pad7 frac) ≡ frac
  unfolding value
  value-pad7 = value_step _ frac (frac / 10) refl (
      value_step _ (frac / 10) (frac / 100) (omega arith) (
        value_step _ (frac / 100) (frac / 1000) (omega arith) (
          value_step _ (frac / 1000) (frac / 10_000) (omega arith) (
            value_step _ (frac / 10_000) (frac / 100_000) (omega arith) (
              value_step _ (frac / 100_000) (frac / 1_000_000) (omega arith)
                (value_step 0 (frac / 1_000_000) 0 (omega arith) refl))))))

  fraction_loop-pad7 : fraction_loop 7 0 (trim_zeros (pad7 frac) ++ codes "Z") ≡ (frac, codes "Z")
  fraction_loop-pad7 =
      fraction_loop-trim_zeros (pad7 frac) 0 AllDigits-pad7 ∙ ap (λ n. (n, codes "Z")) value-pad7

-- What is left of digits that are not all zeros starts with a digit.
trim_zeros-first :
    (c : ℕ) (cs s : Bytes)
    → is_digit 9 c ≡ true
    → (trim_zeros (c ∷ cs) ≡ []) ⊎ (is_digit 9 (at (trim_zeros (c ∷ cs) ++ s) 0) ≡ true)
unfolding trim_zeros
trim_zeros-first c cs s d = elim (Bool-cases (is_nil (trim_zeros cs))) [
  | inl e ↦ rw e (elim (Bool-cases (c == b'0')) [ inl z ↦ rw z (inl refl) | inr z ↦ rw z (inr d) ])
  | inr e ↦ rw e (inr d)
]

-- The fraction that is kept by a format.
abbrev pub kept : TimeFractionFormat → ℕ → ℕ
kept drop_trailing_zeros frac = frac
kept all_digits frac = frac
kept truncate frac = 0

-- '.' and the digits.
parse_fraction-point :
    (s : Bytes) (frac : ℕ) (rest : Bytes)
    → is_digit 9 (at s 0) ≡ true
    → fraction_loop 7 0 s ≡ (frac, rest)
    → parse_fraction (b'.' ∷ s) ≡ (frac, rest)
unfolding parse_fraction
parse_fraction-point s frac rest d e = rw d e

parse_fraction-end : parse_fraction (codes "Z") ≡ (0, codes "Z")
unfolding parse_fraction
parse_fraction-end = refl

fraction_loop-digits :
    (ds : Bytes) (acc : ℕ)
    → AllDigits ds
    → fraction_loop (length ds) acc (ds ++ codes "Z") ≡ (value acc ds, codes "Z")
unfolding value
fraction_loop-digits [] acc h = fraction_loop-end 0 acc ∙ ap (λ n. (n, codes "Z")) (omega arith)
fraction_loop-digits (c ∷ cs) acc (d, h) =
    fraction_loop-digit (length cs) acc c (cs ++ codes "Z") d
    ∙ fraction_loop-digits cs (acc * 10 + (c - b'0')) h

parse_fraction-pad7 :
    (frac : ℕ)
    → frac < ticks_in_second
    → parse_fraction (b'.' ∷ pad7 frac ++ codes "Z") ≡ (frac, codes "Z")
parse_fraction-pad7 frac h =
    parse_fraction-point (pad7 frac ++ codes "Z") frac (codes "Z") (AllDigits-pad7 frac h).0 (
      fraction_loop-digits (pad7 frac) 0 (AllDigits-pad7 frac h)
      ∙ ap (λ n. (n, codes "Z")) (value-pad7 frac h))

-- Unless it is zero, a fraction without its trailing zeros still has a digit.
parse_fraction-trim_zeros :
    (frac : ℕ)
    → frac < ticks_in_second
    → frac ≢ 0
    → parse_fraction (b'.' ∷ trim_zeros (pad7 frac) ++ codes "Z") ≡ (frac, codes "Z")
parse_fraction-trim_zeros frac h nonzero =
    elim (trim_zeros-first (digit (frac / 1_000_000)) (drop 1 (pad7 frac)) (codes "Z")
      (AllDigits-pad7 frac h).0) [
        | inl e ↦ absurd (
            nonzero (
              sym (
                ap (λ (p : ℕ × Bytes). p.0)
                  (sym (fraction_loop-end 7 0)
                    ∙ ap (λ s. fraction_loop 7 0 (s ++ codes "Z")) (sym e)
                    ∙ fraction_loop-pad7 frac h))))
        | inr d ↦
            parse_fraction-point (trim_zeros (pad7 frac) ++ codes "Z") frac (codes "Z") d
              (fraction_loop-pad7 frac h)
      ]

pub parse_fraction-fraction :
    (format : TimeFractionFormat) (frac : ℕ)
    → frac < ticks_in_second
    → parse_fraction (fraction format frac ++ codes "Z") ≡ (kept format frac, codes "Z")
unfolding fraction
parse_fraction-fraction truncate frac h = parse_fraction-end
parse_fraction-fraction all_digits frac h = parse_fraction-pad7 frac h
parse_fraction-fraction drop_trailing_zeros frac h = elim (Bool-cases (frac == 0)) [
  | inl none ↦ rw (none, (==_iff frac 0).0 none) parse_fraction-end
  | inr some ↦ rw some (parse_fraction-trim_zeros frac h (λ e. ground arith))
]
