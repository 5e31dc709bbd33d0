-- ===== src/Money/Digits.antt =====
-- How the digit loops of ParseMajor read what `%d` and `%0*d` print.
use bytedance_double_entry_l.Prelude.{
  ℕ, zero, suc, ◌+◌, ◌-◌, ◌*◌, ◌/◌, ◌%◌, ◌^◌, ◌≤◌, ◌<◌, ◌≡◌, refl, true, false, [], ◌∷◌, ◌++◌,
  arith, All, All-append, ltb, lt→ltb, ltb→lt, Bool-cases, inl, inr, ◌≢◌,
}
use bytedance_double_entry_l.Prelude.Int.{ℤ, pos}
use bytedance_double_entry_l.Prelude.Word.{add64, mul64}
use bytedance_double_entry_l.Errors.{ok, ◌>>=◌}
use bytedance_double_entry_l.Money.Currency.{Currency, is_supported, decimals, scale}
use bytedance_double_entry_l.Money.Text.{
  Text, is_space, trim_left, trim_right, trim_space, cut_dot, replicate, digits_from, digits,
  format_0d,
}
use bytedance_double_entry_l.Money.Major.{scan_digits}

abbrev pub IsDigit : ℕ → Type 0
IsDigit c = (b'0' ≤ c) × (c ≤ b'9')

pub step_in_range :
    (n d : ℕ) → n * 10 + d < 2 ^ 63 → add64 (mul64 (pos n) (pos 10)) (pos d) ≡ pos (n * 10 + d)
unfolding add64 mul64
step_in_range n d h = ground arith

pub digits-IsDigit : (f n : ℕ) → All IsDigit (digits_from f n)
unfolding digits_from
digits-IsDigit zero n = tt
digits-IsDigit (suc f) n = elim (Bool-cases (ltb n 10)) [
  | inl small ↦ rw small (ground arith)
  | inr large ↦ rw large (All-append IsDigit _ _ (digits-IsDigit f (n / 10)) (omega arith))
]

pub digits-ne-nil : (f n : ℕ) → digits_from (suc f) n ≢ []
unfolding digits_from
digits-ne-nil f n = elim (Bool-cases (ltb n 10)) [
  | inl small ↦ rw small (cc)
  | inr large ↦ rw large (append_ne_nil (digits_from f (n / 10)) _)
]
  where
    append_ne_nil : (s : Text) (c : ℕ) → s ++ c ∷ [] ≢ []
    append_ne_nil [] c = cc
    append_ne_nil (d ∷ s) c = cc

pub scan-append :
    (s t : Text) (acc : ℤ) → scan_digits (s ++ t) acc ≡ (scan_digits s acc >>= scan_digits t)
unfolding scan_digits
scan-append [] t acc = refl
scan-append (c ∷ s) t acc =
    ground (arith, scan-append s t (add64 (mul64 acc (pos 10)) (pos (c - b'0'))))

pub scan_one :
    (n d : ℕ)
    → d < 10
    → n * 10 + d < 2 ^ 63
    → scan_digits ((b'0' + d) ∷ []) (pos n) ≡ ok (pos (n * 10 + d))
unfolding scan_digits
scan_one n d h k = ground (arith, step_in_range n d k)

pub scan-digits :
    (f n : ℕ) → n < f → n < 2 ^ 63 → scan_digits (digits_from f n) (pos 0) ≡ ok (pos n)
unfolding digits_from
scan-digits zero n h k = elim h [ ]
scan-digits (suc f) n h k = elim (Bool-cases (ltb n 10)) [
  | inl small ↦ rw small (ground (arith, scan_one 0 n))
  | inr large ↦
      rw (large, scan-append, scan-digits f (n / 10) (ground arith) (omega arith))
        (ground (arith, scan_one (n / 10) (n % 10)))
]

pub digits_one : (n : ℕ) → n < 10 → digits n ≡ (b'0' + n) ∷ []
unfolding digits
digits_one n h = rw (lt→ltb n 10 h)

pub digits_two :
    (n : ℕ) → ltb n 10 ≡ false → n < 100 → digits n ≡ (b'0' + n / 10) ∷ (b'0' + n % 10) ∷ []
unfolding digits
digits_two zero h k = cc
digits_two (suc n) h k = rw (h, lt→ltb (suc n / 10) 10 (omega arith))

pub two_digits : (n : ℕ) → n < 100 → format_0d 2 (pos n) ≡ (b'0' + n / 10) ∷ (b'0' + n % 10) ∷ []
unfolding format_0d replicate
two_digits n h = elim (Bool-cases (ltb n 10)) [
  | inl small ↦ rw (digits_one n (ltb→lt n 10 small)) (ground arith)
  | inr large ↦ rw (digits_two n large h)
]

pub scan_two :
    (n : ℕ) → n < 100 → scan_digits ((b'0' + n / 10) ∷ (b'0' + n % 10) ∷ []) (pos 0) ≡ ok (pos n)
unfolding scan_digits
scan_two n h = ground (arith, step_in_range 0 (n / 10), step_in_range (n / 10) (n % 10))

pub cut_dot-append : (s t : Text) → All IsDigit s → cut_dot (s ++ b'.' ∷ t) ≡ (s, t, true)
unfolding cut_dot
cut_dot-append [] t h = refl
cut_dot-append (c ∷ s) t h = ground (arith, cut_dot-append s t h.1)

abbrev pub NotSpace : ℕ → Type 0
NotSpace c = is_space c ≡ false

pub digit-NotSpace : (c : ℕ) → IsDigit c → NotSpace c
unfolding is_space
digit-NotSpace c h = ground arith

pub trim_right_id : (s : Text) → All NotSpace s → trim_right s ≡ s
unfolding trim_right
trim_right_id [] h = refl
trim_right_id (c ∷ []) h = rw (h.0)
trim_right_id (c ∷ d ∷ s) h = rw (trim_right_id (d ∷ s) h.1)

pub trim_space_id : (s : Text) → All NotSpace s → trim_space s ≡ s
unfolding trim_space trim_left
trim_space_id [] h = refl
trim_space_id (c ∷ s) h = rw h.0 (trim_right_id (c ∷ s) h)

pub All-NotSpace : (s : Text) → All IsDigit s → All NotSpace s
All-NotSpace [] h = tt
All-NotSpace (c ∷ s) h = (digit-NotSpace c h.0, All-NotSpace s h.1)

pub supported_decimals : (c : Currency) → is_supported c ≡ true → decimals c ≡ ok 2
unfolding is_supported decimals
supported_decimals c h = ground arith

pub supported_scale : (c : Currency) → is_supported c ≡ true → scale c ≡ ok (pos 100)
unfolding scale mul64
supported_scale c h = rw (supported_decimals c h)

-- the text of an amount without its sign
abbrev pub body : ℕ → Text
body n = digits (n / 100) ++ b'.' ∷ (b'0' + n % 100 / 10) ∷ (b'0' + n % 100 % 10) ∷ []

pub dot_NotSpace : NotSpace b'.'
unfolding is_space
dot_NotSpace = refl

pub minus_NotSpace : NotSpace b'-'
unfolding is_space
minus_NotSpace = refl
