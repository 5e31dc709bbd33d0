-- ===== src/Money/RoundTrip.antt =====
-- internal/money/money.go: ParseMajor on what FormatMajor prints.
use bytedance_double_entry_l.Prelude.{
  ℕ, suc, ◌+◌, ◌/◌, ◌%◌, ◌^◌, ◌<◌, ◌≡◌, refl, Bool, true, false, [], ◌∷◌, ◌++◌, arith, All,
  All-append, append-nil, ◌≢◌, if◌then◌else◌, ap, ◌∙◌,
}
use bytedance_double_entry_l.Prelude.Int.{
  pos, negsuc, pos_part, neg_part, pos_not_negative, negsuc_negative,
}
use bytedance_double_entry_l.Prelude.Word.{add64, mul64, neg64, neg64-suc, neg64_negsuc}
use bytedance_double_entry_l.Errors.{ok, ◌>>=◌}
use bytedance_double_entry_l.Money.Currency.{Currency, Minor, is_supported}
use bytedance_double_entry_l.Money.Text.{Text, byte_len, replicate, digits, format_d}
use bytedance_double_entry_l.Money.Major.{
  is_empty, split_sign, pad_frac, scan_digits, assemble, parse_signed, parse_major, quo64, rem64,
  format_major,
}
use bytedance_double_entry_l.Money.Digits.{
  IsDigit, digits-IsDigit, digits-ne-nil, scan-digits, two_digits, scan_two, cut_dot-append,
  NotSpace, digit-NotSpace, trim_space_id, All-NotSpace, supported_decimals, supported_scale, body,
  dot_NotSpace, minus_NotSpace,
}

module _ (n : ℕ) where
  whole-IsDigit : All IsDigit (digits (n / 100))
  unfolding digits
  whole-IsDigit = digits-IsDigit (suc (n / 100)) (n / 100)

  whole-ne-nil : digits (n / 100) ≢ []
  unfolding digits
  whole-ne-nil = digits-ne-nil (n / 100) (n / 100)

  scan_whole : n < 2 ^ 63 → scan_digits (digits (n / 100)) (pos 0) ≡ ok (pos (n / 100))
  unfolding digits
  scan_whole h = scan-digits (suc (n / 100)) (n / 100) (omega arith) (omega arith)

  body-NotSpace : All NotSpace (body n)
  body-NotSpace =
      All-append NotSpace (digits (n / 100)) _ (All-NotSpace _ whole-IsDigit)
        (dot_NotSpace, (digit-NotSpace _ (omega arith), (digit-NotSpace _ (omega arith), tt)))

  scale_up : n < 2 ^ 63 → add64 (mul64 (pos (n / 100)) (pos 100)) (pos (n % 100)) ≡ pos n
  unfolding add64 mul64
  scale_up h = ground arith

  frac_bytes : byte_len ((b'0' + n % 100 / 10) ∷ (b'0' + n % 100 % 10) ∷ []) ≡ 2
  unfolding byte_len
  frac_bytes = ground arith

is_empty_cons : (s : Text) → s ≢ [] → is_empty s ≡ false
is_empty_cons [] h = absurd (h refl)
is_empty_cons (c ∷ s) h = refl

pad_frac_full : (s : Text) → byte_len s ≡ 2 → pad_frac 2 s ≡ s
unfolding pad_frac replicate
pad_frac_full s h = rw (h, append-nil)

split_sign_unsigned : (s t : Text) → s ≢ [] → All IsDigit s → split_sign (s ++ t) ≡ (false, s ++ t)
unfolding split_sign
split_sign_unsigned [] t e h = absurd (e refl)
split_sign_unsigned (c ∷ s) t e h = ground arith

body-ne-nil : (n : ℕ) → is_empty (body n) ≡ false
body-ne-nil n = append_not_empty (digits (n / 100)) _ _
  where
    append_not_empty : (s : Text) (c : ℕ) (t : Text) → is_empty (s ++ c ∷ t) ≡ false
    append_not_empty [] c t = refl
    append_not_empty (d ∷ s) c t = refl

module _ (c : Currency) (h : is_supported c ≡ true) (n : ℕ) (k : n < 2 ^ 63) where
  assemble-body :
      (is_neg : Bool)
      → assemble c is_neg (digits (n / 100)) ((b'0' + n % 100 / 10) ∷ (b'0' + n % 100 % 10) ∷ [])
        ≡ ok (if is_neg then neg64 (pos n) else pos n)
  unfolding assemble
  assemble-body is_neg = rw (
    supported_decimals c h,
    scan_whole n k,
    pad_frac_full _ (frac_bytes n),
    scan_two (n % 100) (omega arith),
    supported_scale c h,
    scale_up n k,
  )

  parse_signed-body :
      (is_neg : Bool)
      → parse_signed c is_neg (body n) ≡ ok (if is_neg then neg64 (pos n) else pos n)
  unfolding parse_signed
  parse_signed-body is_neg =
      rw
        (
          supported_decimals c h,
          cut_dot-append (digits (n / 100)) _ (whole-IsDigit n),
          is_empty_cons _ (whole-ne-nil n),
          frac_bytes n,
        )
        (assemble-body is_neg)

  format-pos : format_major c (pos n) ≡ ok (body n)
  unfolding format_major quo64 rem64 format_d
  format-pos = rw (
    supported_scale c h,
    supported_decimals c h,
    pos_not_negative n,
    two_digits (n % 100) (omega arith),
  )

  parse-pos : parse_major c (body n) ≡ ok (pos n)
  unfolding parse_major
  parse-pos =
      rw
        (
          supported_decimals c h,
          trim_space_id _ (body-NotSpace n),
          split_sign_unsigned _ _ (whole-ne-nil n) (whole-IsDigit n),
          body-ne-nil n,
        )
        (parse_signed-body false)

  parse-neg : parse_major c (b'-' ∷ body n) ≡ ok (neg64 (pos n))
  unfolding parse_major split_sign
  parse-neg =
      rw (supported_decimals c h, trim_space_id (b'-' ∷ body n) (minus_NotSpace, body-NotSpace n))
        (parse_signed-body true)

module _ (c : Currency) (h : is_supported c ≡ true) where
  format-neg : (n : ℕ) → suc n < 2 ^ 63 → format_major c (negsuc n) ≡ ok (b'-' ∷ body (suc n))
  unfolding format_major quo64 rem64 format_d
  format-neg n k = rw (
    supported_scale c h,
    supported_decimals c h,
    negsuc_negative n,
    neg64_negsuc n k,
    two_digits (suc n % 100) (omega arith),
  )

  -- ParseMajor reads back exactly the amount that FormatMajor printed, for every supported
  -- currency and every int64 amount but the least one.
  pub parse_major-format_major :
      (m : Minor)
      → pos_part m < 2 ^ 63
      → neg_part m < 2 ^ 63
      → (format_major c m >>= parse_major c) ≡ ok m
  parse_major-format_major (pos n) k l = rw (format-pos c h n k) (parse-pos c h n k)
  parse_major-format_major (negsuc n) k l =
      rw (format-neg n l) (parse-neg c h (suc n) l ∙ ap ok (neg64-suc n l))
