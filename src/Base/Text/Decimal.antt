-- ===== src/Base/Text/Decimal.antt =====
-- strconv.FormatUint, FormatInt, Itoa and ParseInt in base 10.
use gnoracle.Base.{
  ℕ, zero, suc, ◌+◌, ◌-◌, ◌*◌, ◌/◌, ◌%◌, ◌^◌, ◌≤◌, ◌<◌, Bool, true, false, not, ◌&&◌, [], ◌∷◌,
  Option, none, some, ◌≡◌, ◌≢◌, refl, sym, ◌⊎◌, inl, inr, Bool-cases, subst, ◌∙◌, arith, ltb, leb,
  ◌==◌, if◌then◌else◌, All, ℤ, pos, negsuc, sub_ℕ,
}
use gnoracle.Base.Int64.{two63, two64, IsInt64}
use gnoracle.Base.Text.{Bytes}
use gnoracle.Base.Text.Search.{Lacks}

-- Twenty digits hold every uint64.
digits : ℕ → ℕ → Bytes → Bytes
digits zero n out = out
digits (suc f) n out =
    let out' = (b'0' + n % 10) ∷ out in
    let rest = digits f (n / 10) out' in if ltb n 10 then out' else rest

unfoldable pub format_uint : ℕ → Bytes
unfolding digits
format_uint n = digits 20 n []

unfoldable pub format_int : ℤ → Bytes
unfolding format_uint
format_int (pos n) = format_uint n
format_int (negsuc n) = b'-' ∷ format_uint (suc n)

abbrev pub IsDigit : ℕ → Type 0
IsDigit c = (b'0' ≤ c) × (c ≤ b'9')

-- The number that digits spell behind `n`, or none at a byte that is no digit.
unfoldable pub scan : ℕ → Bytes → Option ℕ
scan n [] = some n
scan n (c ∷ s) = if leb b'0' c && leb c b'9' then scan (n * 10 + (c - b'0')) s else none

parse_digits : Bytes → Option ℕ
unfolding scan
parse_digits [] = none
parse_digits (c ∷ s) = scan 0 (c ∷ s)

-- ParseUint with 64 bits.
unfoldable pub parse_uint : Bytes → Option ℕ
unfolding parse_digits
parse_uint s = elim (parse_digits s) [ some n ↦ if ltb n two64 then some n else none | none ↦ none ]

uint_from : ℕ → Bytes → ℕ
uint_from n [] = n
uint_from n (c ∷ s) =
    let n' = n * 10 + (c - b'0') in
    let rest = uint_from n' s in
    if not (leb b'0' c && leb c b'9') then 0 else if ltb n' two64 then rest else two64 - 1

-- The number of ParseUint where its error is dropped: zero for what is no number, and the
-- largest one for what does not fit.
unfoldable pub uint_or_zero : Bytes → ℕ
unfolding uint_from
uint_or_zero s = uint_from 0 s

-- The number of ParseInt where its error is dropped: the nearest of int64 for what does not fit.
unfoldable pub int_or_zero : Bytes → ℤ
unfolding uint_or_zero
int_or_zero [] = pos 0
int_or_zero (c ∷ s) =
    let below = uint_or_zero s in
    let above = uint_or_zero (if c == b'+' then s else c ∷ s) in
    if c == b'-'
    then sub_ℕ 0 (if leb below two63 then below else two63)
    else pos (if ltb above two63 then above else two63 - 1)

-- A number with its sign, held to int64.
signed : Bool → ℕ → Option ℤ
signed true n = if leb n two63 then some (sub_ℕ 0 n) else none
signed false n = if ltb n two63 then some (pos n) else none

unfoldable pub parse_signed : Bool → Bytes → Option ℤ
unfolding parse_digits signed
parse_signed neg s = elim (parse_digits s) [ some n ↦ signed neg n | none ↦ none ]

unfoldable pub parse_int : Bytes → Option ℤ
unfolding parse_signed
parse_int [] = none
parse_int (c ∷ s) =
    if c == b'-'
    then parse_signed true s
    else if c == b'+'
    then parse_signed false s
    else parse_signed false (c ∷ s)

digits-All : (f n : ℕ) (out : Bytes) → All IsDigit out → All IsDigit (digits f n out)
unfolding digits
digits-All zero n out h = h
digits-All (suc f) n out h = ground (arith, digits-All f (n / 10) ((b'0' + n % 10) ∷ out))

pub format_uint-All : (n : ℕ) → All IsDigit (format_uint n)
unfolding format_uint
format_uint-All n = digits-All 20 n [] tt

scan_digit : (n : ℕ) (out : Bytes) → scan (n / 10) ((b'0' + n % 10) ∷ out) ≡ scan n out
unfolding scan
scan_digit n out = ground arith

scan-digits : (f n : ℕ) (out : Bytes) → n < 10 ^ f → 0 < f → scan 0 (digits f n out) ≡ scan n out
unfolding digits
scan-digits zero n out h p = absurd (omega arith)
scan-digits (suc zero) n out h p = ground (arith, scan_digit n out)
scan-digits (suc (suc f)) n out h p =
    ground (arith, scan_digit n out, scan-digits (suc f) (n / 10) ((b'0' + n % 10) ∷ out))

pub scan-format_uint : (n : ℕ) → n < two64 → scan 0 (format_uint n) ≡ some n
unfolding format_uint
scan-format_uint n h = rw (scan-digits 20 n [] (omega arith) (omega arith)) (unfold scan in refl)

-- Different numbers have different prints.
pub format_uint-injective :
    (n m : ℕ) → n < two64 → m < two64 → format_uint n ≡ format_uint m → n ≡ m
format_uint-injective n m hn hm e = cc (scan-format_uint n hn, scan-format_uint m hm)

-- No byte that is not a digit stands in the print of a number.
pub format_uint-Lacks : (b n : ℕ) → (b < b'0') ⊎ (b'9' < b) → Lacks b (format_uint n)
format_uint-Lacks b n h = All-map (format_uint n) (format_uint-All n)
  where
    All-map : (s : Bytes) → All IsDigit s → Lacks b s
    All-map [] _ = tt
    All-map (c ∷ s) (d, hs) = (ground arith, All-map s hs)

digits_cons : (f n c : ℕ) (out : Bytes) → (d : ℕ) × (s : Bytes) × (digits f n (c ∷ out) ≡ d ∷ s)
unfolding digits
digits_cons zero n c out = (c, out, refl)
digits_cons (suc f) n c out = elim (Bool-cases (ltb n 10)) [
  | inl last ↦ (b'0' + n % 10, c ∷ out, rw last)
  | inr more ↦ rw more (digits_cons f (n / 10) (b'0' + n % 10) (c ∷ out))
]

pub format_uint-cons : (n : ℕ) → (c : ℕ) × (s : Bytes) × (format_uint n ≡ c ∷ s)
unfolding format_uint digits
format_uint-cons n = elim (Bool-cases (ltb n 10)) [
  | inl last ↦ (b'0' + n % 10, [], rw last)
  | inr more ↦ rw more (digits_cons 19 (n / 10) (b'0' + n % 10) [])
]

parse_digits_print :
    (n : ℕ) (c : ℕ) (s : Bytes)
    → n < two64
    → format_uint n ≡ c ∷ s
    → (parse_digits (c ∷ s) ≡ some n) × IsDigit c
unfolding parse_digits
parse_digits_print n c s h e = (
  subst (λ t. scan 0 t ≡ some n) e (scan-format_uint n h),
  (subst (All IsDigit) e (format_uint-All n)).0,
)

parse_signed-format_uint :
    (neg : Bool) (n : ℕ) → n < two64 → parse_signed neg (format_uint n) ≡ signed neg n
unfolding parse_signed
parse_signed-format_uint neg n h =
    let (c, s, e) = format_uint-cons n in rw e (ground (arith, (parse_digits_print n c s h e).0))

parse_int_digits :
    (n : ℕ) → n < two64 → parse_int (format_uint n) ≡ parse_signed false (format_uint n)
parse_int_digits n h =
    let (c, s, e) = format_uint-cons n in
    let d = (parse_digits_print n c s h e).1 in rw e (unfold parse_int in ground arith)

-- Every int64 is read back from its decimal print.
pub parse_int-format_int : (z : ℤ) → IsInt64 z → parse_int (format_int z) ≡ some z
unfolding format_int
parse_int-format_int (pos n) h =
    parse_int_digits n (omega arith)
    ∙ parse_signed-format_uint false n (omega arith)
    ∙ unfold signed in ground arith
parse_int-format_int (negsuc n) h =
    unfold parse_int in
    parse_signed-format_uint true (suc n) (omega arith) ∙ unfold signed in ground arith

pub format_int-Lacks : (b : ℕ) (z : ℤ) → (b < b'0') ⊎ (b'9' < b) → b ≢ b'-' → Lacks b (format_int z)
unfolding format_int
format_int-Lacks b (pos n) h _ = format_uint-Lacks b n h
format_int-Lacks b (negsuc n) h ne = (λ e. ne (sym e), format_uint-Lacks b (suc n) h)
