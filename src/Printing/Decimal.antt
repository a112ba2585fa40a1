-- ===== src/Printing/Decimal.antt =====
-- A printed number against a reader of decimal digits.
use asynchronous_http_web_se.Base.{
  ℤ, pos, negsuc, ℕ, Bool, zero, suc, ◌+◌, ◌-◌, ◌*◌, ◌/◌, ◌%◌, ◌≤◌, ◌≡◌, refl, ap, ◌∙◌, inl, inr,
  Bool-cases, true, false, ◌&&◌, [], ◌∷◌, ◌++◌, Bytes, leb, ◌==◌, arith, if◌then◌else◌, if_cases,
}
use asynchronous_http_web_se.Printing.{digits_before, print_size, to_string}

abbrev pub is_digit : ℕ → Bool
is_digit c = leb 48 c && leb c 57

-- Reads digits as long as there are any: the number, and what stands behind it.
unfoldable pub read_number : Bytes → ℕ → ℕ × Bytes
read_number [] n = (n, [])
read_number (c ∷ s) n =
    let rest = read_number s (n * 10 + (c - 48)) in if is_digit c then rest else (n, c ∷ s)

read_last : (n : ℕ) (out : Bytes) → read_number ((48 + n % 10) ∷ out) (n / 10) ≡ read_number out n
unfolding read_number
read_last n out =
    let digit : is_digit (48 + n % 10) ≡ true = ground arith in
    let whole : n / 10 * 10 + (48 + n % 10 - 48) ≡ n = omega arith in
    rw digit (ap (read_number out) whole)

read-digits_before :
    (fuel n : ℕ) (out : Bytes)
    → n ≤ fuel
    → read_number (digits_before fuel n out) 0 ≡ read_number out n
unfolding digits_before
read-digits_before zero n out h = ground arith
read-digits_before (suc fuel) n out h =
    if_cases (λ (s : Bytes). read_number s 0 ≡ read_number out n) (n == 0) _ _
      (λ e. ap (read_number out) {x = 0} {y = n} (ground arith))
      (λ e. read-digits_before fuel (n / 10) ((48 + n % 10) ∷ out) (ground arith) ∙ read_last n out)

abbrev pub StartsNoDigit : Bytes → Type 0
StartsNoDigit [] = Unit {0}
StartsNoDigit (c ∷ s) = is_digit c ≡ false

read_number-stop : (s : Bytes) (n : ℕ) → StartsNoDigit s → read_number s n ≡ (n, s)
unfolding read_number
read_number-stop [] n h = refl
read_number-stop (c ∷ s) n h = rw h refl

digits_before-append :
    (fuel n : ℕ) (out s : Bytes) → digits_before fuel n out ++ s ≡ digits_before fuel n (out ++ s)
unfolding digits_before
digits_before-append zero n out s = refl
digits_before-append (suc fuel) n out s = elim (Bool-cases (n == 0)) [
  | inl e ↦ rw (e, digits_before) refl
  | inr e ↦ rw (e, digits_before) (digits_before-append fuel (n / 10) ((48 + n % 10) ∷ out) s)
]

-- A printed number, with no digit behind it, is read back, and what stands behind it is left.
pub read-print_size :
    (n : ℕ) (s : Bytes) → StartsNoDigit s → read_number (print_size n ++ s) 0 ≡ (n, s)
unfolding print_size read_number
read-print_size n s h = elim (Bool-cases (n == 0)) [
  | inl e ↦
      let none_left : n ≡ 0 = ground arith in
      rw (e, print_size)
        (read_number-stop s 0 h ∙ ap (λ (k : ℕ). (k, s)) {x = 0} {y = n} (omega arith))
  | inr e ↦
      rw (e, print_size)
        (ap (λ (d : Bytes). read_number d 0) (digits_before-append n n [] s)
          ∙ read-digits_before n n s (omega arith)
          ∙ read_number-stop s n h)
]

-- The first byte is a digit.
abbrev pub StartsDigit : Bytes → Type 0
StartsDigit [] = ⊥
StartsDigit (c ∷ s) = is_digit c ≡ true

digits_before-StartsDigit :
    (fuel n : ℕ) (out : Bytes)
    → n ≤ fuel
    → (n ≡ 0 → StartsDigit out)
    → StartsDigit (digits_before fuel n out)
unfolding digits_before
digits_before-StartsDigit zero n out h starts = starts (omega arith)
digits_before-StartsDigit (suc fuel) n out h starts =
    if_cases StartsDigit (n == 0) _ _ (λ e. starts (ground arith))
      (λ e.
        digits_before-StartsDigit fuel (n / 10) ((48 + n % 10) ∷ out) (ground arith)
          (λ _. ground arith))

pub print_size-StartsDigit : (n : ℕ) → StartsDigit (print_size n)
unfolding print_size
print_size-StartsDigit n =
    if_cases StartsDigit (n == 0) _ _ (λ _. refl)
      (λ e.
        digits_before-StartsDigit n n [] (omega arith)
          (λ none_left. absurd (ground (arith, none_left, e))))

-- Reads an `int`, with a sign if it has one.
unfoldable pub read_int : Bytes → ℤ × Bytes
unfolding read_number
read_int [] = (pos 0, [])
read_int (c ∷ s) =
    if is_digit c
    then (let (n, rest) = read_number (c ∷ s) 0 in (pos n, rest))
    else (let (n, rest) = read_number s 0 in (negsuc (n - 1), rest))

read_int-digit :
    (s rest : Bytes)
    → StartsDigit s
    → read_int (s ++ rest) ≡ (pos (read_number (s ++ rest) 0).0, (read_number (s ++ rest) 0).1)
unfolding read_int
read_int-digit [] rest h = absurd h
read_int-digit (c ∷ s) rest h = rw h refl

-- A printed `int`, with no digit behind it, is read back, and what stands behind it is left.
pub read-to_string : (i : ℤ) (s : Bytes) → StartsNoDigit s → read_int (to_string i ++ s) ≡ (i, s)
unfolding to_string read_int
read-to_string (pos n) s h =
    read_int-digit (print_size n) s (print_size-StartsDigit n)
    ∙ ap (λ (r : ℕ × Bytes). (pos r.0, r.1)) (read-print_size n s h)
read-to_string (negsuc n) s h =
    ap (λ (r : ℕ × Bytes). (negsuc (r.0 - 1), r.1)) (read-print_size (suc n) s h)
    ∙ ap (λ (k : ℕ). (negsuc k, s)) {x = suc n - 1} {y = n} (omega arith)
