-- ===== src/Http/Reading.antt =====
-- A reader of HTTP/1.1 responses, from the format of RFC 9112: a status line, header fields up to an
-- empty line, and a body of the length that a field states.
use asynchronous_http_web_se.Base.{
  ℕ, zero, suc, ◌+◌, ◌/◌, ◌%◌, ◌≡◌, refl, sym, ap, ◌∙◌, Bool, true, false, List, [], ◌∷◌, ◌++◌,
  append-nil, append_assoc, Option, none, some, is_some, Bytes, text, length, length-append, take,
  drop, leb, ◌==◌, arith, if◌then◌else◌, if_cases,
}
use asynchronous_http_web_se.Printing.{digits_before, print_size}
use asynchronous_http_web_se.Printing.Decimal.{
  read_number, read-print_size, StartsDigit, print_size-StartsDigit,
}

-- What stands behind a prefix, if it is there.
unfoldable pub strip : Bytes → Bytes → Option Bytes
strip [] s = some s
strip (p ∷ ps) [] = none
strip (p ∷ ps) (c ∷ s) = let rest = strip ps s in if p == c then rest else none

abbrev pub add_line : Bytes → Option (List Bytes × Bytes) → Option (List Bytes × Bytes)
add_line line none = none
add_line line (some (lines, s)) = some (line ∷ lines, s)

-- The lines up to the first empty one, each of which ends with CR LF, and what stands behind that
-- one. `line` is what was read of the line, and the flag says that a CR was read behind it.
unfoldable pub read_lines : Bool → Bytes → Bytes → Option (List Bytes × Bytes)
read_lines after_cr line [] = none
read_lines false line (c ∷ s) = elim (c == 13) [
  | true ↦ read_lines true line s
  | false ↦ read_lines false (line ++ c ∷ []) s
]
read_lines true line (c ∷ s) = elim (c == 10) [
  | true ↦ elim line [ [] ↦ some ([], s) | b ∷ bs ↦ add_line (b ∷ bs) (read_lines false [] s) ]
  | false ↦ none
]

unfoldable pub skip_spaces : Bytes → Bytes
skip_spaces [] = []
skip_spaces (c ∷ s) = elim (c == 32) [ true ↦ skip_spaces s | false ↦ c ∷ s ]

-- A number with nothing behind it.
abbrev at_end : ℕ × Bytes → Option ℕ
at_end (n, []) = some n
at_end (n, c ∷ s) = none

-- Digits, and nothing else.
unfoldable pub whole_number : Bytes → Option ℕ
unfolding read_number
whole_number [] = none
whole_number (c ∷ s) = at_end (read_number (c ∷ s) 0)

-- The value of the first field `Content-Length`.
unfoldable pub content_length : List Bytes → Option ℕ
unfolding strip skip_spaces whole_number
content_length [] = none
content_length (field ∷ fields) = elim (strip (text "Content-Length:") field) [
  | none ↦ content_length fields
  | some value ↦ whole_number (skip_spaces value)
]

-- A body of this many bytes, if there are so many.
unfoldable pub read_body : Option ℕ → Bytes → Option (Bytes × Bytes)
read_body none s = none
read_body (some n) s = if leb n (length s) then some (take n s, drop n s) else none

-- The status line is that of version 1.1 and status 200.
unfoldable pub read_parts : Option (List Bytes × Bytes) → Option (Bytes × Bytes)
unfolding strip content_length read_body
read_parts none = none
read_parts (some ([], s)) = none
read_parts (some (status ∷ fields, s)) =
    if is_some (strip (text "HTTP/1.1 200 ") status)
    then read_body (content_length fields) s
    else none

-- Reads a complete response with status 200: its body, and what stands behind it.
unfoldable pub read_response : Bytes → Option (Bytes × Bytes)
unfolding read_lines read_parts
read_response s = read_parts (read_lines false [] s)

take-length : (xs ys : Bytes) → take (length xs) (xs ++ ys) ≡ xs
take-length [] ys = refl
take-length (x ∷ xs) ys = ap (λ (l : Bytes). x ∷ l) (take-length xs ys)

drop-length-append : (xs ys : Bytes) → drop (length xs) (xs ++ ys) ≡ ys
drop-length-append [] ys = refl
drop-length-append (x ∷ xs) ys = drop-length-append xs ys

pub read_body-length :
    (body more : Bytes) → read_body (some (length body)) (body ++ more) ≡ some (body, more)
unfolding read_body
read_body-length body more =
    let fits : leb (length body) (length (body ++ more)) ≡ true =
      ground (arith, length-append body more) in
    rw fits (
      ap (λ (front : Bytes). some (front, drop (length body) (body ++ more)))
        (take-length body more)
      ∙ ap (λ (back : Bytes). some (body, back)) (drop-length-append body more))

abbrev pub HasNoCr : Bytes → Type 0
HasNoCr [] = Unit {0}
HasNoCr (c ∷ s) = (c == 13 ≡ false) × HasNoCr s

-- Bytes without a CR go to the line.
pub read_lines-HasNoCr :
    (bytes line s : Bytes)
    → HasNoCr bytes
    → read_lines false line (bytes ++ s) ≡ read_lines false (line ++ bytes) s
unfolding read_lines
read_lines-HasNoCr [] line s h = ap (λ (l : Bytes). read_lines false l s) (sym (append-nil line))
read_lines-HasNoCr (c ∷ bytes) line s h =
    rw (h.0, read_lines)
      (read_lines-HasNoCr bytes (line ++ c ∷ []) s h.1
        ∙ ap (λ (l : Bytes). read_lines false l s) (append_assoc line (c ∷ []) bytes))

digits_before-HasNoCr :
    (fuel n : ℕ) (out : Bytes) → HasNoCr out → HasNoCr (digits_before fuel n out)
unfolding digits_before
digits_before-HasNoCr zero n out h = h
digits_before-HasNoCr (suc fuel) n out h =
    if_cases HasNoCr (n == 0) _ _ (λ _. h)
      (λ _. digits_before-HasNoCr fuel (n / 10) ((48 + n % 10) ∷ out) (ground arith, h))

pub print_size-HasNoCr : (n : ℕ) → HasNoCr (print_size n)
unfolding print_size
print_size-HasNoCr n =
    if_cases HasNoCr (n == 0) _ _ (λ _. (refl, tt)) (λ _. digits_before-HasNoCr n n [] tt)

skip_spaces-StartsDigit : (s : Bytes) → StartsDigit s → skip_spaces s ≡ s
unfolding skip_spaces
skip_spaces-StartsDigit [] h = refl
skip_spaces-StartsDigit (c ∷ s) h =
    let no_space : (c == 32) ≡ false = ground (arith, h) in rw (no_space, skip_spaces) refl

whole_number-StartsDigit :
    (s : Bytes) (n : ℕ) → StartsDigit s → read_number s 0 ≡ (n, []) → whole_number s ≡ some n
unfolding whole_number
whole_number-StartsDigit [] n h e = absurd h
whole_number-StartsDigit (c ∷ s) n h e = ap at_end e

-- The value of a field as a printed number.
pub value-print_size : (n : ℕ) → whole_number (skip_spaces (print_size n)) ≡ some n
value-print_size n =
    let starts = print_size-StartsDigit n in
    ap whole_number (skip_spaces-StartsDigit (print_size n) starts)
    ∙ whole_number-StartsDigit (print_size n) n starts (
        ap (λ (s : Bytes). read_number s 0) (sym (append-nil (print_size n)))
        ∙ read-print_size n [] tt)
