-- ===== src/Books/Text/Reading.antt =====
-- The texts of example/server.cpp against readers of their formats.
use asynchronous_http_web_se.Base.{
  ℕ, ◌≡◌, refl, ap, ◌∙◌, false, [], ◌∷◌, ◌++◌, append_assoc, Option, none, some, ℤ, Bytes, text,
  length, ◌==◌, if◌then◌else◌,
}
use asynchronous_http_web_se.Http.Reading.{
  strip, add_line, read_lines, read_lines-HasNoCr, print_size-HasNoCr, read_parts, content_length,
  value-print_size, read_body, read_body-length, read_response,
}
use asynchronous_http_web_se.Printing.{print_size}
use asynchronous_http_web_se.Printing.Decimal.{read_int, read-to_string}
use asynchronous_http_web_se.Books.Text.{head_lines, end_lines, response_text, insert_text}

-- The head of a response that the program builds, as the reader takes it.
head_is_read :
    (n : ℕ) (s : Bytes)
    → read_lines false [] (head_lines ++ (print_size n ++ (end_lines ++ s)))
      ≡ some (
        text "HTTP/1.1 200 OK"
            ∷ text "Content-Type: text/plain"
            ∷ (text "Content-Length: " ++ print_size n)
            ∷ text "Connection: close"
            ∷ [],
        s,
      )
unfolding read_lines
head_is_read n s =
    ap (λ r. add_line (text "HTTP/1.1 200 OK") (add_line (text "Content-Type: text/plain") r))
      (read_lines-HasNoCr (print_size n) (text "Content-Length: ") (end_lines ++ s)
        (print_size-HasNoCr n))

-- A response that the program builds, with any bytes behind it, is read back by a reader of HTTP/1.1:
-- it finds the status 200 and the header fields up to an empty line, gets the body, complete and by the
-- length that the field `Content-Length` states, and leaves the bytes behind it.
pub read-response_text :
    (body more : Bytes) → read_response (response_text body ++ more) ≡ some (body, more)
unfolding read_response response_text read_parts strip content_length
read-response_text body more =
    let n = length body in
    ap (λ (s : Bytes). read_response (head_lines ++ s))
      (append_assoc (print_size n) (end_lines ++ body) more)
    ∙ ap read_parts (head_is_read n (body ++ more))
    ∙ ap (λ (o : Option ℕ). read_body o (body ++ more)) (value-print_size n)
    ∙ read_body-length body more

-- Up to the first quote: what stands before it, and the rest from it on.
unfoldable pub until_quote : Bytes → Bytes × Bytes
until_quote [] = ([], [])
until_quote (c ∷ s) =
    let (front, rest) = until_quote s in if c == 39 then ([], c ∷ s) else (c ∷ front, rest)

-- The end of the statement, behind the title.
unfoldable pub read_end : ℤ → Bytes × Bytes → Option (ℤ × Bytes × Bytes)
unfolding strip
read_end id (title, after) = elim (strip (text "');") after) [
  | none ↦ none
  | some behind ↦ some (id, title, behind)
]

-- The title, behind the id.
unfoldable pub read_title : ℤ × Bytes → Option (ℤ × Bytes × Bytes)
unfolding strip until_quote read_end
read_title (id, rest) = elim (strip (text ", '") rest) [
  | none ↦ none
  | some quoted ↦ read_end id (until_quote quoted)
]

-- Reads an INSERT of one row: its id, its title up to the first quote, and what stands behind the
-- statement.
unfoldable pub read_insert : Bytes → Option (ℤ × Bytes × Bytes)
unfolding strip read_int read_title
read_insert s = elim (strip (text "INSERT INTO books (id, title) VALUES (") s) [
  | none ↦ none
  | some values ↦ read_title (read_int values)
]

abbrev pub HasNoQuote : Bytes → Type 0
HasNoQuote [] = Unit {0}
HasNoQuote (c ∷ s) = (c == 39 ≡ false) × HasNoQuote s

until_quote-append :
    (title s : Bytes) → HasNoQuote title → until_quote (title ++ (39 ∷ s)) ≡ (title, 39 ∷ s)
unfolding until_quote
until_quote-append [] s h = refl
until_quote-append (c ∷ title) s h =
    rw (h.0, until_quote)
      (ap (λ (r : Bytes × Bytes). (c ∷ r.0, r.1)) (until_quote-append title s h.1))

-- The INSERT of a title without quotes is one statement, for the id and the title; and a title that
-- goes on behind `');` ends that statement early, and what stands there is read as further
-- statements.
pub read-insert_text :
    (id : ℤ) (title more : Bytes)
    → HasNoQuote title
    → (read_insert (insert_text id title) ≡ some (id, title, []))
      × (read_insert (insert_text id (title ++ (text "');" ++ more)))
          ≡ some (id, title, more ++ text "');"))
unfolding read_insert insert_text read_title read_end
read-insert_text id title more h =
    let tail = 41 ∷ 59 ∷ [] in
    let end = text "');" in
    let injected = title ++ (end ++ more) in
    let joined = append_assoc title (end ++ more) end in
    (
      ap read_title (read-to_string id (text ", '" ++ (title ++ end)) refl)
          ∙ ap (read_end id) (until_quote-append title tail h),
      ap read_title (read-to_string id (text ", '" ++ (injected ++ end)) refl)
          ∙ ap (λ (s : Bytes). read_end id (until_quote s)) joined
          ∙ ap (read_end id) (until_quote-append title (tail ++ (more ++ end)) h),
    )
