-- ===== src/Tests/PrintingTests.antt =====
-- The texts of the programs on concrete inputs.
use asynchronous_http_web_se.Base.{◌≡◌, refl, [], ◌++◌, none, some, pos, negsuc, text}
use asynchronous_http_web_se.Printing.{crlf, to_string, print_size, digits_before}
use asynchronous_http_web_se.Books.Text.{head_lines, end_lines, response_text, insert_text}
use asynchronous_http_web_se.Http.Reading.{
  read_response, read_lines, read_parts, strip, content_length, skip_spaces, whole_number,
  read_body,
}
use asynchronous_http_web_se.Printing.Decimal.{read_number}
use asynchronous_http_web_se.Books.Text.Reading.{read_insert, read-response_text, read-insert_text}

minus_seven_hundred : to_string (negsuc 699) ≡ text "-700"
unfolding to_string print_size digits_before
minus_seven_hundred = refl

read-response_text_example :
    read_response (response_text (text "[]") ++ text "HTTP") ≡ some (text "[]", text "HTTP")
read-response_text_example = read-response_text (text "[]") (text "HTTP")

read-insert_text_example :
    (read_insert (insert_text (pos 7) (text "Emma")) ≡ some (pos 7, text "Emma", []))
    × (read_insert
          (insert_text (pos 7) (text "Emma" ++ (text "');" ++ text "DROP TABLE books; ('")))
        ≡ some (pos 7, text "Emma", text "DROP TABLE books; ('" ++ text "');"))
read-insert_text_example =
    read-insert_text (pos 7) (text "Emma") (text "DROP TABLE books; ('")
      (refl, (refl, (refl, (refl, tt))))

-- A response without the empty line is not read, and neither is one whose body is too short.
no_empty_line : read_response (head_lines ++ (text "2" ++ (crlf ++ text "[]"))) ≡ none
unfolding read_response read_lines read_parts
no_empty_line = refl

short_body : read_response (head_lines ++ (text "3" ++ (end_lines ++ text "[]"))) ≡ none
unfolding read_response read_lines read_parts strip content_length skip_spaces whole_number
    read_number read_body
short_body = refl
