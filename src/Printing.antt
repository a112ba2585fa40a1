-- ===== src/Printing.antt =====
-- `printHttpResponse` of example/server.cpp, of which example/client.cpp has a copy, and how a C++ stream prints a number.
pub mod Decimal
use asynchronous_http_web_se.Base.{
  ℕ, zero, suc, ◌+◌, ◌/◌, ◌%◌, ◌==◌, List, [], ◌∷◌, ◌++◌, Option, none, some, ℤ, pos, negsuc, Bytes,
  text, length, if◌then◌else◌,
}
use asynchronous_http_web_se.StdMap.{StdMap}
use asynchronous_http_web_se.Http.{HttpResponse}

abbrev pub newline : Bytes
newline = 10 ∷ []

abbrev pub crlf : Bytes
crlf = 13 ∷ 10 ∷ []

-- The digits of a number before `out`, from the last one on. `n` rounds are enough for the number
-- `n`, since each divides it by ten.
unfoldable pub digits_before : ℕ → ℕ → Bytes → Bytes
digits_before zero n out = out
digits_before (suc fuel) n out =
    let rest = digits_before fuel (n / 10) ((48 + n % 10) ∷ out) in if n == 0 then out else rest

-- `stream << n` for a `size_t`
unfoldable pub print_size : ℕ → Bytes
unfolding digits_before
print_size n = if n == 0 then 48 ∷ [] else digits_before n n []

-- `std::to_string` of an `int`
unfoldable pub to_string : ℤ → Bytes
unfolding print_size
to_string (pos n) = print_size n
to_string (negsuc n) = 45 ∷ print_size (suc n)

-- The `for` loop over the headers, in the order in which the map gives them.
unfoldable pub print_headers : StdMap Bytes Bytes → Bytes
print_headers [] = []
print_headers ((k, v) ∷ headers) =
    text "  " ++ (k ++ (text ": " ++ (v ++ (newline ++ print_headers headers))))

-- A line of the form `name: value`
unfoldable pub print_line : Bytes → Bytes → Bytes
print_line name value = name ++ (value ++ newline)

-- What `printHttpResponse` writes to `std::cout`; for a null pointer it writes nothing there.
unfoldable pub print_http_response : Option HttpResponse → Bytes
unfolding print_headers print_line print_size
print_http_response none = []
print_http_response (some response) =
    text "=== HTTP Response ==="
    ++ (newline
        ++ (print_line (text "Version: ") response.version
            ++ (print_line (text "Status: ") response.status
                ++ (print_line (text "Key: ") response.key
                    ++ (print_line (text "Value: ") response.value
                        ++ (print_line (text "Headers:") []
                            ++ (print_headers response.headers
                                ++ (text "Body ("
                                    ++ (print_size (length response.body)
                                        ++ (text " bytes):"
                                            ++ (newline
                                                ++ (response.body
                                                    ++ (newline
                                                        ++ (text "====================="
                                                            ++ newline))))))))))))))
