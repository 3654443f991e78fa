-- ===== src/Response/Tests.antt =====
-- The theorem on src/linear_fcgi_response.h at an input.
use linear_fcgi.Response.Decimal.{read_digits, is_digit}
use linear_fcgi.Common.{refl, ◌++◌, ℕ, ◌≡◌, List, some, codes, length}
use linear_fcgi.Response.Codes.{Code, number, MimeType}
use linear_fcgi.Response.Codes
use linear_fcgi.Response.Text.{create_body, crlf}
use linear_fcgi.Response.RoundTrip.{
  after, read_head, find_field, read_response, read_type, read_response-create_body,
}

abbrev body : List ℕ
body = codes "{\"sid\":\"x\"}"

read_response-create_body_example :
    (read_response (create_body Codes.ok body MimeType.text_plain)
      ≡ some (number Codes.ok, length body, body))
    × (read_type (create_body Codes.ok body MimeType.text_plain)
        ≡ some (Codes.get_content_type MimeType.text_plain))
read_response-create_body_example = read_response-create_body Codes.ok body MimeType.text_plain

-- The text that the unit test of Response::create demands is another one, which the reader reads too.
abbrev demanded : List ℕ
demanded =
    codes "Status: 200"
    ++ (crlf
        ++ (codes "Content-Type: text/plain"
            ++ (crlf ++ (codes "Content-Length: 4" ++ (crlf ++ (crlf ++ codes "body"))))))

demanded_read : read_response demanded ≡ some (200, 4, codes "body")
unfolding read_response read_head find_field after read_digits is_digit
demanded_read = refl
