-- ===== src/Response/Sending.antt =====
-- What Request::sendResponse writes: the whole response, unless a NUL stands in the body.
use linear_fcgi.Common.{ℕ, ◌≡◌, ap, ◌∙◌, arith}
use linear_fcgi.Common.{
  List, [], ◌∷◌, ◌++◌, some, All, All-append, IsChar, codes, length, c_str_of_chars,
}
use linear_fcgi.Request.Strtol.{digits-IsChar}
use linear_fcgi.Response.Codes.{Code, number, app_javascript, get_content_type}
use linear_fcgi.Response.Decimal.{decimal, decimal_shape}
use linear_fcgi.Response.RoundTrip.{read_response, read_response-create_body}
use linear_fcgi.Response.Text.{create_body, send_body}

decimal-IsChar : (n : ℕ) → All IsChar (decimal n)
decimal-IsChar n = digits-IsChar (decimal n) (decimal_shape n).0

create_body-IsChar :
    (code : Code) (body : List ℕ)
    → All IsChar body
    → All IsChar (create_body code body app_javascript)
unfolding create_body get_content_type
create_body-IsChar code body h = All-append IsChar (codes "Status: ") _ (ground arith) (
    All-append IsChar (decimal (number code)) _ (decimal-IsChar (number code)) (
      All-append IsChar
        (13
          ∷ 10
          ∷ (codes "Content-Type: "
              ++ (codes "application/javascript"
                  ++ (codes "; charset=utf-8"
                      ++ (13
                          ∷ 10
                          ∷ (codes "X-Content-Type-Options: nosniff"
                              ++ (13 ∷ 10 ∷ codes "Content-Length: ")))))))
        _ (ground arith)
        (All-append IsChar (decimal (length body)) _ (decimal-IsChar (length body))
          (All-append IsChar (13 ∷ 10 ∷ 13 ∷ 10 ∷ []) body (ground arith) h))))

-- A reader of what is sent gets back the code and the body, if no NUL stands in the body.
pub read_response-send_body :
    (code : Code) (body : List ℕ)
    → All IsChar body
    → read_response (send_body code body) ≡ some (number code, length body, body)
unfolding send_body
read_response-send_body code body h =
    ap read_response (c_str_of_chars _ (create_body-IsChar code body h))
    ∙ (read_response-create_body code body app_javascript).0
