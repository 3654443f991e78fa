-- ===== src/Response/Text.antt =====
-- src/linear_fcgi_response.cc: Response::create, and how src/linear_fcgi_request.cc sends its text.
use linear_fcgi.Common.{ℕ, List, [], ◌∷◌, ◌++◌, codes, length, c_str}
use linear_fcgi.Response.Codes.{Code, number, MimeType, app_javascript, get_content_type}
use linear_fcgi.Response.Decimal.{decimal}

abbrev pub crlf : List ℕ
crlf = 13 ∷ 10 ∷ []

-- Response::create(code).
unfoldable pub create : Code → List ℕ
create code = codes "Status: " ++ (decimal (number code) ++ (crlf ++ crlf))

-- Response::create(code, body, type).
unfoldable pub create_body : Code → List ℕ → MimeType → List ℕ
create_body code body type =
    codes "Status: "
    ++ (decimal (number code)
        ++ (crlf
            ++ (codes "Content-Type: "
                ++ (get_content_type type
                    ++ (codes "; charset=utf-8"
                        ++ (crlf
                            ++ (codes "X-Content-Type-Options: nosniff"
                                ++ (crlf
                                    ++ (codes "Content-Length: "
                                        ++ (decimal (length body)
                                            ++ (crlf ++ (crlf ++ body))))))))))))

-- Request::sendResponse: `FCGI_printf("%s", str.c_str())` writes up to the first NUL.
unfoldable pub send_code : Code → List ℕ
send_code code = c_str (create code)

unfoldable pub send_body : Code → List ℕ → List ℕ
send_body code body = c_str (create_body code body app_javascript)
