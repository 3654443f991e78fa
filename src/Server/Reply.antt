-- ===== src/Server/Reply.antt =====
-- src/linear_fcgi_server.cc: what the handlers answer.
use linear_fcgi.Common.{ℕ, List, ◌++◌, codes, if◌then◌else◌}
use linear_fcgi.Response.Codes.{Code}
use linear_fcgi.Response.Text.{send_code, send_body}
use linear_fcgi.Server.Origin.{is_empty}

-- The two overloads of Request::sendResponse.
pub data Reply : Type 0 where
  status : Code → Reply
  page : Code → List ℕ → Reply

-- The text that goes to the web server.
unfoldable pub send : Reply → List ℕ
send (status code) = send_code code
send (page code body) = send_body code body

abbrev sid_json : List ℕ → List ℕ
sid_json id = codes "{\"sid\":\"" ++ (id ++ codes "\"}")

-- The body that names a session, bare or as a call of the client's callback.
unfoldable pub session_body : (callback id : List ℕ) → List ℕ
session_body callback id =
    if is_empty callback
    then sid_json id
    else codes "try { " ++ (callback ++ (codes "(" ++ (sid_json id ++ codes "); } catch(e) {}")))

-- The body of a poll.
unfoldable pub poll_body : (callback text : List ℕ) → List ℕ
poll_body callback text =
    if is_empty callback
    then text
    else codes "try {" ++ (callback ++ (codes "(\"" ++ (text ++ codes "\"); } catch(e) {}")))
