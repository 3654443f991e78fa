-- ===== src/Response/RoundTrip.antt =====
-- A reader of CGI responses gets back what src/linear_fcgi_response.cc was given.
use linear_fcgi.Common.{ℕ, ◌≡◌, refl, ap}
use linear_fcgi.Common.{false, List, [], ◌∷◌, ◌++◌, Option, none, some}
use linear_fcgi.Common.{codes, length, ◌==◌, if◌then◌else◌, take}
use linear_fcgi.Common.{
  All-mono, not, All, All-append, append-nil, append_assoc, sym, ◌∙◌, Bool, true, arith,
}
use mathlib.Core.Option
use linear_fcgi.Response.Codes.{
  Code, number, MimeType, get_content_type, text_plain, text_javascript, app_json, app_javascript,
  x_www_form_urlencoded, unknown,
}
use linear_fcgi.Response.Decimal.{
  IsDigit, decimal, decimal_shape, is_digit, read_digits, read_digits-decimal,
}
use linear_fcgi.Response.Text.{create_body}

-- What follows a prefix, if the text begins with it.
unfoldable pub after : List ℕ → List ℕ → Option (List ℕ)
after [] text = some text
after (p ∷ prefix) [] = none
after (p ∷ prefix) (c ∷ text) = if p == c then after prefix text else none

abbrev is_blank : List ℕ → Bool
is_blank [] = true
is_blank (c ∷ line) = false

-- The lines of a head up to an empty line, and what follows it. A line ends with a line feed, and a
-- carriage return is passed over.
unfoldable pub read_head : (line : List ℕ) → List ℕ → Option (List (List ℕ) × List ℕ)
read_head line [] = none
read_head line (c ∷ text) =
    let onward =
      read_head (if c == 13 then line else if c == 10 then [] else line ++ (c ∷ [])) text in
    if not (c == 10)
    then onward
    else if is_blank line
    then some ([], text)
    else Option.map (λ (r : List (List ℕ) × List ℕ). (line ∷ r.0, r.1)) onward

-- What follows the name of the first field with that name.
unfoldable pub find_field : (name : List ℕ) → List (List ℕ) → Option (List ℕ)
unfolding after
find_field name [] = none
find_field name (line ∷ lines) = elim (after name line) [
  | some value ↦ some value
  | none ↦ find_field name lines
]

infixl 5 ◌>>=◌
abbrev ◌>>=◌ {ℓ κ} : {A : Type ℓ} {B : Type κ} → Option A → (A → Option B) → Option B
none >>= f = none
some a >>= f = f a

-- A CGI response: the code of its status, the length, and the body of that length. The fields of the
-- head may be any, in any order.
unfoldable pub read_response : List ℕ → Option (ℕ × ℕ × List ℕ)
unfolding read_head find_field read_digits
read_response text = do
  (lines, body) ← read_head [] text
  status ← find_field (codes "Status: ") lines
  length_text ← find_field (codes "Content-Length: ") lines
  let code = (read_digits 0 status).0
  let size = (read_digits 0 length_text).0
  some (code, size, take size body)

-- The media type before the parameters of a field Content-Type.
unfoldable pub media_type : List ℕ → List ℕ
media_type [] = []
media_type (c ∷ value) = let rest = media_type value in if c == 59 then [] else c ∷ rest

unfoldable pub read_type : List ℕ → Option (List ℕ)
unfolding read_head find_field media_type
read_type text = do
  (lines, _) ← read_head [] text
  value ← find_field (codes "Content-Type: ") lines
  some (media_type value)

-- No end of line.
abbrev IsPlain : ℕ → Type 0
IsPlain c = ((c == 13) ≡ false) × ((c == 10) ≡ false)

read_head-plain :
    (line d rest : List ℕ) → All IsPlain d → read_head line (d ++ rest) ≡ read_head (line ++ d) rest
unfolding read_head
read_head-plain line [] rest h = ap (λ l. read_head l rest) (sym (append-nil line))
read_head-plain line (c ∷ d) rest ((cr, lf), h) =
    rw (cr, lf)
      (read_head-plain (line ++ (c ∷ [])) d rest h
        ∙ ap (λ l. read_head l rest) (append_assoc line (c ∷ []) d))

-- A line that is read stands before the lines behind it.
abbrev behind : List ℕ → Option (List (List ℕ) × List ℕ) → Option (List (List ℕ) × List ℕ)
behind line = Option.map (λ (r : List (List ℕ) × List ℕ). (line ∷ r.0, r.1))

read_head-line :
    (line rest : List ℕ)
    → All IsPlain line
    → is_blank line ≡ false
    → read_head [] (line ++ (13 ∷ 10 ∷ rest)) ≡ behind line (read_head [] rest)
read_head-line line rest h some_text =
    read_head-plain [] line (13 ∷ 10 ∷ rest) h ∙ unfold read_head in rw some_text refl

get_content_type-IsPlain : (type : MimeType) → All IsPlain (get_content_type type)
unfolding get_content_type
get_content_type-IsPlain text_plain = ground arith
get_content_type-IsPlain text_javascript = ground arith
get_content_type-IsPlain app_json = ground arith
get_content_type-IsPlain app_javascript = ground arith
get_content_type-IsPlain x_www_form_urlencoded = ground arith
get_content_type-IsPlain unknown = ground arith

digit-IsPlain : (c : ℕ) → is_digit c ≡ true → IsPlain c
unfolding is_digit
digit-IsPlain c h = ground arith

decimal-IsPlain : (n : ℕ) → All IsPlain (decimal n)
decimal-IsPlain n =
    All-mono IsDigit IsPlain (decimal n) (λ c h. digit-IsPlain c h) (decimal_shape n).0

take-all : (body : List ℕ) → take (length body) body ≡ body
take-all [] = refl
take-all (b ∷ body) = ap (λ t. b ∷ t) (take-all body)

-- The head of a response with a body.
abbrev status_line : Code → List ℕ
status_line code = codes "Status: " ++ decimal (number code)

abbrev type_line : MimeType → List ℕ
type_line type = codes "Content-Type: " ++ (get_content_type type ++ codes "; charset=utf-8")

abbrev length_line : List ℕ → List ℕ
length_line body = codes "Content-Length: " ++ decimal (length body)

abbrev head_lines : Code → List ℕ → MimeType → List (List ℕ)
head_lines code body type =
    status_line code
    ∷ type_line type
    ∷ codes "X-Content-Type-Options: nosniff"
    ∷ length_line body
    ∷ []

type_line-IsPlain : (type : MimeType) → All IsPlain (type_line type)
type_line-IsPlain type = All-append IsPlain (codes "Content-Type: ") _ (ground arith) (
    All-append IsPlain (get_content_type type) (codes "; charset=utf-8")
      (get_content_type-IsPlain type) (ground arith))

read_head-create_body :
    (code : Code) (body : List ℕ) (type : MimeType)
    → read_head [] (create_body code body type) ≡ some (head_lines code body type, body)
unfolding create_body
read_head-create_body code body type =
    let safe = codes "X-Content-Type-Options: nosniff" in
    let end : List ℕ = length_line body ++ (13 ∷ 10 ∷ 13 ∷ 10 ∷ body) in
    let last : read_head [] (13 ∷ 10 ∷ body) ≡ some ([], body) = unfold read_head in refl in
    let behind_safe =
      read_head-line safe end (ground arith) refl
      ∙ ap (behind safe) (
          read_head-line (length_line body) (13 ∷ 10 ∷ body)
            (All-append IsPlain (codes "Content-Length: ") _ (ground arith)
              (decimal-IsPlain (length body)))
            refl
          ∙ ap (behind (length_line body)) last) in
    let behind_type =
      ap (λ t. read_head [] (codes "Content-Type: " ++ t))
        (sym (
          append_assoc (get_content_type type) (codes "; charset=utf-8")
            (13 ∷ 10 ∷ (safe ++ (13 ∷ 10 ∷ end)))))
      ∙ read_head-line (type_line type) (safe ++ (13 ∷ 10 ∷ end)) (type_line-IsPlain type) refl
      ∙ ap (behind (type_line type)) behind_safe in
    read_head-line (status_line code) _
      (All-append IsPlain (codes "Status: ") _ (ground arith) (decimal-IsPlain (number code))) refl
    ∙ ap (behind (status_line code)) behind_type

-- A printed number with nothing behind it is read back.
read_back : (n : ℕ) → read_digits 0 (decimal n) ≡ (n, [])
read_back n = rw append-nil at (read_digits-decimal n [] tt)

media_type-get_content_type :
    (type : MimeType)
    → media_type (get_content_type type ++ codes "; charset=utf-8") ≡ get_content_type type
unfolding media_type get_content_type
media_type-get_content_type text_plain = refl
media_type-get_content_type text_javascript = refl
media_type-get_content_type app_json = refl
media_type-get_content_type app_javascript = refl
media_type-get_content_type x_www_form_urlencoded = refl
media_type-get_content_type unknown = refl

-- A reader of CGI responses that takes the fields of the head in any number and order, and as many
-- bytes of the body as Content-Length says, gets back the code, the whole body and the media type
-- that `create` was given, for every code, body and media type.
pub read_response-create_body :
    (code : Code) (body : List ℕ) (type : MimeType)
    → (read_response (create_body code body type) ≡ some (number code, length body, body))
      × (read_type (create_body code body type) ≡ some (get_content_type type))
unfolding read_response read_type find_field after
read_response-create_body code body type = (
  rw (read_head-create_body code body type, read_back (number code), read_back (length body))
      (ap (λ b. some (number code, length body, b)) (take-all body)),
  rw (read_head-create_body code body type) (ap some (media_type-get_content_type type)),
)
