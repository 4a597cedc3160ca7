-- ===== src/Http/StatusCodes.antt =====
-- `HttpStatusCode` and its reading from a number, of Source/Core/Http/HttpEnums.h and .cpp.
use server.Base.{ℕ, ◌≡◌, ◌↔◌, refl, List, [], ◌∷◌, Option, some, lookup, arith, subst}

pub data HttpStatusCode : Type 0 where
  ok created accepted no_content multiple_choices moved_permanently found see_other : HttpStatusCode
  not_modified temporary_redirect permanent_redirect bad_request unauthorized forbidden :
      HttpStatusCode
  not_found method_not_allowed not_acceptable proxy_authentication_required : HttpStatusCode
  request_timeout conflict internal_server_error not_implemented bad_gateway : HttpStatusCode
  service_unavailable : HttpStatusCode

-- The numbers of the enumeration.
unfoldable pub value : HttpStatusCode → ℕ
value ok = 200
value created = 201
value accepted = 202
value no_content = 204
value multiple_choices = 300
value moved_permanently = 301
value found = 302
value see_other = 303
value not_modified = 304
value temporary_redirect = 307
value permanent_redirect = 308
value bad_request = 400
value unauthorized = 401
value forbidden = 403
value not_found = 404
value method_not_allowed = 405
value not_acceptable = 406
value proxy_authentication_required = 407
value request_timeout = 408
value conflict = 409
value internal_server_error = 500
value not_implemented = 501
value bad_gateway = 502
value service_unavailable = 503

-- The cases of `IntegerToHttpStatusCode`.
abbrev cases : List (ℕ × HttpStatusCode)
cases =
    (200, ok)
    ∷ (201, created)
    ∷ (202, accepted)
    ∷ (204, no_content)
    ∷ (300, multiple_choices)
    ∷ (301, moved_permanently)
    ∷ (302, found)
    ∷ (303, see_other)
    ∷ (304, not_modified)
    ∷ (307, temporary_redirect)
    ∷ (308, permanent_redirect)
    ∷ (400, bad_request)
    ∷ (401, unauthorized)
    ∷ (403, forbidden)
    ∷ (404, not_found)
    ∷ (405, method_not_allowed)
    ∷ (406, not_acceptable)
    ∷ (407, proxy_authentication_required)
    ∷ (408, request_timeout)
    ∷ (409, conflict)
    ∷ (500, internal_server_error)
    ∷ (501, not_implemented)
    ∷ (502, bad_gateway)
    ∷ (503, service_unavailable)
    ∷ []

integer_to_http_status_code : ℕ → Option HttpStatusCode
unfolding lookup
integer_to_http_status_code n = lookup n cases

-- Every case gives the code whose number it is.
abbrev AllValues : List (ℕ × HttpStatusCode) → Type 0
AllValues [] = Unit {0}
AllValues (x ∷ xs) = (value x.1 ≡ x.0) × AllValues xs

lookup-value :
    (n : ℕ) (xs : List (ℕ × HttpStatusCode)) (c : HttpStatusCode)
    → AllValues xs
    → lookup n xs ≡ some c
    → value c ≡ n
unfolding lookup
lookup-value n [] c h e = cc e
lookup-value n (x ∷ xs) c h e = ground (arith, lookup-value n xs c)

cases-AllValues : AllValues cases
unfolding value
cases-AllValues = omega arith

integer_to_http_status_code-value :
    (c : HttpStatusCode) → integer_to_http_status_code (value c) ≡ some c
unfolding integer_to_http_status_code value
integer_to_http_status_code-value ok = refl
integer_to_http_status_code-value _ = refl

-- A number is read as a status code exactly if it is that code's number.
integer_to_http_status_code_iff :
    (n : ℕ) (c : HttpStatusCode) → (integer_to_http_status_code n ≡ some c) ↔ (value c ≡ n)
unfolding integer_to_http_status_code
integer_to_http_status_code_iff n c = (
  lookup-value n cases c cases-AllValues,
  λ e. subst (λ m. integer_to_http_status_code m ≡ some c) e (integer_to_http_status_code-value c),
)
