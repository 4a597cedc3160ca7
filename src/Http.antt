-- ===== src/Http.antt =====
-- HTTP requests: Source/Core/Http/HttpEnums.h and .cpp, HttpRequest.h and .cpp, HttpResponse.h. cURL is a
-- parameter: what it returns for each option and what the transfer with the options that were set comes to.
-- A text is its characters; a map of the standard library is a list in the order of its keys.
pub mod Requests
pub mod StatusCodes
pub mod Uris
pub mod Sending
mod Tests
use server.Base.{
  ℕ, ◌+◌, ◌==◌, Bool, true, false, not, List, [], ◌∷◌, ◌++◌, length, take, drop, Option, some, none,
  if◌then◌else◌,
}
use server.Http.Requests.{
  Text, HttpMethod, get, post, put, delete, other, Stream, stream, write, HttpRequest, lacks_slash,
  skip_slash, http_request, uri, copy,
}

-- The texts of the errors, the status codes that they come with, and cURL's.
pub data Message : Type 0 where
  init_failed escape_failed url_failed get_failed post_failed put_failed delete_failed : Message
  unsupported_method headers_failed get_with_body post_fields_failed post_field_size_failed :
      Message
  timeout_failed connect_timeout_failed nosignal_failed write_function_failed write_data_failed :
      Message
  request_failed : Message
  status_failed : ℕ → Message

abbrev pub ok_code : ℕ
ok_code = 200

abbrev pub bad_request : ℕ
bad_request = 400

abbrev pub internal_server_error : ℕ
internal_server_error = 500

pub record HttpResponse : Type 0 where
  pub status_code : ℕ
  pub error_message : Option Message
  pub body : Text
  pub curl_code : ℕ

-- What `curl_easy_setopt` is called with.
pub data CurlOption : Type 0 where
  url : Text → CurlOption
  http_get http_post custom_put custom_delete : CurlOption
  http_header : List Text → CurlOption
  post_fields : Text → CurlOption
  post_field_size : ℕ → CurlOption
  timeout connect_timeout : ℕ → CurlOption
  no_signal write_function write_data : CurlOption

-- 0 is `CURLE_OK`; a transfer has its code, what it wrote, and the response code.
pub record Curl : Type 0 where
  pub init : Bool
  pub escape : Text → Option Text
  pub setopt : CurlOption → ℕ
  pub perform : List CurlOption → ℕ × Text × ℕ

-- A step of `SendInternal`: the options that are set, or the call of SetError before an early return.
pub data Progress : Type 0 where
  going : List CurlOption → Progress
  stopped : ℕ → ℕ → Message → Progress

infixl 5 ◌>>=◌
abbrev pub ◌>>=◌ : Progress → (List CurlOption → Progress) → Progress
going os >>= f = f os
stopped status code m >>= f = stopped status code m

header_lines : List (Text × Text) → List Text
header_lines [] = []
header_lines ((k, v) ∷ hs) = (k ++ b':' ∷ b' ' ∷ v) ∷ header_lines hs

is_get : HttpMethod → Bool
is_get get = true
is_get post = false
is_get put = false
is_get delete = false
is_get other = false

-- The end of `SendInternal`, from the return of the transfer on.
unfoldable pub finish : ℕ × Text × ℕ → HttpResponse → HttpResponse
finish (code, written, status) res =
    let res' = record res { body = res.body ++ written } in
    if not (code == 0)
    then record res' {
      status_code = internal_server_error;
      curl_code = code;
      error_message = some request_failed;
    }
    else if status == ok_code
    then record res' { status_code = status }
    else record res' { status_code = status; error_message = some (status_failed status) }

module _ (curl : Curl) where
  -- The queries written to the stream; none if one cannot be escaped.
  unfoldable pub add_queries : Bool → List (Text × Text) → Stream → Option Stream
  unfolding write
  add_queries first [] base_uri = some base_uri
  add_queries first ((k, v) ∷ qs) base_uri =
      let s = write ((if first then b'?' else b'&') ∷ []) base_uri in
      elim (curl.escape v) [
        | none ↦ none
        | some e ↦ add_queries false qs (write e (write (b'=' ∷ []) (write k s)))
      ]

  unfoldable pub generate_uri : HttpRequest → Option Text
  unfolding add_queries
  generate_uri r = elim r.queries [
    | none ↦ some r.base_uri.text
    | some qs ↦ elim (add_queries true qs r.base_uri) [ none ↦ none | some s ↦ some s.text ]
  ]

  unfoldable pub set_option : CurlOption → ℕ → Message → List CurlOption → Progress
  set_option o status m os =
      let code = curl.setopt o in if code == 0 then going (os ++ o ∷ []) else stopped status code m

  unfoldable pub set_method : HttpMethod → List CurlOption → Progress
  unfolding set_option
  set_method get os = set_option http_get internal_server_error get_failed os
  set_method post os = set_option http_post internal_server_error post_failed os
  set_method put os = set_option custom_put internal_server_error put_failed os
  set_method delete os = set_option custom_delete internal_server_error delete_failed os
  set_method other os = stopped bad_request 0 unsupported_method

  unfoldable pub set_headers : List (Text × Text) → List CurlOption → Progress
  unfolding set_option header_lines
  set_headers [] os = going os
  set_headers (h ∷ hs) os =
      set_option (http_header (header_lines (h ∷ hs))) internal_server_error headers_failed os

  unfoldable pub set_body : HttpMethod → Text → List CurlOption → Progress
  unfolding set_option is_get
  set_body m [] os = going os
  set_body m (c ∷ cs) os =
      if is_get m
      then stopped bad_request 0 get_with_body
      else (set_option (post_fields (c ∷ cs)) bad_request post_fields_failed os
          >>= set_option (post_field_size (length (c ∷ cs))) internal_server_error
              post_field_size_failed)

  unfoldable pub set_rest : ℕ → List CurlOption → Progress
  unfolding set_option
  set_rest seconds os =
      set_option (timeout seconds) internal_server_error timeout_failed os
      >>= set_option (connect_timeout seconds) internal_server_error connect_timeout_failed
      >>= set_option no_signal internal_server_error nosignal_failed
      >>= set_option write_function internal_server_error write_function_failed
      >>= set_option write_data internal_server_error write_data_failed

  unfoldable pub set_up : HttpRequest → Progress
  unfolding generate_uri set_method set_headers set_body set_rest
  set_up r =
      if not curl.init then stopped internal_server_error 0 init_failed else elim (generate_uri r) [
        | none ↦ stopped internal_server_error 0 escape_failed
        | some uri ↦
            set_option (url uri) internal_server_error url_failed []
            >>= set_method r.method
            >>= set_headers r.headers
            >>= set_body r.method r.body
            >>= set_rest r.timeout
      ]

  -- `SendInternal`: the response, and the transfers that were made.
  unfoldable pub send_internal : HttpRequest → HttpResponse → HttpResponse × List (List CurlOption)
  unfolding set_up finish
  send_internal r res = elim (set_up r) [
    | stopped status code m ↦
        (record res { status_code = status; curl_code = code; error_message = some m }, [])
    | going os ↦ (finish (curl.perform os) res, os ∷ [])
  ]

  -- `Send`, which sends a copy.
  unfoldable pub send : HttpRequest → HttpResponse × List (List CurlOption)
  unfolding send_internal copy
  send r =
      send_internal (copy r)
        (record { status_code = ok_code; error_message = none; body = []; curl_code = 0 })
