-- ===== src/Http/Sending.antt =====
-- What a request sets and what comes back.
use server.Base.{
  ℕ, ◌≡◌, ◌↔◌, ◌⊎◌, inl, inr, refl, sym, ap, append-nil, append_assoc, true, List, [], ◌∷◌, ◌++◌,
  length, some, none, arith,
}
use server.Http.Requests.{Text, HttpMethod, get, post, put, delete, other, HttpRequest, copy}
use server.Http.{
  HttpResponse, CurlOption, url, http_get, http_post, custom_put, custom_delete, http_header,
  post_fields, post_field_size, timeout, connect_timeout, no_signal, write_function, write_data,
  Curl, going, stopped, generate_uri, set_option, set_method, header_lines, set_headers, set_body,
  set_rest, set_up, finish, send_internal, send, ok_code, bad_request, internal_server_error,
  Message, get_with_body, unsupported_method, post_fields_failed, post_field_size_failed, ◌>>=◌,
}

-- The options of a request with this address, in order.
method_option : HttpMethod → List CurlOption
method_option get = http_get ∷ []
method_option post = http_post ∷ []
method_option put = custom_put ∷ []
method_option delete = custom_delete ∷ []
method_option other = []

header_options : List (Text × Text) → List CurlOption
unfolding header_lines
header_options [] = []
header_options (h ∷ hs) = http_header (header_lines (h ∷ hs)) ∷ []

body_options : Text → List CurlOption
body_options [] = []
body_options (c ∷ cs) = post_fields (c ∷ cs) ∷ post_field_size (length (c ∷ cs)) ∷ []

unfoldable pub options : HttpRequest → Text → List CurlOption
unfolding method_option header_options body_options
options r uri =
    (((url uri ∷ method_option r.method) ++ header_options r.headers) ++ body_options r.body)
    ++ timeout r.timeout ∷ connect_timeout r.timeout ∷ no_signal ∷ write_function ∷ write_data ∷ []

-- A request that may be sent: of a known method, and with no body if it is a GET.
abbrev pub IsSendable : HttpMethod → Text → Type 0
IsSendable get b = b ≡ []
IsSendable post b = Unit {0}
IsSendable put b = Unit {0}
IsSendable delete b = Unit {0}
IsSendable other b = ⊥

IsSendable-cases : (m : HttpMethod) (b : Text) → IsSendable m b ⊎ (¬ IsSendable m b)
IsSendable-cases get [] = inl refl
IsSendable-cases get (c ∷ cs) = inr (λ e. cc e)
IsSendable-cases post b = inl tt
IsSendable-cases put b = inl tt
IsSendable-cases delete b = inl tt
IsSendable-cases other b = inr (λ e. e)

-- Why a request is bad.
abbrev reason : HttpMethod → Message
reason get = get_with_body
reason post = unsupported_method
reason put = unsupported_method
reason delete = unsupported_method
reason other = unsupported_method

abbrev pub new_response : HttpResponse
new_response = record { status_code = ok_code; error_message = none; body = []; curl_code = 0 }

-- A transfer leaves no error exactly if cURL has none and the status is 200, and its text is the body.
finish-ok_iff :
    (code : ℕ) (written : Text) (status : ℕ)
    → let res = finish (code, written, status) new_response in
      ((res.error_message ≡ none) ↔ ((code ≡ 0) × (status ≡ 200))) × (res.body ≡ written)
unfolding finish
finish-ok_iff code written status = ground arith

module _ (curl : Curl) (accepts : (o : CurlOption) → curl.setopt o ≡ 0) where
  set_option-going :
      (o : CurlOption) (status : ℕ) (m : Message) (os : List CurlOption)
      → set_option curl o status m os ≡ going (os ++ o ∷ [])
  unfolding set_option
  set_option-going o status m os = rw (accepts o) refl

  set_method-going :
      (m : HttpMethod) (b : Text) (os : List CurlOption)
      → IsSendable m b
      → set_method curl m os ≡ going (os ++ method_option m)
  unfolding set_method method_option
  set_method-going get b os h = set_option-going _ _ _ os
  set_method-going post b os h = set_option-going _ _ _ os
  set_method-going put b os h = set_option-going _ _ _ os
  set_method-going delete b os h = set_option-going _ _ _ os
  set_method-going other b os h = absurd h

  set_headers-going :
      (hs : List (Text × Text)) (os : List CurlOption)
      → set_headers curl hs os ≡ going (os ++ header_options hs)
  unfolding set_headers header_options
  set_headers-going [] os = ap going (sym (append-nil os))
  set_headers-going (h ∷ hs) os = set_option-going _ _ _ os

  set_both :
      (c : ℕ) (cs : Text) (os : List CurlOption)
      → (set_option curl (post_fields (c ∷ cs)) bad_request post_fields_failed os
          >>= set_option curl
              (post_field_size (length (c ∷ cs)))
              internal_server_error
              post_field_size_failed)
        ≡ going (os ++ post_fields (c ∷ cs) ∷ post_field_size (length (c ∷ cs)) ∷ [])
  set_both c cs os = simp (set_option-going, append_assoc)

  set_body-going :
      (m : HttpMethod) (b : Text) (os : List CurlOption)
      → IsSendable m b
      → set_body curl m b os ≡ going (os ++ body_options b)
  unfolding set_body body_options
  set_body-going m [] os h = ap going (sym (append-nil os))
  set_body-going get (c ∷ cs) os h = cc h
  set_body-going post (c ∷ cs) os h = set_both c cs os
  set_body-going put (c ∷ cs) os h = set_both c cs os
  set_body-going delete (c ∷ cs) os h = set_both c cs os
  set_body-going other (c ∷ cs) os h = absurd h

  set_rest-going :
      (seconds : ℕ) (os : List CurlOption)
      → set_rest curl seconds os
        ≡ going (
            os
            ++ timeout seconds
              ∷ connect_timeout seconds
              ∷ no_signal
              ∷ write_function
              ∷ write_data
              ∷ [])
  unfolding set_rest
  set_rest-going seconds os = simp (accepts, append_assoc)

  set_up-options :
      (r : HttpRequest) (u : Text)
      → curl.init ≡ true
      → generate_uri curl r ≡ some u
      → IsSendable r.method r.body
      → set_up curl r ≡ going (options r u)
  unfolding set_up options
  set_up-options r u ready e h = simp (
    ready,
    e,
    set_method-going r.method r.body _ h,
    set_headers-going,
    set_body-going r.method r.body _ h,
    accepts,
    append_assoc,
  )

  set_headers-get :
      (hs : List (Text × Text)) (c : ℕ) (cs : Text) (os : List CurlOption)
      → (set_headers curl hs os >>= set_body curl get (c ∷ cs))
        ≡ stopped bad_request 0 get_with_body
  unfolding set_body
  set_headers-get hs c cs os = rw (set_headers-going hs os) refl

  stopped_after :
      (m : HttpMethod) (b : Text) (hs : List (Text × Text)) (os : List CurlOption)
      → ¬ IsSendable m b
      → (set_method curl m os >>= set_headers curl hs >>= set_body curl m b)
        ≡ stopped bad_request 0 (reason m)
  unfolding set_method
  stopped_after get [] hs os h = absurd (h refl)
  stopped_after get (c ∷ cs) hs os h =
      rw (accepts http_get) (set_headers-get hs c cs (os ++ http_get ∷ []))
  stopped_after post b hs os h = absurd (h tt)
  stopped_after put b hs os h = absurd (h tt)
  stopped_after delete b hs os h = absurd (h tt)
  stopped_after other b hs os h = refl

  set_up-stopped :
      (r : HttpRequest) (u : Text)
      → curl.init ≡ true
      → generate_uri curl r ≡ some u
      → ¬ IsSendable r.method r.body
      → set_up curl r ≡ stopped bad_request 0 (reason r.method)
  unfolding set_up
  set_up-stopped r u ready e h =
      simp (ready, e, set_option-going, stopped_after r.method r.body r.headers _ h)

  -- If cURL starts, takes every option and escapes the queries, then a request of a known method, with no body if
  -- it is a GET, makes one transfer: with the address, the method, the headers and the body if there are any, and
  -- the timeouts, in this order; the response is what comes of it. A GET with a body makes none and is a bad
  -- request, and so is an unknown method.
  pub send-options :
      (r : HttpRequest) (u : Text)
      → curl.init ≡ true
      → generate_uri curl (copy r) ≡ some u
      → (IsSendable r.method r.body
          × (send curl r ≡ (finish (curl.perform (options r u)) new_response, options r u ∷ [])))
        ⊎ ((¬ IsSendable r.method r.body)
            × ((send curl r).0.status_code ≡ bad_request)
            × ((send curl r).1 ≡ []))
  unfolding send send_internal copy options
  send-options r u ready e = elim (IsSendable-cases r.method r.body) [
    | inl h ↦ inl (h, rw (send, send_internal, set_up-options (copy r) u ready e h) refl)
    | inr h ↦
        let stops = set_up-stopped (copy r) u ready e h in
        inr (h, rw (send, send_internal, stops) refl, rw (send, send_internal, stops) refl)
  ]
