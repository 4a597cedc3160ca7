-- ===== src/Http/Tests.antt =====
-- A cURL that takes everything, and requests to the address `h/p`.
use server.Base.{◌≡◌, refl, true, List, [], ◌∷◌, some, none, ◌⊎◌}
use server.Http.Requests.{Text, HttpRequest, http_request, uri, copy, post}
use server.Http.{Curl, generate_uri, send, finish, bad_request}
use server.Http.Sending.{IsSendable, options, send-options, new_response}

abbrev curl : Curl
curl = record {
  init = true;
  escape = λ v. some v;
  setopt = λ o. 0;
  perform = λ os. (0, b'o' ∷ b'k' ∷ [], 200);
}

abbrev address : Text
address = b'h' ∷ b'/' ∷ b'p' ∷ []

abbrev request : HttpRequest
request = record {
  base_uri = record { text = address; position = 3 };
  method = post;
  queries = none;
  headers = [];
  body = b'x' ∷ [];
  timeout = 10;
}

abbrev a_b : List (Text × Text)
a_b = (b'a' ∷ [], b'b' ∷ []) ∷ []

-- The queries of a request that is sent overwrite its address.
overwritten :
    generate_uri curl (copy (record request { queries = some a_b }))
    ≡ some (b'?' ∷ b'a' ∷ b'=' ∷ b'b' ∷ [])
unfolding generate_uri copy
overwritten = refl

send-options_example :
    (IsSendable post (b'x' ∷ [])
      × (send curl request ≡ (
        finish (curl.perform (options request address)) new_response,
        options request address ∷ [],
      )))
    ⊎ ((¬ IsSendable post (b'x' ∷ []))
        × ((send curl request).0.status_code ≡ bad_request)
        × ((send curl request).1 ≡ []))
unfolding generate_uri copy
send-options_example = send-options curl (λ o. refl) request address refl refl

joined : (uri (b'/' ∷ b'p' ∷ []) (http_request (b'h' ∷ []))).base_uri.text ≡ address
unfolding uri http_request
joined = refl
