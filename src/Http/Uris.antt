-- ===== src/Http/Uris.antt =====
-- The address of a request: what Uri and the queries write.
use server.Base.{
  ℕ, ◌+◌, ◌≡◌, refl, sym, ap, ◌∙◌, Bool, true, false, List, [], ◌∷◌, ◌++◌, length, length-append,
  drop, some, none, if◌then◌else◌, append_assoc, append-nil, take-length_append, drop-length_append,
  drop-drop, drop_all, arith, Bool-cases, inl, inr,
}
use server.Http.Requests.{
  Text, Stream, write, HttpRequest, http_request, uri, copy, lacks_slash, skip_slash,
}
use server.Http.{Curl, add_queries, generate_uri}

-- The stream of a text over which another was written from its start.
abbrev over : Text → Text → Stream
over p t = record { text = p ++ drop (length p) t; position = length p }

-- What is behind the text that was written, past the next one.
drop-behind :
    (x p t : Text)
    → drop (length p + length x) (p ++ drop (length p) t) ≡ drop (length p + length x) t
drop-behind x p t =
    sym (drop-drop (length p) (length x) (p ++ drop (length p) t))
    ∙ ap (drop (length x)) (drop-length_append p (drop (length p) t))
    ∙ drop-drop (length p) (length x) t

write-over : (x p t : Text) → write x (over p t) ≡ over (p ++ x) t
unfolding write
write-over x p t =
    rw
      (
        take-length_append p (drop (length p) t),
        drop-behind x p t,
        length-append p x,
        append_assoc p x (drop (length p + length x) t),
      )
      refl

-- `?k=v&k=v`, of the values as they are escaped.
query_text : (Text → Text) → Bool → List (Text × Text) → Text
query_text escape first [] = []
query_text escape first ((k, v) ∷ qs) =
    (if first then b'?' else b'&') ∷ (k ++ b'=' ∷ (escape v ++ query_text escape false qs))

write-query :
    (c : ℕ) (k e p t : Text)
    → write e (write (b'=' ∷ []) (write k (write (c ∷ []) (over p t))))
      ≡ over ((((p ++ c ∷ []) ++ k) ++ b'=' ∷ []) ++ e) t
write-query c k e p t =
    ap (λ s. write e (write (b'=' ∷ []) (write k s))) (write-over (c ∷ []) p t)
    ∙ ap (λ s. write e (write (b'=' ∷ []) s)) (write-over k (p ++ c ∷ []) t)
    ∙ ap (write e) (write-over (b'=' ∷ []) ((p ++ c ∷ []) ++ k) t)
    ∙ write-over e (((p ++ c ∷ []) ++ k) ++ b'=' ∷ []) t

regroup :
    (p k e q : Text) (c d : ℕ)
    → ((((p ++ c ∷ []) ++ k) ++ d ∷ []) ++ e) ++ q ≡ p ++ c ∷ (k ++ d ∷ (e ++ q))
regroup p k e q c d = simp append_assoc

-- An address that is not empty gets a slash at its end if it has none.
abbrev with_slash : Text → Text
with_slash t = if lacks_slash t then t ++ b'/' ∷ [] else t

-- The streams of a new request: all that was written, one after another.
base_uri-http_request : (base : Text) → (http_request base).base_uri ≡ over (with_slash base) []
unfolding http_request
base_uri-http_request base = elim (Bool-cases (lacks_slash base)) [
  | inl yes_ ↦
      rw yes_ (ap (write (b'/' ∷ [])) (write-over base [] []) ∙ write-over (b'/' ∷ []) base [])
  | inr no_ ↦ rw no_ (write-over base [] [])
]

drop-nil : (n : ℕ) → drop {A = ℕ} n [] ≡ []
drop-nil n = drop_all n [] (omega arith)

-- A path is put behind the address that a request is made of, without the slash that it may begin with.
uri-http_request :
    (base path : Text)
    → (uri path (http_request base)).base_uri.text ≡ with_slash base ++ skip_slash path
unfolding uri
uri-http_request base path =
    ap (λ s. (write (skip_slash path) s).text) (base_uri-http_request base)
    ∙ ap (λ s. s.text) (write-over (skip_slash path) (with_slash base) [])
    ∙ rw (drop-nil (length (with_slash base ++ skip_slash path)))
        (append-nil (with_slash base ++ skip_slash path))

module _ (curl : Curl) (escape : Text → Text)
    (escapes : (v : Text) → curl.escape v ≡ some (escape v)) where
  add_queries-nil :
      (first : Bool) (p t : Text) → add_queries curl first [] (over p t) ≡ some (over p t)
  unfolding add_queries
  add_queries-nil first p t = refl

  add_queries-cons :
      (first : Bool) (k v : Text) (qs : List (Text × Text)) (s : Stream)
      → add_queries curl first ((k, v) ∷ qs) s
        ≡ add_queries curl false qs (
            write
              (escape v)
              (write (b'=' ∷ []) (write k (write ((if first then b'?' else b'&') ∷ []) s))))
  unfolding add_queries
  add_queries-cons first k v qs s = rw (escapes v, add_queries) refl

  add_queries-over :
      (first : Bool) (qs : List (Text × Text)) (p t : Text)
      → add_queries curl first qs (over p t) ≡ some (over (p ++ query_text escape first qs) t)
  unfolding query_text
  add_queries-over first [] p t = rw (append-nil p) (add_queries-nil first p t)
  add_queries-over first ((k, v) ∷ qs) p t =
      let c = if first then b'?' else b'&' in
      add_queries-cons first k v qs (over p t)
      ∙ ap (add_queries curl false qs) (write-query c k (escape v) p t)
      ∙ add_queries-over false qs ((((p ++ c ∷ []) ++ k) ++ b'=' ∷ []) ++ escape v) t
      ∙ ap (λ w. some (over w t)) (regroup p k (escape v) (query_text escape false qs) c b'=')

  -- Send copies the request, and puts the queries over the start of the address: with queries, what is
  -- requested is the queries followed by what is left of the address behind as many characters. Without
  -- queries it is the address.
  generate_uri-copy :
      (r : HttpRequest)
      → (r.queries ≡ none → generate_uri curl (copy r) ≡ some r.base_uri.text)
        × ((qs : List (Text × Text))
            → r.queries ≡ some qs
            → let q = query_text escape true qs in
              generate_uri curl (copy r) ≡ some (q ++ drop (length q) r.base_uri.text))
  unfolding generate_uri copy
  generate_uri-copy r = (
    λ e. rw (e, generate_uri) refl,
    λ qs e. rw (e, generate_uri, add_queries-over true qs [] r.base_uri.text) refl,
  )
