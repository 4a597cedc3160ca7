-- ===== src/Http/Requests.antt =====
-- The requests of HttpRequest.h and HttpRequest.cpp in Source/Core/Http, and how their address is put together.
use server.Base.{
  ℕ, ◌+◌, ◌==◌, Bool, false, not, List, [], ◌∷◌, ◌++◌, length, take, drop, Option, none,
  if◌then◌else◌,
}

abbrev pub Text : Type 0
Text = List ℕ

-- `kGet` to `kDelete`, and any other value of the enumeration's type.
pub data HttpMethod : Type 0 where
  get post put delete other : HttpMethod

-- `std::stringstream`: its text and where the next character is put. One that is made of a text puts at its
-- start, over what is there.
pub record Stream : Type 0 where
  pub text : Text
  pub position : ℕ

abbrev pub stream : Text → Stream
stream t = record { text = t; position = 0 }

unfoldable pub write : Text → Stream → Stream
write t s = record {
  text = take s.position s.text ++ t ++ drop (s.position + length t) s.text;
  position = s.position + length t;
}

pub record HttpRequest : Type 0 where
  pub base_uri : Stream
  pub method : HttpMethod
  pub queries : Option (List (Text × Text))
  pub headers : List (Text × Text)
  pub body : Text
  pub timeout : ℕ

-- `back() != '/'` of a text that is not empty; and the text without a slash in front.
abbrev pub lacks_slash : Text → Bool
lacks_slash [] = false
lacks_slash (c ∷ []) = not (c == b'/')
lacks_slash (c ∷ d ∷ cs) = lacks_slash (d ∷ cs)

abbrev pub skip_slash : Text → Text
skip_slash [] = []
skip_slash (c ∷ cs) = if c == b'/' then cs else c ∷ cs

-- The constructor, `Uri`, and the copy constructor.
unfoldable pub http_request : Text → HttpRequest
unfolding write
http_request base_uri = record {
  base_uri =
      let s = write base_uri (stream []) in if lacks_slash base_uri then write (b'/' ∷ []) s else s;
  method = get;
  queries = none;
  headers = [];
  body = [];
  timeout = 10;
}

unfoldable pub uri : Text → HttpRequest → HttpRequest
unfolding write
uri path r = record r { base_uri = write (skip_slash path) r.base_uri }

unfoldable pub copy : HttpRequest → HttpRequest
copy r = record r { base_uri = stream r.base_uri.text }
