-- ===== src/HttpClient.antt =====
-- What the source uses of httpx: requests and responses as data, and urllib's `urlencode`.
use hound_bot.Base.{ℕ, String, Bool, ◌&&◌, Option, List, ◌⊎◌, nat_eq, leb}
use hound_bot.Json.{Json}

pub data Method : Type 0 where
  get_method post_method delete_method : Method

pub data Body : Type 0 where
  no_body : Body
  form : List (String × String) → Body
  json_body : Json → Body

-- `bearer` is the token of the Authorization header.
pub record HttpRequest : Type 0 where
  pub method : Method
  pub url : String
  pub bearer : Option String
  pub body : Body

-- `response.json()` raises the message on the right where the body is no JSON.
pub record HttpResponse : Type 0 where
  pub status_code : ℕ
  pub json : Json ⊎ String

-- `response.is_success`
abbrev pub is_success : HttpResponse → Bool
is_success r = leb 200 r.status_code && leb r.status_code 299
