-- ===== src/Util/Request.antt =====
-- src/net/http_client/http_client.cc: an HTTP request. The library curlpp is a parameter.
use ohno.Common.{
  ℕ, ◌≡◌, ◌≢◌, ◌↔◌, refl, arith, Bool, true, not, Option, none, some, List, [], ◌∷◌, ◌++◌,
  if◌then◌else◌,
}
use ohno.Common.Bytes.{Bytes, codes, empty}
use ohno.Common.Exec.{Exec, Outcome, ok, check, ◌>>◌}
use ohno.Backend.Center.Nodes.{Api, Item}

pub data HttpMethod : Type 0 where
  get post delete patch : HttpMethod

-- The options of the request. `CaInfo`, `CustomRequest` and `PostFields` are only set in some cases.
pub record Options : Type 0 where
  pub url : Bytes
  pub headers : List Bytes
  pub verify_peer : Bool
  pub ca_info : Option Bytes
  pub custom_request : Option Bytes
  pub post_fields : Option Bytes

-- What `perform` does: the response code and the body, or an exception with its text.
pub data Answer : Type 0 where
  answered : ℕ → Bytes → Answer
  thrown : Bytes → Answer

custom : HttpMethod → Option Bytes
custom HttpMethod.get = none
custom post = none
custom delete = some (codes "DELETE")
custom patch = some (codes "PATCH")

abbrev unless_empty : Bytes → Option Bytes
unless_empty text = if empty text then none else some text

headers_of : Bytes → List Bytes
headers_of token =
    let json = codes "Content-Type: application/json" ∷ [] in
    if empty token then json else (codes "Authorization: Bearer " ++ token) ∷ json

pub request_of : HttpMethod → Bytes → Bytes → Bytes → Bytes → Options
unfolding custom headers_of
request_of method uri req_body token ca_path = record {
  url = uri;
  headers = headers_of token;
  verify_peer = not (empty ca_path);
  ca_info = unless_empty ca_path;
  custom_request = custom method;
  post_fields = unless_empty req_body;
}

-- `code` and `resp_body`; `Bad_Request` is 400.
pub response : Answer → ℕ × Bytes
response (answered code text) = (code, text)
response (thrown what) = (400, what)

module _ {S : Type 0} (perform : Options → S → Answer × S) where
  pub http_request : HttpMethod → Bytes → Bytes → Bytes → Bytes → Exec S (ℕ × Bytes)
  unfolding response
  http_request method uri req_body token ca_path = do
    check (not (empty uri))
    λ s.
        let r = perform (request_of method uri req_body token ca_path) s in (ok (response r.0), r.1)

  -- The GET of the center.
  pub center_api : (Bytes → Outcome (List Item)) → Api S
  center_api parse = record {
    http_get = λ uri token ca_path. http_request HttpMethod.get uri [] token ca_path;
    parse = parse;
  }

-- The method that curl sends: the custom one, POST where a body is set, and else GET.
pub sent : Options → Bytes
sent o = elim o.custom_request [
  | some name ↦ name
  | none ↦ elim o.post_fields [ none ↦ codes "GET" | some text ↦ codes "POST" ]
]

pub name_of : HttpMethod → Bytes
name_of HttpMethod.get = codes "GET"
name_of post = codes "POST"
name_of delete = codes "DELETE"
name_of patch = codes "PATCH"

-- Where the method that is sent is the one that is asked for.
abbrev pub Sends : HttpMethod → Bytes → Type 0
Sends HttpMethod.get body = body ≡ []
Sends post body = body ≢ []
Sends delete body = Unit {0}
Sends patch body = Unit {0}

Sends-iff :
    (method : HttpMethod) (uri body token ca_path : Bytes)
    → (sent (request_of method uri body token ca_path) ≡ name_of method) ↔ Sends method body
unfolding request_of custom sent name_of empty
Sends-iff HttpMethod.get uri [] token ca_path = ((λ h. refl), (λ h. refl))
Sends-iff HttpMethod.get uri (c ∷ s) token ca_path = ((λ h. ground arith), (λ h. ground arith))
Sends-iff post uri [] token ca_path = ((λ h. ground arith), (λ h. ground arith))
Sends-iff post uri (c ∷ s) token ca_path = ((λ h. λ e. cc), (λ h. refl))
Sends-iff delete uri body token ca_path = ((λ h. tt), (λ h. refl))
Sends-iff patch uri body token ca_path = ((λ h. tt), (λ h. refl))

given_iff : (ca_path : Bytes) → (not (empty ca_path) ≡ true) ↔ (ca_path ≢ [])
unfolding empty
given_iff [] = ((λ h. ground arith), (λ h. absurd (h refl)))
given_iff (c ∷ s) = ((λ h e. cc), (λ h. refl))

-- For every request: the method that curl sends is the one that is asked for exactly if it is DELETE or
-- PATCH, a GET without a body, or a POST with one; a POST without a body is sent as the same request
-- as a GET. The certificate of the server is verified exactly if a path of certificates is given.
pub request_of-Sends :
    (method : HttpMethod) (uri body token ca_path : Bytes)
    → (let o = request_of method uri body token ca_path in
        ((sent o ≡ name_of method) ↔ Sends method body)
        × (request_of post uri [] token ca_path ≡ request_of HttpMethod.get uri [] token ca_path)
        × ((o.verify_peer ≡ true) ↔ (ca_path ≢ [])))
unfolding request_of custom sent name_of empty
request_of-Sends method uri body token ca_path =
    (Sends-iff method uri body token ca_path, refl, given_iff ca_path)
