-- ===== src/Http/Middleware.antt =====
-- internal/middleware/security.go: the headers of every answer, and which bodies are limited.
use minnal_labs.Base.{
  ℕ, String, Bool, false, not, ◌&&◌, ◌||◌, Option, none, some, List, [], ◌∷◌, str_eq, if◌then◌else◌,
}
use minnal_labs.Base.Text.{trim_space, to_lower, has_prefix}

abbrev pub Headers : Type 0
Headers = List (String × String)

-- `headers.Set`: a value takes the place of those that the header had
unfoldable pub set : String → String → Headers → Headers
set name value [] = (name, value) ∷ []
set name value ((n, v) ∷ headers) =
    let rest = set name value headers in
    if str_eq n name then (name, value) ∷ headers else (n, v) ∷ rest

-- `SecurityHeaders`
unfoldable pub security_headers : Headers → Headers
unfolding set
security_headers headers = set "Pragma" "no-cache" (
    set "Cache-Control" "no-store" (
      set "Referrer-Policy" "strict-origin-when-cross-origin" (
        set "X-XSS-Protection" "0"
          (set "X-Frame-Options" "DENY" (set "X-Content-Type-Options" "nosniff" headers)))))

-- what the code reads of a request
pub record Request : Type 0 where
  pub has_body : Bool
  pub method : String
  pub content_type : String

-- `shouldLimitRequestBody`; no request is none
unfoldable pub should_limit_request_body : Option Request → Bool
unfolding trim_space to_lower has_prefix
should_limit_request_body none = false
should_limit_request_body (some r) =
    let method =
      str_eq r.method "POST"
      || str_eq r.method "PUT"
      || str_eq r.method "PATCH"
      || str_eq r.method "DELETE" in
    r.has_body
    && method
    && not (has_prefix (to_lower (trim_space r.content_type)) "multipart/form-data")

-- `LimitRequestBody`: how many bytes a handler reads at most, if there is a limit
unfoldable pub limit_request_body : ℕ → Option Request → Option ℕ
unfolding should_limit_request_body
limit_request_body max_bytes r = if should_limit_request_body r then some max_bytes else none
