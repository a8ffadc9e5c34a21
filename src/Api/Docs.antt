-- ===== src/Api/Docs.antt =====
-- The API docs of internal/api/router.go: serveSpec and serveSwaggerUI.
use go_vault.Prelude.{
  ℕ, ◌≡◌, refl, Bool, true, List, [], ◌∷◌, ◌++◌, Option, none, some, Bytes, bytes_eq, codes,
  if◌then◌else◌,
}
use go_vault.Errors.{Result, ok, err}
use go_vault.Api.Server.{Response, Cookie, Body, error, document, no_body}
use go_vault.Api.Http.{Step, sets, writes, content_type, Writer, run, write}
use go_vault.Api.Global.Served.{body_steps, steps_of}
use go_vault.Api.Global.Hardened.{leaves_hardening}

-- `spec` is what gen.GetSpecJSON gives, and `decoded` what json.Unmarshal makes of it, as writeJSON
-- prints it again.
unfoldable pub serve_spec : Result Bytes → (Bytes → Option Bytes) → List Step
serve_spec (err e) decoded = body_steps 500 (error "could not load API spec")
serve_spec (ok spec) decoded = elim (decoded spec) [
  | none ↦ body_steps 500 (error "invalid API spec")
  | some v ↦ body_steps 200 (document v)
]

abbrev pub cdn : Bytes
cdn = codes "https://cdn.jsdelivr.net"

abbrev pub docs_policy : Bytes
docs_policy =
    codes "default-src 'none'; "
    ++ codes "script-src '"
    ++ cdn
    ++ codes "' 'unsafe-inline'; "
    ++ codes "style-src '"
    ++ cdn
    ++ codes "' 'unsafe-inline'; "
    ++ codes "img-src 'self' data: '"
    ++ cdn
    ++ codes "'; "
    ++ codes "connect-src 'self'; "
    ++ codes "frame-ancestors 'none'; base-uri 'self'"

abbrev rendered : List Bytes → List Step → List Step
rendered [] rest = rest
rendered (part ∷ parts) rest = writes (document part) ∷ rendered parts rest

-- The parts of the page that the template has written, whether it came to its end, and what http.Error
-- of net/http does to the writer otherwise.
unfoldable pub serve_swagger_ui : List Bytes → Bool → (Bytes → ℕ → List Step) → List Step
serve_swagger_ui parts done http_error =
    sets content_type (codes "text/html; charset=utf-8")
    ∷ sets (codes "Content-Security-Policy") docs_policy
    ∷ rendered parts (if done then [] else http_error (codes "failed to render docs") 500)

body_steps-leaves_hardening :
    (status : ℕ) (b : Body) → leaves_hardening (body_steps status b) ≡ true
unfolding bytes_eq
body_steps-leaves_hardening status no_body = refl
body_steps-leaves_hardening status b = refl

-- No answer of an API endpoint sets a hardening header, whatever its status, body and cookies.
pub steps_of-leaves_hardening :
    (text : Cookie → Bytes) (resp : Response) (cookies : List Cookie)
    → leaves_hardening (steps_of text resp cookies) ≡ true
unfolding bytes_eq
steps_of-leaves_hardening text resp [] = body_steps-leaves_hardening resp.status resp.body
steps_of-leaves_hardening text resp (c ∷ cookies) = steps_of-leaves_hardening text resp cookies

-- Nor does an answer of /openapi.json, whether or not the document can be loaded.
pub serve_spec-leaves_hardening :
    (spec : Result Bytes) (decoded : Bytes → Option Bytes)
    → leaves_hardening (serve_spec spec decoded) ≡ true
unfolding serve_spec bytes_eq
serve_spec-leaves_hardening (err e) decoded = refl
serve_spec-leaves_hardening (ok spec) decoded = go (decoded spec)
  where
    go :
        (o : Option Bytes)
        → leaves_hardening (elim o [
          | none ↦ body_steps 500 (error "invalid API spec")
          | some v ↦ body_steps 200 (document v)
        ])
          ≡ true
    go none = refl
    go (some v) = refl

rendered_writes :
    (parts : List Bytes) (k : Bytes) (w : Writer)
    → (run (rendered parts []) w).1.headers k ≡ w.headers k
unfolding run write
rendered_writes [] k w = refl
rendered_writes (part ∷ parts) k w = rendered_writes parts k (write (document part) w)

-- A page of the docs that is rendered to its end changes one hardening header, the policy for
-- content, which names the CDN; every header but that one and Content-Type is as it was.
pub serve_swagger_ui-policy :
    (parts : List Bytes) (http_error : Bytes → ℕ → List Step) (w : Writer) (k : Bytes)
    → (run (serve_swagger_ui parts true http_error) w).1.headers k ≡ (
        if bytes_eq k (codes "Content-Security-Policy")
        then docs_policy ∷ []
        else if bytes_eq k content_type
        then codes "text/html; charset=utf-8" ∷ []
        else w.headers k)
unfolding run serve_swagger_ui
serve_swagger_ui-policy parts http_error w k = rendered_writes parts k _
