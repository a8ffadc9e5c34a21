-- ===== src/Api/Global.antt =====
-- The middleware that internal/api/router.go puts around every route, internal/api/middleware.go.
pub mod Hardened
pub mod Logged
pub mod Served
use go_vault.Prelude.{
  ℕ, ◌^◌, List, [], ◌∷◌, ◌++◌, Option, none, some, Bytes, codes, Bool, true, false,
}
use go_vault.Primitives.{hex_encode}
use go_vault.Api.Server.{Method, options, internal_error}
use go_vault.Api.Http.{
  StatusWriter, Writer, LogLine, access, panic_recovered, World, Call, Ending, returned, panicked,
  Handle, set_header, write_header, write_json, Step, play, Delivered, deliver, fresh,
}
use go_vault.Api.Router.{chain}

abbrev pub max_body_bytes : ℕ
max_body_bytes = 2 ^ 20

-- `random` is what `rand.Read` gave, and `stamp` the time as text.
unfoldable pub new_request_id : Option Bytes → Bytes → Bytes
unfolding hex_encode
new_request_id none stamp = stamp
new_request_id (some b) stamp = hex_encode b

abbrev pub on_writer : (Writer → Writer) → World → World
on_writer f w = record w { writer = f w.writer }

abbrev pub logging : LogLine → World → World
logging line w = record w { log = w.log ++ line ∷ [] }

unfoldable pub request_id : Option Bytes → Bytes → Handle → Handle
unfolding new_request_id
request_id random stamp inner c w =
    let id = new_request_id random stamp in
    inner (record c { request_id = some id }) (on_writer (set_header (codes "X-Request-ID") id) w)

unfoldable pub capture_user_agent : Handle → Handle
capture_user_agent inner c w = inner (record c { agent = some c.user_agent }) w

abbrev pub recovered : Call → Ending → World → Ending × World
recovered c returned w = (returned, w)
recovered c panicked w = (
  returned,
  on_writer (write_json 500 internal_error) (logging (panic_recovered c.request_id c.path) w),
)

unfoldable pub recover_panic : Handle → Handle
unfolding write_json
recover_panic inner c w = let (e, w') = inner c w in recovered c e w'

-- The statusWriter is set up, and taken away again.
abbrev pub tapped : Option StatusWriter → Writer → Writer
tapped t w = record w { tap = t }

abbrev pub new_tap : StatusWriter
new_tap = record { status = 200; wrote_header = false }

abbrev pub seen_status : Option StatusWriter → ℕ
seen_status none = 200
seen_status (some t) = t.status

abbrev pub logged : Call → Ending → World → World
logged c panicked w = w
logged c returned w = logging (access c.request_id c.method c.path (seen_status w.writer.tap)) w

-- A panic passes the log line by.
unfoldable pub log_requests : Handle → Handle
log_requests inner c w =
    let (e, w') = inner c (on_writer (tapped (some new_tap)) w) in
    (e, on_writer (tapped w.writer.tap) (logged c e w'))

unfoldable pub limit_body : Handle → Handle
limit_body inner c w = inner (record c { body_limit = some max_body_bytes }) w

abbrev pub hsts : Bytes
hsts = codes "max-age=63072000; includeSubDomains; preload"

abbrev pub content_security_policy : Bytes
content_security_policy =
    codes "default-src 'none'; script-src 'self' 'wasm-unsafe-eval'; style-src 'self'; "
    ++ (codes
          "connect-src 'self' https://api.pwnedpasswords.com; img-src 'self' data:; form-action 'self'; "
        ++ codes "frame-ancestors 'none'; base-uri 'self'")

abbrev pub all_security_headers : Writer → Writer
all_security_headers h =
    set_header (codes "Permissions-Policy") (codes "camera=(), microphone=(), geolocation=()") (
      set_header (codes "Content-Security-Policy") content_security_policy (
        set_header (codes "Referrer-Policy") (codes "strict-origin-when-cross-origin") (
          set_header (codes "X-Frame-Options") (codes "DENY") (
            set_header (codes "X-Content-Type-Options") (codes "nosniff")
              (set_header (codes "Strict-Transport-Security") hsts h)))))

unfoldable pub security_headers : Handle → Handle
security_headers inner c w = inner c (on_writer all_security_headers w)

abbrev pub cors_headers : Bytes → Writer → Writer
cors_headers allowed_origin h = set_header (codes "Vary") (codes "Origin") (
    set_header (codes "Access-Control-Allow-Credentials") (codes "true")
      (set_header (codes "Access-Control-Allow-Origin") allowed_origin h))

abbrev pub preflight_headers : Writer → Writer
preflight_headers h = set_header (codes "Access-Control-Max-Age") (codes "86400") (
    set_header (codes "Access-Control-Allow-Headers") (codes "Content-Type, X-Vault-CSRF") (
      set_header (codes "Access-Control-Allow-Methods") (codes "GET, POST, PUT, DELETE, OPTIONS")
        h))

abbrev pub after_cors : Handle → Method → Handle
after_cors inner options c w = (returned, on_writer (λ h. write_header 204 (preflight_headers h)) w)
after_cors inner m c w = inner c w

-- cors with its headers.
unfoldable pub cors : Bytes → Handle → Handle
unfolding write_header
cors allowed_origin inner c w =
    after_cors inner c.method c (on_writer (cors_headers allowed_origin) w)

-- The handler that NewRouter returns, around its ServeMux.
unfoldable pub new_router : Option Bytes → Bytes → Bytes → Handle → Handle
unfolding chain request_id capture_user_agent recover_panic log_requests limit_body security_headers
    cors
new_router random stamp allowed_origin mux = chain mux (
    request_id random stamp
    ∷ capture_user_agent
    ∷ recover_panic
    ∷ log_requests
    ∷ limit_body
    ∷ security_headers
    ∷ cors allowed_origin
    ∷ [])

-- The request and the response as cors finds them.
abbrev pub inner_call : Bytes → Call → Call
inner_call id c = record c {
  request_id = some id;
  agent = some c.user_agent;
  body_limit = some max_body_bytes;
}

abbrev pub prepared : Bytes → Bytes → Writer
prepared id allowed_origin = cors_headers allowed_origin (
    all_security_headers
      (tapped (some new_tap) (set_header (codes "X-Request-ID") id fresh.writer)))

-- One request from a fresh connection.
unfoldable pub exchange : Option Bytes → Bytes → Bytes → (Call → List Step) → Call → Ending × World
unfolding new_router play
exchange random stamp allowed_origin mux c =
    new_router random stamp allowed_origin (play mux) c fresh
