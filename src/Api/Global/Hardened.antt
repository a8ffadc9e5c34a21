-- ===== src/Api/Global/Hardened.antt =====
-- The headers of every response, internal/api/middleware.go requestID, securityHeaders and cors.
use go_vault.Prelude.{
  ℕ, ◌≡◌, refl, inl, inr, Bool, true, false, not, ◌&&◌, ◌||◌, List, [], ◌∷◌, Option, none, some,
  arith, All, if◌then◌else◌, Bytes, bytes_eq, bytes_eq_iff, codes, Bool-cases,
}
use go_vault.Api.Server.{Method, options, Body}
use go_vault.Api.Http.{
  Headers, send, Writer, World, Call, Ending, returned, panicked, Step, sets, adds, sends, writes,
  panic, delivered, content_type, write_header, write, write_json, run, play, Delivered, deliver,
  set_header, add_header,
}
use go_vault.Api.Global.{
  recovered, logged, tapped, on_writer, after_cors, prepared, inner_call, new_request_id,
  content_security_policy, hsts, exchange, new_router, request_id, capture_user_agent,
  recover_panic, log_requests, limit_body, security_headers, cors,
}
use go_vault.Api.Router.{chain}

-- The headers that the middleware sets, with their values.
abbrev pub hardening : Bytes → Bytes → List (Bytes × Bytes)
hardening id allowed_origin =
    (codes "X-Request-ID", id)
    ∷ (codes "Strict-Transport-Security", hsts)
    ∷ (codes "X-Content-Type-Options", codes "nosniff")
    ∷ (codes "X-Frame-Options", codes "DENY")
    ∷ (codes "Referrer-Policy", codes "strict-origin-when-cross-origin")
    ∷ (codes "Content-Security-Policy", content_security_policy)
    ∷ (codes "Permissions-Policy", codes "camera=(), microphone=(), geolocation=()")
    ∷ (codes "Access-Control-Allow-Origin", allowed_origin)
    ∷ (codes "Access-Control-Allow-Credentials", codes "true")
    ∷ (codes "Vary", codes "Origin")
    ∷ []

abbrev named : Bytes → List (Bytes × Bytes) → Bool
named key [] = false
named key ((k, v) ∷ rest) = bytes_eq key k || named key rest

abbrev pub is_protected : Bytes → Bool
is_protected key = named key (hardening [] [])

-- A handler that sets none of these headers itself.
abbrev pub leaves_hardening : List Step → Bool
leaves_hardening [] = true
leaves_hardening (sets key v ∷ steps) = not (is_protected key) && leaves_hardening steps
leaves_hardening (adds key v ∷ steps) = not (is_protected key) && leaves_hardening steps
leaves_hardening (step ∷ steps) = leaves_hardening steps

other_name :
    (k key : Bytes) → is_protected k ≡ true → is_protected key ≡ false → bytes_eq k key ≡ false
other_name k key known unknown = elim (Bool-cases (bytes_eq k key)) [
  | inl same ↦ absurd (cc ((bytes_eq_iff k key).0 same))
  | inr h ↦ h
]

-- A header is in place, in what was sent too.
abbrev SentWith : Bytes → Bytes → Option (ℕ × Headers) → Type 0
SentWith k v none = Unit
SentWith k v (some (code, h)) = h k ≡ v ∷ []

abbrev Marked : Bytes → Bytes → Writer → Type 0
Marked k v w = (w.headers k ≡ v ∷ []) × SentWith k v w.sent

SentWith-send :
    (k v : Bytes) (code : ℕ) (h : Headers) (sent : Option (ℕ × Headers))
    → h k ≡ v ∷ []
    → SentWith k v sent
    → SentWith k v (send code h sent)
SentWith-send k v code h none now before = ground (arith, now)
SentWith-send k v code h (some s) now before = before

module _ (k v : Bytes) (known : is_protected k ≡ true) where
  kept :
      (key : Bytes) (b : Bool) (h new : List Bytes)
      → not (is_protected key) && b ≡ true
      → h ≡ v ∷ []
      → (if bytes_eq k key then new else h) ≡ v ∷ []
  kept key b h new ok here = ground (arith, other_name k key known)

  run-Marked :
      (steps : List Step) (w : Writer)
      → leaves_hardening steps ≡ true
      → Marked k v w
      → Marked k v (run steps w).1
  unfolding run write_header write
  run-Marked [] w ok m = m
  run-Marked (sets key v' ∷ steps) w ok m =
      run-Marked steps (set_header key v' w) (ground arith)
        (kept key (leaves_hardening steps) (w.headers k) _ ok m.0, m.1)
  run-Marked (adds key v' ∷ steps) w ok m =
      run-Marked steps (add_header key v' w) (ground arith)
        (kept key (leaves_hardening steps) (w.headers k) _ ok m.0, m.1)
  run-Marked (sends code ∷ steps) w ok m =
      run-Marked steps (write_header code w) ok
        (m.0, SentWith-send k v code w.headers w.sent m.0 m.1)
  run-Marked (writes b ∷ steps) w ok m =
      run-Marked steps (write b w) ok (m.0, SentWith-send k v 200 w.headers w.sent m.0 m.1)
  run-Marked (panic ∷ steps) w ok m = m

  not_set :
      (key v' : Bytes) (w : Writer)
      → is_protected key ≡ false
      → Marked k v w
      → Marked k v (set_header key v' w)
  not_set key v' w unknown m = (ground (arith, other_name k key known unknown, m.0), m.1)

  after_cors-Marked :
      (mux : Call → List Step) (m : Method) (c : Call) (w : World)
      → leaves_hardening (mux c) ≡ true
      → Marked k v w.writer
      → Marked k v (after_cors (play mux) m c w).1.writer
  unfolding play write_header bytes_eq
  after_cors-Marked mux options c w leaves m =
      let w1 =
        set_header (codes "Access-Control-Allow-Methods") (codes "GET, POST, PUT, DELETE, OPTIONS")
          w.writer in
      let w2 =
        set_header (codes "Access-Control-Allow-Headers") (codes "Content-Type, X-Vault-CSRF") w1 in
      let w3 = set_header (codes "Access-Control-Max-Age") (codes "86400") w2 in
      let marked = not_set (codes "Access-Control-Max-Age") (codes "86400") w2 refl (
        not_set (codes "Access-Control-Allow-Headers") (codes "Content-Type, X-Vault-CSRF") w1 refl
          (not_set (codes "Access-Control-Allow-Methods") (codes "GET, POST, PUT, DELETE, OPTIONS")
            w.writer refl m)) in
      (marked.0, SentWith-send k v 204 w3.headers w.writer.sent marked.0 marked.1)
  after_cors-Marked mux m' c w leaves m = run-Marked (mux c) w.writer leaves m

  recovered-Marked :
      (c : Call) (e : Ending) (w : World)
      → Marked k v w.writer
      → Marked k v (recovered c e (on_writer (tapped none) (logged c e w))).1.writer
  unfolding write_json write_header write bytes_eq
  recovered-Marked c returned w m = m
  recovered-Marked c panicked w m =
      let typed = not_set content_type (codes "application/json; charset=utf-8") w.writer refl m in
      let sent = SentWith-send k v 500 _ w.writer.sent typed.0 typed.1 in
      (typed.0, SentWith-send k v 200 _ _ typed.0 sent)

  deliver-Marked :
      (m : Method) (bodies : List Body) (h : Headers) (sent : Option (ℕ × Headers))
      → h k ≡ v ∷ []
      → SentWith k v sent
      → (delivered m bodies h sent).headers k ≡ v ∷ []
  deliver-Marked m bodies h none now before = now
  deliver-Marked m bodies h (some (code, h')) now before = before

  exchange-Marked :
      (random : Option Bytes) (stamp allowed_origin : Bytes) (mux : Call → List Step) (c : Call)
      → ((c' : Call) → leaves_hardening (mux c') ≡ true)
      → Marked k v (prepared (new_request_id random stamp) allowed_origin)
      → Marked k v (exchange random stamp allowed_origin mux c).1.writer
  unfolding exchange new_router chain request_id capture_user_agent recover_panic log_requests
      limit_body security_headers cors
  exchange-Marked random stamp allowed_origin mux c leaves m =
      let id = new_request_id random stamp in
      let c' = inner_call id c in
      let r =
        after_cors (play mux) c.method c'
          (record { writer = prepared id allowed_origin; log = [] }) in
      recovered-Marked (record c { request_id = some id; agent = some c.user_agent }) r.0 r.1
        (after_cors-Marked mux c.method c' _ (leaves c') m)

abbrev Ready : Bytes → Bytes → Bytes × Bytes → Type 0
Ready id allowed_origin (k, v) = (is_protected k ≡ true) × Marked k v (prepared id allowed_origin)

hardening-Ready :
    (id allowed_origin : Bytes) → All (Ready id allowed_origin) (hardening id allowed_origin)
unfolding bytes_eq
hardening-Ready id allowed_origin = (
  (refl, (refl, tt)),
  (
    (refl, (refl, tt)),
    (
      (refl, (refl, tt)),
      (
        (refl, (refl, tt)),
        (
          (refl, (refl, tt)),
          (
            (refl, (refl, tt)),
            (
              (refl, (refl, tt)),
              ((refl, (refl, tt)), ((refl, (refl, tt)), ((refl, (refl, tt)), tt))),
            ),
          ),
        ),
      ),
    ),
  ),
)

module _ (random : Option Bytes) (stamp allowed_origin : Bytes) (mux : Call → List Step)
    (c : Call) where
  abbrev pub answer : Delivered
  answer = deliver c.method (exchange random stamp allowed_origin mux c).1.writer

  each_header :
      (headers : List (Bytes × Bytes))
      → ((c' : Call) → leaves_hardening (mux c') ≡ true)
      → All (Ready (new_request_id random stamp) allowed_origin) headers
      → All (λ (k, v). answer.headers k ≡ v ∷ []) headers
  each_header [] leaves ready = tt
  each_header ((k, v) ∷ headers) leaves ((known, marked), rest) =
      let w = (exchange random stamp allowed_origin mux c).1.writer in
      let m = exchange-Marked k v known random stamp allowed_origin mux c leaves marked in
      (
        deliver-Marked k v known c.method w.bodies w.headers w.sent m.0 m.1,
        each_header headers leaves rest,
      )

-- Whatever the handler does, unless it sets one of these headers itself, every response has exactly the
-- values of the middleware for the request id, the six security headers, the allowed origin,
-- credentials and Vary: the answers to a preflight request and after a panic, before or after the
-- status was sent, included.
pub exchange-hardening :
    (random : Option Bytes) (stamp allowed_origin : Bytes) (mux : Call → List Step) (c : Call)
    → ((c' : Call) → leaves_hardening (mux c') ≡ true)
    → All
        (λ (name, value). (answer random stamp allowed_origin mux c).headers name ≡ value ∷ [])
        (hardening (new_request_id random stamp) allowed_origin)
exchange-hardening random stamp allowed_origin mux c leaves =
    let id = new_request_id random stamp in
    each_header random stamp allowed_origin mux c (hardening id allowed_origin) leaves
      (hardening-Ready id allowed_origin)
