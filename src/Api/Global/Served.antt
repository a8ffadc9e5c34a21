-- ===== src/Api/Global/Served.antt =====
-- The handler that internal/api/router.go NewRouter returns, with the routes inside its middleware.
use go_vault.Prelude.{
  ℕ, ◌≡◌, refl, sym, ap, ◌∙◌, List, [], ◌∷◌, ◌++◌, map, Option, none, some, if◌then◌else◌, arith,
  Bytes, bytes_eq, codes,
}
use go_vault.Primitives.{Primitives}
use go_vault.Api.Server.{Method, options, Request, Response, Server, Cookie, Body, no_body}
use go_vault.Api.Http.{
  is_informational, has_body, Writer, Call, Step, sets, adds, sends, writes, content_type,
  write_header, write, add_header, run, play, Delivered, deliver,
}
use go_vault.Api.Global.{
  prepared, inner_call, after_cors, new_request_id, exchange, new_router, request_id,
  capture_user_agent, recover_panic, log_requests, limit_body, security_headers, cors,
}
use go_vault.Api.Global.Logged.{finish}
use go_vault.Api.Router.{chain, Endpoint, serve, route, preflight, cors as route_cors}

abbrev pub set_cookie : Bytes
set_cookie = codes "Set-Cookie"

-- http.SetCookie adds a header; `text` is how it writes the cookie.
abbrev pub cookie_steps : (Cookie → Bytes) → List Cookie → List Step → List Step
cookie_steps text [] rest = rest
cookie_steps text (c ∷ cs) rest = adds set_cookie (text c) ∷ cookie_steps text cs rest

-- WriteHeader alone, or writeJSON.
abbrev pub body_steps : ℕ → Body → List Step
body_steps status no_body = sends status ∷ []
body_steps status b =
    sets content_type (codes "application/json; charset=utf-8") ∷ sends status ∷ writes b ∷ []

-- What a handler does to the writer.
abbrev pub steps_of : (Cookie → Bytes) → Response → List Cookie → List Step
steps_of text resp cookies = cookie_steps text cookies (body_steps resp.status resp.body)

abbrev pub agent_of : Option Bytes → Bytes
agent_of none = []
agent_of (some ua) = ua

-- A request as the routes see it: userAgentFromCtx reads the context.
abbrev pub seen_by : Call → Request → Request
seen_by c r = record r { method = c.method; user_agent = agent_of c.agent }

module _ (p : Primitives) (text : Cookie → Bytes) (e : Endpoint) (r : Request) (s : Server) where
  -- ServeMux, which chose the endpoint.
  unfoldable pub mux : Call → List Step
  mux c = let (resp, s') = serve p e (seen_by c r) s in steps_of text resp s'.cookies

abbrev pub bodies_of : Body → List Body
bodies_of no_body = []
bodies_of b = b ∷ []

-- net/http does not take an informational status for the final one, which is then 200.
abbrev pub final_status : ℕ → ℕ
final_status code = if is_informational code then 200 else code

abbrev pub Carries : (Cookie → Bytes) → Method → Response → List Cookie → Delivered → Type 0
Carries text m resp cookies d =
    (d.status ≡ final_status resp.status)
    × (d.bodies ≡ (if has_body m (final_status resp.status) then bodies_of resp.body else []))
    × (d.headers set_cookie ≡ map text cookies)

abbrev with_cookies : (Cookie → Bytes) → List Cookie → Writer → Writer
with_cookies text [] w = w
with_cookies text (c ∷ cs) w = with_cookies text cs (add_header set_cookie (text c) w)

run-cookie_steps :
    (text : Cookie → Bytes) (cookies : List Cookie) (rest : List Step) (w : Writer)
    → run (cookie_steps text cookies rest) w ≡ run rest (with_cookies text cookies w)
unfolding run
run-cookie_steps text [] rest w = refl
run-cookie_steps text (c ∷ cs) rest w = run-cookie_steps text cs rest _

-- Nothing has been written yet.
record Blank (w : Writer) : Type 0 where
  sent : w.sent ≡ none
  bodies : w.bodies ≡ []

with_cookies-Blank :
    (text : Cookie → Bytes) (cookies : List Cookie) (w : Writer)
    → Blank w
    → Blank (with_cookies text cookies w)
with_cookies-Blank text [] w b = b
with_cookies-Blank text (c ∷ cs) w b =
    with_cookies-Blank text cs (add_header set_cookie (text c) w)
      (record { sent = b.sent; bodies = b.bodies })

append-nil : (xs : List Bytes) → xs ++ [] ≡ xs
append-nil [] = refl
append-nil (z ∷ xs) = ap (λ t. z ∷ t) (append-nil xs)

append-cons : (xs ys : List Bytes) (x : Bytes) → (xs ++ x ∷ []) ++ ys ≡ xs ++ x ∷ ys
append-cons [] ys x = refl
append-cons (z ∷ xs) ys x = ap (λ t. z ∷ t) (append-cons xs ys x)

headers-with_cookies :
    (text : Cookie → Bytes) (cookies : List Cookie) (w : Writer)
    → (with_cookies text cookies w).headers set_cookie ≡ w.headers set_cookie ++ map text cookies
unfolding bytes_eq
headers-with_cookies text [] w = sym (append-nil (w.headers set_cookie))
headers-with_cookies text (c ∷ cs) w =
    headers-with_cookies text cs (add_header set_cookie (text c) w)
    ∙ append-cons (w.headers set_cookie) (map text cs) (text c)

body-Carries :
    (text : Cookie → Bytes) (resp : Response) (cookies : List Cookie) (c : Call) (w : Writer)
    → Blank w
    → w.headers set_cookie ≡ map text cookies
    → Carries text c.method resp cookies (
        deliver c.method
          (finish c (
            play
              (λ c'. body_steps resp.status resp.body)
              c
              (record { writer = w; log = [] }))).1.writer)
unfolding run write_header write play bytes_eq
body-Carries text resp cookies c w blank h = ground (arith, blank.sent, blank.bodies)

play-Carries :
    (text : Cookie → Bytes) (resp : Response) (cookies : List Cookie) (c : Call) (w : Writer)
    → Blank w
    → w.headers set_cookie ≡ []
    → Carries text c.method resp cookies (
        deliver c.method
          (finish c
            (play (λ c'. steps_of text resp cookies) c (record { writer = w; log = [] }))).1.writer)
unfolding play
play-Carries text resp cookies c w blank h =
    rw (run-cookie_steps text cookies (body_steps resp.status resp.body) w) (
      body-Carries text resp cookies c (with_cookies text cookies w)
        (with_cookies-Blank text cookies w blank)
        (headers-with_cookies text cookies w ∙ ap (λ t. t ++ map text cookies) h))

module _ (p : Primitives) (text : Cookie → Bytes) (e : Endpoint) (r : Request) (s : Server) where
  abbrev pub served : Call → Response × Server
  served c = serve p e (seen_by c r) s

  after_cors-Carries :
      (m : Method) (c : Call) (w : Writer)
      → c.method ≡ m
      → Blank w
      → w.headers set_cookie ≡ []
      → Carries text c.method (served c).0 (served c).1.cookies (
          deliver c.method
            (finish c (
              after_cors (play (mux p text e r s)) m c (record { writer = w; log = [] }))).1.writer)
  unfolding serve route preflight mux play write_header bytes_eq route_cors
  after_cors-Carries options c w is_m blank h = rw (is_m, blank.sent, h) (refl, refl, refl)
  after_cors-Carries m c w is_m blank h =
      play-Carries text (served c).0 (served c).1.cookies c w blank h

-- What the client gets is what the routes answer: for every endpoint, request and state of the server, the
-- middleware delivers the status of `serve` (200, if that one is informational), the cookies that were
-- set, in order, and its body, unless the method is HEAD or the status is below 200, 204 or 304, where
-- net/http sends none. The routes see the method and the User-Agent header of the request.
pub exchange-Carries :
    (random : Option Bytes) (stamp allowed_origin : Bytes) (p : Primitives) (text : Cookie → Bytes)
    (e : Endpoint) (r : Request) (s : Server) (c : Call)
    → Carries text c.method
        (serve p e (record r { method = c.method; user_agent = c.user_agent }) s).0
        (serve p e (record r { method = c.method; user_agent = c.user_agent }) s).1.cookies
        (deliver c.method (exchange random stamp allowed_origin (mux p text e r s) c).1.writer)
unfolding exchange new_router chain request_id capture_user_agent recover_panic log_requests
    limit_body security_headers cors bytes_eq
exchange-Carries random stamp allowed_origin p text e r s c =
    let id = new_request_id random stamp in
    after_cors-Carries p text e r s c.method (inner_call id c) (prepared id allowed_origin) refl
      (record { sent = refl; bodies = refl }) refl
