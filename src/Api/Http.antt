-- ===== src/Api/Http.antt =====
-- What internal/api uses of net/http: the headers, the status and the body of a response, with the
-- statusWriter of internal/api/middleware.go around them. Header changes after the status is sent have no
-- effect, a first write sends status 200, and a second status is ignored. A status from 100 to 199, but 101,
-- is informational: it goes out by itself (which the model leaves out) and another one follows. The
-- answer to HEAD and those with a status below 200, 204 or 304 have no body, whatever is written. Statuses
-- are from 100 to 999: net/http panics at any other.
pub mod Steps
use go_vault.Prelude.{
  ℕ, Bool, true, List, [], ◌∷◌, ◌++◌, Option, none, some, if◌then◌else◌, Bytes, bytes_eq, codes,
  false, not, ◌&&◌, ◌||◌, leb, ◌==◌,
}
use go_vault.Api.Server.{Method, head, Body}

-- http.Header
abbrev pub Headers : Type 0
Headers = Bytes → List Bytes

abbrev pub set : Bytes → Bytes → Headers → Headers
set key v h k = if bytes_eq k key then v ∷ [] else h k

abbrev pub add : Bytes → Bytes → Headers → Headers
add key v h k = if bytes_eq k key then h k ++ v ∷ [] else h k

-- statusWriter, without the writer inside it
pub record StatusWriter : Type 0 where
  pub status : ℕ
  pub wrote_header : Bool

-- A response that is being written. `sent` has the status and the headers that have gone out, and `tap`
-- is the statusWriter that is around it, if there is one.
pub record Writer : Type 0 where
  pub headers : Headers
  pub sent : Option (ℕ × Headers)
  pub bodies : List Body
  pub tap : Option StatusWriter

-- The lines of the log, without the duration.
pub data LogLine : Type 0 where
  -- request id, method, path, status
  access : Option Bytes → Method → Bytes → ℕ → LogLine
  -- request id, path
  panic_recovered : Option Bytes → Bytes → LogLine

pub record World : Type 0 where
  pub writer : Writer
  pub log : List LogLine

-- What the middleware reads and writes of a request: `request_id` and `agent` are in its context, and
-- `body_limit` is that of http.MaxBytesReader.
pub record Call : Type 0 where
  pub method : Method
  pub path : Bytes
  pub user_agent : Bytes
  pub request_id : Option Bytes
  pub agent : Option Bytes
  pub body_limit : Option ℕ

pub data Ending : Type 0 where
  returned panicked : Ending

abbrev pub Handle : Type 0
Handle = Call → World → Ending × World

abbrev pub is_informational : ℕ → Bool
is_informational code = leb 100 code && (leb code 199 && not (code == 101))

-- WriteHeader of net/http.
abbrev pub send : ℕ → Headers → Option (ℕ × Headers) → Option (ℕ × Headers)
send n h none = if is_informational n then none else some (n, h)
send n h (some s) = some s

-- WriteHeader of statusWriter, before it calls the one inside.
abbrev pub note_status : ℕ → StatusWriter → StatusWriter
note_status code w = if w.wrote_header then w else record w { status = code; wrote_header = true }

abbrev pub note_tap : ℕ → Option StatusWriter → Option StatusWriter
note_tap code none = none
note_tap code (some w) = some (note_status code w)

abbrev pub set_header : Bytes → Bytes → Writer → Writer
set_header key v w = record w { headers = set key v w.headers }

abbrev pub add_header : Bytes → Bytes → Writer → Writer
add_header key v w = record w { headers = add key v w.headers }

unfoldable pub write_header : ℕ → Writer → Writer
write_header code w = record w { sent = send code w.headers w.sent; tap = note_tap code w.tap }

unfoldable pub write : Body → Writer → Writer
write b w = record w { sent = send 200 w.headers w.sent; bodies = w.bodies ++ b ∷ [] }

abbrev pub content_type : Bytes
content_type = codes "Content-Type"

-- writeJSON of handlers.go
unfoldable pub write_json : ℕ → Body → Writer → Writer
unfolding write_header write
write_json status v w =
    write v
      (write_header status (set_header content_type (codes "application/json; charset=utf-8") w))

-- A handler seen from its response: the calls that it makes on the writer, or a panic.
pub data Step : Type 0 where
  sets : Bytes → Bytes → Step
  adds : Bytes → Bytes → Step
  sends : ℕ → Step
  writes : Body → Step
  panic : Step

unfoldable pub run : List Step → Writer → Ending × Writer
unfolding write_header write
run [] w = (returned, w)
run (sets key v ∷ steps) w = run steps (set_header key v w)
run (adds key v ∷ steps) w = run steps (add_header key v w)
run (sends code ∷ steps) w = run steps (write_header code w)
run (writes b ∷ steps) w = run steps (write b w)
run (panic ∷ steps) w = (panicked, w)

unfoldable pub play : (Call → List Step) → Handle
unfolding run
play mux c w = let (e, writer) = run (mux c) w.writer in (e, record w { writer = writer })

-- What the client gets.
pub record Delivered : Type 0 where
  pub status : ℕ
  pub headers : Headers
  pub bodies : List Body

-- Whether net/http sends what is written.
abbrev pub has_body : Method → ℕ → Bool
has_body head code = false
has_body m code = not (leb code 199 || (code == 204 || code == 304))

abbrev pub carried : Method → ℕ → List Body → List Body
carried m code bodies = if has_body m code then bodies else []

-- A handler that sent no status sends 200 when it returns.
abbrev pub delivered : Method → List Body → Headers → Option (ℕ × Headers) → Delivered
delivered m bodies h none = record { status = 200; headers = h; bodies = carried m 200 bodies }
delivered m bodies h (some (code, sent)) = record {
  status = code;
  headers = sent;
  bodies = carried m code bodies;
}

-- The answer to a request with the method.
abbrev pub deliver : Method → Writer → Delivered
deliver m w = delivered m w.bodies w.headers w.sent

abbrev pub fresh : World
fresh = record {
  writer = record { headers = λ k. []; sent = none; bodies = []; tap = none };
  log = [];
}
