-- ===== src/Api/Global/Logged.antt =====
-- The log of internal/api/middleware.go: logRequests, statusWriter and recoverPanic.
use go_vault.Prelude.{
  ℕ, ◌≡◌, refl, sym, ap, ◌∙◌, Bool, true, false, List, [], ◌∷◌, Option, none, some, arith,
  if◌then◌else◌, Bytes,
}
use go_vault.Api.Server.{Method, get, options}
use go_vault.Api.Http.{
  LogLine, access, panic_recovered, Writer, World, Call, Ending, returned, panicked, Step, play,
  write_header, write, write_json, run, play, deliver,
}
use go_vault.Api.Global.{
  recovered, new_tap, logged, tapped, seen_status, on_writer, after_cors, prepared, inner_call,
  new_request_id, exchange, new_router, request_id, capture_user_agent, recover_panic, log_requests,
  limit_body, security_headers, cors,
}
use go_vault.Api.Router.{chain}
use go_vault.Api.Http.Steps.{
  panics, first_sends, first_status, or_200, status_comes_first, first_sends-first_status, ending,
  run-ending, sent_status, run-sent, noted, run-tap,
}

-- Whether the request ends in a panic: a preflight request reaches no handler.
abbrev pub ends_in_panic : Method → List Step → Bool
ends_in_panic options steps = false
ends_in_panic m steps = panics steps

-- What the client is told, by what the handler does.
abbrev pub answered : Method → List Step → ℕ
answered options steps = 204
answered m steps = elim (first_status steps) [
  | none ↦ if panics steps then 500 else 200
  | some code ↦ code
]

abbrev pub log_line : Bytes → Call → Bool → ℕ → LogLine
log_line id c true status = panic_recovered (some id) c.path
log_line id c false status = access (some id) c.method c.path status

abbrev pub Outcome : Bytes → Call → Bool → ℕ → Ending × World → Type 0
Outcome id c panicking status (e, w) =
    (e ≡ returned)
    × (w.log ≡ log_line id c panicking status ∷ [])
    × ((deliver c.method w.writer).status ≡ status)

-- From the handler's end outwards.
abbrev pub finish : Call → Ending × World → Ending × World
finish c (e, w) = recovered c e (on_writer (tapped none) (logged c e w))

-- The writer after a handler, which started with one that had sent nothing.
record Ran (steps : List Step) (e : Ending) (w : Writer) : Type 0 where
  how : e ≡ ending (panics steps)
  sent : sent_status w.sent ≡ first_status steps
  seen : w.tap ≡ some (noted new_tap (first_sends steps))

run-Ran :
    (steps : List Step) (w : Writer)
    → w.sent ≡ none
    → w.tap ≡ some new_tap
    → Ran steps (run steps w).0 (run steps w).1
run-Ran steps w unsent fresh_tap = record {
  how = run-ending steps w;
  sent = ground (arith, run-sent steps w);
  seen = run-tap steps w new_tap fresh_tap;
}

returned-quiet : (b : Bool) → returned ≡ ending b → b ≡ false
returned-quiet true h = ground arith
returned-quiet false h = refl

panicked-loud : (b : Bool) → panicked ≡ ending b → b ≡ true
panicked-loud true h = refl
panicked-loud false h = ground arith

seen_status-noted : (o : Option ℕ) → (noted new_tap o).status ≡ or_200 o
seen_status-noted none = refl
seen_status-noted (some code) = refl

deliver-status : (m : Method) (w : Writer) → (deliver m w).status ≡ or_200 (sent_status w.sent)
deliver-status m w = ground arith

answered_quiet :
    (steps : List Step) → panics steps ≡ false → answered get steps ≡ or_200 (first_status steps)
answered_quiet steps quiet = ground arith

finish-Outcome :
    (id : Bytes) (c : Call) (steps : List Step) (e : Ending) (w : Writer)
    → c.request_id ≡ some id
    → status_comes_first steps ≡ true
    → Ran steps e w
    → Outcome id c
        (panics steps)
        (answered get steps)
        (finish c (e, record { writer = w; log = [] }))
unfolding write_json write_header write
finish-Outcome id c steps returned w named first ran =
    let quiet = returned-quiet (panics steps) ran.how in
    let status : seen_status w.tap ≡ answered get steps =
      rw (ran.seen, answered_quiet steps quiet)
        (seen_status-noted (first_sends steps) ∙ first_sends-first_status steps first) in
    (
      refl,
      rw (quiet, named, status) refl,
      deliver-status c.method (tapped none w)
          ∙ ap or_200 ran.sent
          ∙ sym (answered_quiet steps quiet),
    )
finish-Outcome id c steps panicked w named first ran =
    let loud = panicked-loud (panics steps) ran.how in
    (refl, rw (loud, named) refl, ground (arith, loud, ran.sent))

after_cors-Outcome :
    (id : Bytes) (c : Call) (m : Method) (mux : Call → List Step) (w : Writer)
    → c.method ≡ m
    → c.request_id ≡ some id
    → status_comes_first (mux c) ≡ true
    → w.sent ≡ none
    → w.tap ≡ some new_tap
    → Outcome id c
        (ends_in_panic m (mux c))
        (answered m (mux c))
        (finish c (after_cors (play mux) m c (record { writer = w; log = [] })))
unfolding play write_header
after_cors-Outcome id c options mux w is_m named first unsent fresh_tap =
    (refl, rw (named, fresh_tap) refl, rw (unsent) refl)
after_cors-Outcome id c m mux w is_m named first unsent fresh_tap =
    finish-Outcome id c (mux c) _ _ named first (run-Ran (mux c) w unsent fresh_tap)

-- Every request gives exactly one log line and never a panic to net/http. A preflight request is answered
-- 204 and the handler does not run. When the handler returns, the line is an access line with the status
-- that the client got: the first one that it sent, or 200. When it panics, the line is the panic's and
-- there is no access line; the client gets the status already sent, or 500. The handler sends no status
-- after a body that it wrote without one, and its first status is not informational.
pub exchange-Outcome :
    (random : Option Bytes) (stamp allowed_origin : Bytes) (mux : Call → List Step) (c : Call)
    → status_comes_first (mux (inner_call (new_request_id random stamp) c)) ≡ true
    → Outcome
        (new_request_id random stamp)
        c
        (ends_in_panic c.method (mux (inner_call (new_request_id random stamp) c)))
        (answered c.method (mux (inner_call (new_request_id random stamp) c)))
        (exchange random stamp allowed_origin mux c)
unfolding exchange new_router chain request_id capture_user_agent recover_panic log_requests
    limit_body security_headers cors
exchange-Outcome random stamp allowed_origin mux c first =
    let id = new_request_id random stamp in
    after_cors-Outcome id (inner_call id c) c.method mux (prepared id allowed_origin) refl refl
      first refl refl
