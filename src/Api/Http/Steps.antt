-- ===== src/Api/Http/Steps.antt =====
-- What the calls of a handler do to the statusWriter of internal/api/middleware.go and to the response.
use go_vault.Prelude.{
  ℕ, ◌≡◌, refl, sym, Bool, true, false, List, [], ◌∷◌, Option, none, some, arith, not,
  if◌then◌else◌,
}
use go_vault.Api.Http.{
  Headers, is_informational, StatusWriter, note_status, Writer, Ending, returned, panicked, Step,
  sets, adds, sends, writes, panic, write_header, write, run,
}

-- Whether the handler panics.
abbrev pub panics : List Step → Bool
panics [] = false
panics (panic ∷ steps) = true
panics (step ∷ steps) = panics steps

-- The first call of WriteHeader, up to a panic.
abbrev pub first_sends : List Step → Option ℕ
first_sends [] = none
first_sends (sends code ∷ steps) = some code
first_sends (panic ∷ steps) = none
first_sends (step ∷ steps) = first_sends steps

-- The final status that goes out before the handler ends: a body goes out with 200.
abbrev pub first_status : List Step → Option ℕ
first_status [] = none
first_status (sends code ∷ steps) = if is_informational code then first_status steps else some code
first_status (writes b ∷ steps) = some 200
first_status (panic ∷ steps) = none
first_status (step ∷ steps) = first_status steps

abbrev pub or_200 : Option ℕ → ℕ
or_200 none = 200
or_200 (some code) = code

abbrev pub is_none : Option ℕ → Bool
is_none none = true
is_none (some code) = false

-- The first status that is sent is not informational, and comes before the first body.
abbrev pub status_comes_first : List Step → Bool
status_comes_first [] = true
status_comes_first (sends code ∷ steps) = not (is_informational code)
status_comes_first (writes b ∷ steps) = is_none (first_sends steps)
status_comes_first (panic ∷ steps) = true
status_comes_first (step ∷ steps) = status_comes_first steps

pub first_sends-first_status :
    (steps : List Step)
    → status_comes_first steps ≡ true
    → or_200 (first_sends steps) ≡ or_200 (first_status steps)
first_sends-first_status [] h = refl
first_sends-first_status (sets k v ∷ steps) h = first_sends-first_status steps h
first_sends-first_status (adds k v ∷ steps) h = first_sends-first_status steps h
first_sends-first_status (sends code ∷ steps) h = ground arith
first_sends-first_status (writes b ∷ steps) h = ground arith
first_sends-first_status (panic ∷ steps) h = refl

abbrev pub ending : Bool → Ending
ending true = panicked
ending false = returned

pub run-ending : (steps : List Step) (w : Writer) → (run steps w).0 ≡ ending (panics steps)
unfolding run
run-ending [] w = refl
run-ending (sets k v ∷ steps) w = run-ending steps _
run-ending (adds k v ∷ steps) w = run-ending steps _
run-ending (sends code ∷ steps) w = run-ending steps _
run-ending (writes b ∷ steps) w = run-ending steps _
run-ending (panic ∷ steps) w = refl

abbrev pub sent_status : Option (ℕ × Headers) → Option ℕ
sent_status none = none
sent_status (some (code, h)) = some code

abbrev pub or_else : Option ℕ → Option ℕ → Option ℕ
or_else none o = o
or_else (some code) o = some code

pub run-sent :
    (steps : List Step) (w : Writer)
    → sent_status (run steps w).1.sent ≡ or_else (sent_status w.sent) (first_status steps)
unfolding run write_header write
run-sent [] w = ground arith
run-sent (sets k v ∷ steps) w = run-sent steps _
run-sent (adds k v ∷ steps) w = run-sent steps _
run-sent (sends code ∷ steps) w = ground (arith, run-sent steps (write_header code w))
run-sent (writes b ∷ steps) w = ground (arith, run-sent steps (write b w))
run-sent (panic ∷ steps) w = ground arith

abbrev pub noted : StatusWriter → Option ℕ → StatusWriter
noted t none = t
noted t (some code) = note_status code t

note_status-once :
    (code : ℕ) (t : StatusWriter) (later : Option ℕ)
    → noted (note_status code t) later ≡ note_status code t
note_status-once code t none = refl
note_status-once code t (some code') = ground arith

pub run-tap :
    (steps : List Step) (w : Writer) (t : StatusWriter)
    → w.tap ≡ some t
    → (run steps w).1.tap ≡ some (noted t (first_sends steps))
unfolding run write_header write
run-tap [] w t h = h
run-tap (sets k v ∷ steps) w t h = run-tap steps _ t h
run-tap (adds k v ∷ steps) w t h = run-tap steps _ t h
run-tap (sends code ∷ steps) w t h =
    rw (sym (note_status-once code t (first_sends steps)))
      (run-tap steps (write_header code w) (note_status code t) (rw (h) refl))
run-tap (writes b ∷ steps) w t h = run-tap steps _ t h
run-tap (panic ∷ steps) w t h = h
