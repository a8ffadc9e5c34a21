-- ===== src/Config/Verdict.antt =====
-- When Load of internal/config/config.go succeeds, and what it then promises.
use go_vault.Prelude.{
  ◌*◌, ◌≡◌, refl, ◌⊎◌, inl, inr, Bool, true, false, not, ◌&&◌, ◌||◌, ◌∷◌, Option, none, some, arith,
  if◌then◌else◌, Bytes, codes, Bool-cases, Option-cases, ℤ, pos,
}
use go_vault.Crypto.Kdf.{is_empty}
use go_vault.Config.{
  Config, Platform, LoadError, Loaded, failed, loaded, has_prefix, second, is_local, getenv,
  os_getenv, duration, parsed, port_not_a_number, database_url_missing, invalid_duration,
  check_origin, load,
}

module _ (os : Platform) where
  abbrev pub is_set : Bytes → Bool
  is_set key = not (is_empty (os_getenv os key))

  abbrev is_some : Option ℤ → Bool
  is_some none = false
  is_some (some d) = true

  -- A variable that is set holds a duration.
  abbrev pub good_duration : Bytes → Bool
  good_duration key = not (is_set key) || is_some (os.parse_duration (os_getenv os key))

  abbrev host_is_local : Option Bytes → Bool
  host_is_local none = false
  host_is_local (some host) = is_local host

  abbrev pub good_origin : Bytes → Bool
  good_origin origin = has_prefix origin (codes "https://") || host_is_local (os.hostname origin)

  abbrev pub port : Bytes
  port = getenv os (codes "PORT") (codes "8080")

  abbrev pub origin : Bytes
  origin = getenv os (codes "ALLOWED_ORIGIN") (codes "http://localhost:5173")

  -- Every variable is as it should be.
  abbrev pub acceptable : Bool
  acceptable =
      os.atoi port
      && (is_set (codes "DATABASE_URL")
          && (good_duration (codes "ACCESS_TOKEN_DURATION")
              && (good_duration (codes "REFRESH_TOKEN_DURATION")
                  && (good_duration (codes "SESSION_DURATION") && good_origin origin))))

  -- What a variable holds, or else the fallback.
  abbrev pub chosen : Bytes → Option ℤ → Option ℤ
  chosen key fallback = if is_set key then os.parse_duration (os_getenv os key) else fallback

  abbrev pub access_lifetime : Option ℤ
  access_lifetime = chosen (codes "ACCESS_TOKEN_DURATION") (some (pos (15 * 60 * second)))

  -- The lifetime of a refresh token: the deprecated variable comes first.
  abbrev pub refresh_lifetime : Option ℤ
  refresh_lifetime =
      chosen (codes "SESSION_DURATION")
        (chosen (codes "REFRESH_TOKEN_DURATION") (some (pos (168 * 3600 * second))))

  abbrev pub Promises : Config → Type 0
  Promises c =
      (os.lookup_env (codes "DATABASE_URL") ≡ some c.database_dsn)
      × (is_empty c.database_dsn ≡ false)
      × (c.addr ≡ b':' ∷ port)
      × (os.atoi port ≡ true)
      × (good_origin c.allowed_origin ≡ true)
      × (access_lifetime ≡ some c.access_token_duration)
      × (refresh_lifetime ≡ some c.refresh_token_duration)

  abbrev pub Verdict : Bool → Loaded Config → Type 0
  Verdict true r = (c : Config) × (r ≡ loaded c) × Promises c
  Verdict false r = (e : LoadError) × (r ≡ failed e)

  duration-chosen :
      (key : Bytes) (fallback : ℤ)
      → duration os key fallback ≡ parsed os key (chosen key (some fallback))
  duration-chosen key fallback = ground arith

  good_duration-chosen :
      (key : Bytes) (fallback : ℤ) → good_duration key ≡ is_some (chosen key (some fallback))
  good_duration-chosen key fallback = ground arith

  -- A duration is read, or it is an error.
  abbrev Cases : Bytes → ℤ → Type 0
  Cases key fallback =
      (good_duration key ≡ true)
        × ((d : ℤ) × (duration os key fallback ≡ loaded d) × (chosen key (some fallback) ≡ some d))
      ⊎ (good_duration key ≡ false) × (duration os key fallback ≡ failed (invalid_duration key))

  duration-Cases : (key : Bytes) (fallback : ℤ) → Cases key fallback
  duration-Cases key fallback = elim (Option-cases (chosen key (some fallback))) [
    | inl bad ↦ inr (
      ground (arith, good_duration-chosen key fallback),
      rw (duration-chosen key fallback, bad) refl,
    )
    | inr (d, good) ↦ inl (
      ground (arith, good_duration-chosen key fallback),
      (d, rw (duration-chosen key fallback, good) refl, good),
    )
  ]

  check_origin-cases :
      (o : Bytes)
      → (good_origin o ≡ true) × (check_origin os o ≡ loaded tt)
        ⊎ (good_origin o ≡ false) × ((e : LoadError) × (check_origin os o ≡ failed e))
  unfolding check_origin
  check_origin-cases o = ground arith

  dsn-cases :
      (is_set (codes "DATABASE_URL") ≡ false)
      ⊎ (is_set (codes "DATABASE_URL") ≡ true)
        × (os.lookup_env (codes "DATABASE_URL") ≡ some (os_getenv os (codes "DATABASE_URL")))
  dsn-cases = ground arith

  access-Cases : Cases (codes "ACCESS_TOKEN_DURATION") (pos (15 * 60 * second))
  access-Cases = duration-Cases _ _

  refresh-Cases : Cases (codes "REFRESH_TOKEN_DURATION") (pos (168 * 3600 * second))
  refresh-Cases = duration-Cases _ _

  session-Cases : (r : ℤ) → Cases (codes "SESSION_DURATION") r
  session-Cases r = duration-Cases _ r

-- Load succeeds exactly when PORT is a number, DATABASE_URL is set, every duration that is set is well
-- formed and the origin is https or local, the defaults included. It then promises the DSN of the
-- environment, which is not empty, the port as address, that origin, and the two token lifetimes, where
-- SESSION_DURATION comes before REFRESH_TOKEN_DURATION. In every other case it gives an error.
pub load-Verdict : (os : Platform) → Verdict os (acceptable os) (load os)
unfolding load
load-Verdict os = elim (Bool-cases (os.atoi (port os))) [
  | inr bad ↦ rw (bad) (port_not_a_number, refl)
  | inl port_ok ↦ elim (dsn-cases os) [
    | inl bad ↦ rw (port_ok, bad) (database_url_missing, refl)
    | inr (set, dsn) ↦ elim (access-Cases os) [
      | inr (bad, error) ↦ rw (port_ok, set, bad, error) (_, refl)
      | inl (ok_a, (a, access, lasts_a)) ↦ elim (refresh-Cases os) [
        | inr (bad, error) ↦ rw (port_ok, set, ok_a, access, bad, error) (_, refl)
        | inl (ok_r, (r, refresh, lasts_r)) ↦ elim (session-Cases os r) [
          | inr (bad, error) ↦ rw (port_ok, set, ok_a, access, ok_r, refresh, bad, error) (_, refl)
          | inl (ok_s, (s, session, lasts_s)) ↦ elim (check_origin-cases os (origin os)) [
            | inr (bad, (e, error)) ↦
                rw (port_ok, set, ok_a, access, ok_r, refresh, ok_s, session, bad, error) (e, refl)
            | inl (ok_o, checked) ↦
                rw (port_ok, set, ok_a, access, ok_r, refresh, ok_s, session, ok_o, checked)
                  (_, refl, (dsn, ground arith, refl, port_ok, ok_o, lasts_a, rw (lasts_r) lasts_s))
          ]
        ]
      ]
    ]
  ]
]
