-- ===== src/Proj/Authorize.antt =====
-- go-proj/src/middleware/authorize.go: which requests pass.
pub mod Passing
pub mod Sessions
use gopher.Prelude.{
  ℕ, List, [], ◌∷◌, ◌++◌, Option, none, some, Bool, true, false, not, if◌then◌else◌, drop,
}
use gopher.Prelude.Integers.{ℤ, pos, is_nonpos}
use gopher.Prelude.Classes.{bytes_eq}
use gopher.Proj.Base.{Text, Result, ok, err, Payload, Deps, World}
use gopher.Proj.Resp.{Resp, Sent, send_err, no_data, has_prefix}
use gopher.Proj.Service.{parse_token, token_key, cache_time}

-- The request is answered here, or goes on to its handler with a header in the response.
pub data Verdict : Type 0 where
  aborted : Sent → Verdict
  next : Text → Verdict

abbrev pub bearer : Text
bearer = 66 ∷ 101 ∷ 97 ∷ 114 ∷ 101 ∷ 114 ∷ 32 ∷ []

abbrev pub refuse : Text → Verdict
refuse msg = aborted (send_err (record { code = pos 0; msg = msg; data_ = no_data }))

-- The messages that the middleware writes itself.
pub record Messages : Type 0 where
  pub empty : Text
  pub no_prefix : Text
  pub mismatch : Text
  pub not_found : Text
  pub expired : Text

abbrev pub messages : Messages
messages = record {
  empty = 84 ∷ 111 ∷ 107 ∷ 101 ∷ 110 ∷ 32 ∷ 105 ∷ 115 ∷ 32 ∷ 101 ∷ 109 ∷ 112 ∷ 116 ∷ 121 ∷ [];
  no_prefix =
      84 ∷ 111 ∷ 107 ∷ 101 ∷ 110 ∷ 32 ∷ 100 ∷ 111 ∷ 101 ∷ 115 ∷ 110 ∷ 39 ∷ 116 ∷ 32 ∷ 104 ∷ 97 ∷ 118
      ∷ 101 ∷ 32 ∷ 112 ∷ 114 ∷ 101 ∷ 102 ∷ 105 ∷ 120 ∷ 32 ∷ 39 ∷ 66 ∷ 101 ∷ 97 ∷ 114 ∷ 101 ∷ 114
      ∷ 32 ∷ 39 ∷ [];
  mismatch =
      84 ∷ 111 ∷ 107 ∷ 101 ∷ 110 ∷ 32 ∷ 100 ∷ 111 ∷ 101 ∷ 115 ∷ 110 ∷ 39 ∷ 116 ∷ 32 ∷ 109 ∷ 97 ∷ 116
      ∷ 99 ∷ 104 ∷ [];
  not_found =
      84 ∷ 111 ∷ 107 ∷ 101 ∷ 110 ∷ 32 ∷ 110 ∷ 111 ∷ 116 ∷ 32 ∷ 102 ∷ 111 ∷ 117 ∷ 110 ∷ 100 ∷ [];
  expired =
      84 ∷ 111 ∷ 107 ∷ 101 ∷ 110 ∷ 32 ∷ 105 ∷ 115 ∷ 32 ∷ 101 ∷ 120 ∷ 112 ∷ 105 ∷ 114 ∷ 101 ∷ 100
      ∷ [];
}

-- From the token on: its payload, the token that the cache holds for that user, and the time that
-- the cache still keeps it. A request that passes has the time renewed.
unfoldable pub check_token : (d : Deps) → World d → ℤ → Text → World d × Verdict
check_token d w now token = elim (parse_token d now token) [
  | err e ↦ (w, refuse e)
  | ok payload ↦ elim (d.cache_get w.cache (token_key payload.id)) [
    | err e ↦ (w, refuse e)
    | ok old ↦
        if not (bytes_eq token old)
        then (w, refuse messages.mismatch)
        else elim (d.cache_ttl w.cache (token_key payload.id)) [
          | err e ↦ (w, refuse messages.not_found)
          | ok ttl ↦ if is_nonpos ttl then (w, refuse messages.expired) else (
            record w { cache = d.cache_expire w.cache (token_key payload.id) (cache_time d) },
            next (bearer ++ token),
          )
        ]
  ]
]

unfoldable pub authorize : (d : Deps) → World d → ℤ → Text → World d × Verdict
authorize d w now header =
    if bytes_eq header []
    then (w, refuse messages.empty)
    else if not (has_prefix bearer header)
    then (w, refuse messages.no_prefix)
    else check_token d w now (drop 7 header)
