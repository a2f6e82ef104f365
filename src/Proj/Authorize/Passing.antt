-- ===== src/Proj/Authorize/Passing.antt =====
-- Who passes, and that a login does.
use gopher.Prelude.{◌≡◌, refl, sym, ap, ◌∙◌, [], ◌++◌, false, arith, drop, inl, inr, Bool-cases}
use gopher.Prelude.Integers.{ℤ, pos, is_nonpos, ltℤ}
use gopher.Prelude.Classes.{bytes_eq, bytes_eq_iff}
use gopher.Proj.Base.{Text, ok, Payload, Deps, World}
use gopher.Proj.Resp.{
  Sent, send, send_err, is_empty, no_data, has_prefix, has_prefix-append, has_prefix-true,
}
use gopher.Proj.Service.{parse_token, token_key, cache_time}
use gopher.Proj.Service.Accounts.{Result-cases}
use gopher.Proj.Authorize.{aborted, next, bearer, messages, check_token, authorize}

drop-bearer : (token : Text) → drop 7 (bearer ++ token) ≡ token
drop-bearer token = refl

refused :
    (m : Text) → (send_err (record { code = pos 0; msg = m; data_ = no_data })).status ≡ pos 400
unfolding send_err send is_empty ltℤ
refused m = ground arith

module _ (d : Deps) where
  check_token-ok :
      (w : World d) (now : ℤ) (token : Text) (payload : Payload) (ttl : ℤ)
      → parse_token d now token ≡ ok payload
      → d.cache_get w.cache (token_key payload.id) ≡ ok token
      → d.cache_ttl w.cache (token_key payload.id) ≡ ok ttl
      → is_nonpos ttl ≡ false
      → check_token d w now token ≡ (
        record w { cache = d.cache_expire w.cache (token_key payload.id) (cache_time d) },
        next (bearer ++ token),
      )
  unfolding check_token
  check_token-ok w now token payload ttl p g t n = ground (arith, bytes_eq_iff token token)

  check_token-next :
      (w w' : World d) (now : ℤ) (token h : Text)
      → check_token d w now token ≡ (w', next h)
      → (payload : Payload) × (ttl : ℤ) × (parse_token d now token ≡ ok payload)
        × (d.cache_get w.cache (token_key payload.id) ≡ ok token)
        × (d.cache_ttl w.cache (token_key payload.id) ≡ ok ttl)
        × (is_nonpos ttl ≡ false)
  unfolding check_token
  check_token-next w w' now token h e = elim (Result-cases (parse_token d now token)) [
    | inr (m, p) ↦ absurd (ground arith)
    | inl (payload, p) ↦ elim (Result-cases (d.cache_get w.cache (token_key payload.id))) [
      | inr (m, g) ↦ absurd (ground arith)
      | inl (old, g) ↦ elim (Bool-cases (bytes_eq token old)) [
        | inr b ↦ absurd (ground arith)
        | inl b ↦ elim (Result-cases (d.cache_ttl w.cache (token_key payload.id))) [
          | inr (m, t) ↦ absurd (ground arith)
          | inl (ttl, t) ↦ elim (Bool-cases (is_nonpos ttl)) [
            | inl n ↦ absurd (ground arith)
            | inr n ↦ (payload, ttl, p, ground (arith, bytes_eq_iff token old), t, n)
          ]
        ]
      ]
    ]
  ]

  check_token-aborted :
      (w w' : World d) (now : ℤ) (token : Text) (s : Sent)
      → check_token d w now token ≡ (w', aborted s)
      → (w' ≡ w) × (s.status ≡ pos 400)
  unfolding check_token
  check_token-aborted w w' now token s e = elim (Result-cases (parse_token d now token)) [
    | inr (m, p) ↦ (ground arith, ground (arith, refused m))
    | inl (payload, p) ↦ elim (Result-cases (d.cache_get w.cache (token_key payload.id))) [
      | inr (m, g) ↦ (ground arith, ground (arith, refused m))
      | inl (old, g) ↦ elim (Bool-cases (bytes_eq token old)) [
        | inr b ↦ (ground arith, ground (arith, refused messages.mismatch))
        | inl b ↦ elim (Result-cases (d.cache_ttl w.cache (token_key payload.id))) [
          | inr (m, t) ↦ (ground arith, ground (arith, refused messages.not_found))
          | inl (ttl, t) ↦ elim (Bool-cases (is_nonpos ttl)) [
            | inl n ↦ (ground arith, ground (arith, refused messages.expired))
            | inr n ↦ absurd (ground arith)
          ]
        ]
      ]
    ]
  ]

  -- A request passes exactly when its header is "Bearer " and a token that parses as valid, that
  -- the cache holds for the user it names, and for a time that is not over; its header is then sent
  -- back and the time of that user's token renewed. Any other request is answered with status 400,
  -- and neither the database nor the cache changes.
  pub authorize-next :
      (w w' : World d) (now : ℤ) (header : Text)
      → ((h : Text)
          → authorize d w now header ≡ (w', next h)
          → (token : Text) × (payload : Payload) × (ttl : ℤ) × (header ≡ bearer ++ token)
            × (h ≡ header)
            × (parse_token d now token ≡ ok payload)
            × (d.cache_get w.cache (token_key payload.id) ≡ ok token)
            × (d.cache_ttl w.cache (token_key payload.id) ≡ ok ttl)
            × (is_nonpos ttl ≡ false)
            × (w' ≡ record w {
              cache = d.cache_expire w.cache (token_key payload.id) (cache_time d);
            }))
        × ((token : Text) (payload : Payload) (ttl : ℤ)
            → header ≡ bearer ++ token
            → parse_token d now token ≡ ok payload
            → d.cache_get w.cache (token_key payload.id) ≡ ok token
            → d.cache_ttl w.cache (token_key payload.id) ≡ ok ttl
            → is_nonpos ttl ≡ false
            → (authorize d w now header).1 ≡ next header)
        × ((s : Sent)
            → authorize d w now header ≡ (w', aborted s)
            → (w' ≡ w) × (s.status ≡ pos 400))
  unfolding authorize
  authorize-next w w' now header = (forth, back, abort)
    where
      forth :
          (h : Text)
          → authorize d w now header ≡ (w', next h)
          → (token : Text) × (payload : Payload) × (ttl : ℤ) × (header ≡ bearer ++ token)
            × (h ≡ header)
            × (parse_token d now token ≡ ok payload)
            × (d.cache_get w.cache (token_key payload.id) ≡ ok token)
            × (d.cache_ttl w.cache (token_key payload.id) ≡ ok ttl)
            × (is_nonpos ttl ≡ false)
            × (w'
                ≡ record w { cache = d.cache_expire w.cache (token_key payload.id) (cache_time d) })
      forth h e = elim (Bool-cases (bytes_eq header [])) [
        | inl b ↦ absurd (ground arith)
        | inr b ↦ elim (Bool-cases (has_prefix bearer header)) [
          | inr p ↦ absurd (ground arith)
          | inl p ↦
              let (token, he) = has_prefix-true bearer header p in
              let reached : check_token d w now token ≡ (w', next h) =
                ap (check_token d w now) (sym (ap (drop 7) he)) ∙ ground arith in
              let (payload, ttl, pt, g, t, n) = check_token-next w w' now token h reached in
              let passed = check_token-ok w now token payload ttl pt g t n in
              (token, payload, ttl, he, ground arith, pt, g, t, n, ground arith)
        ]
      ]

      back :
          (token : Text) (payload : Payload) (ttl : ℤ)
          → header ≡ bearer ++ token
          → parse_token d now token ≡ ok payload
          → d.cache_get w.cache (token_key payload.id) ≡ ok token
          → d.cache_ttl w.cache (token_key payload.id) ≡ ok ttl
          → is_nonpos ttl ≡ false
          → (authorize d w now header).1 ≡ next header
      back token payload ttl he p g t n = ground (
        arith,
        ap (drop 7) he,
        bytes_eq_iff header [],
        has_prefix-append bearer token,
        check_token-ok w now token payload ttl p g t n,
      )

      abort :
          (s : Sent) → authorize d w now header ≡ (w', aborted s) → (w' ≡ w) × (s.status ≡ pos 400)
      abort s e = elim (Bool-cases (bytes_eq header [])) [
        | inl b ↦ (ground arith, ground (arith, refused messages.empty))
        | inr b ↦ elim (Bool-cases (has_prefix bearer header)) [
          | inr p ↦ (ground arith, ground (arith, refused messages.no_prefix))
          | inl p ↦ check_token-aborted w w' now (drop 7 header) s (ground arith)
        ]
      ]
