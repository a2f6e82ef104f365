-- ===== src/Proj/Authorize/Sessions.antt =====
-- A login opens a session, and how long its token lasts.
use gopher.Prelude.{
  ℕ, ◌+◌, ◌*◌, ◌<◌, ◌-◌, ◌%◌, ltb, ◌≡◌, ◌≢◌, sym, ap, ◌∙◌, none, true, false, arith, inl, inr,
  Bool-cases,
}
use gopher.Prelude.Integers.{
  ℤ, pos, diff, wrap64-pos, ◌+ℤ◌, ◌*ℤ◌, wrap64, signed64, bits64, is_nonpos, ltℤ,
}
use gopher.Proj.Base.{Text, ok, Payload, Deps}
use gopher.Proj.Service.{new_payload, second}

-- What go-redis and jwt document. Setting a key gives it that value, and a time that is not over
-- when the time was positive, and leaves the other keys; a token that was signed parses as valid,
-- with its payload, until it expires.
pub record SessionLaws (d : Deps) : Type 0 where
  pub get_set :
      (c c' : d.Cache) (k v : Text) (t : ℤ)
      → d.cache_set c k v t ≡ (c', none)
      → d.cache_get c' k ≡ ok v
  pub get_set_ne :
      (c c' : d.Cache) (k l v : Text) (t : ℤ)
      → k ≢ l
      → d.cache_set c k v t ≡ (c', none)
      → (d.cache_get c' l ≡ d.cache_get c l) × (d.cache_ttl c' l ≡ d.cache_ttl c l)
  pub ttl_set :
      (c c' : d.Cache) (k v : Text) (t : ℤ)
      → d.cache_set c k v t ≡ (c', none)
      → is_nonpos t ≡ false
      → (ttl : ℤ) × (d.cache_ttl c' k ≡ ok ttl) × (is_nonpos ttl ≡ false)
  pub parse_sign :
      (now : ℤ) (payload : Payload) (token : Text)
      → ltℤ now payload.expires_at ≡ true
      → d.sign payload ≡ ok token
      → d.parse_claims now token ≡ ok (payload, true)

twice_second :
    (s : ℕ)
    → 0 < s
    → s < 0x2_0000_0000
    → (s * 1000000000 * 1000000000) % 0x1_0000_0000_0000_0000 ≢ s * 1000000000
twice_second s l h e = omega arith

diff-pos : (a b c : ℕ) → 0 < c → diff a b ≢ pos (a + c)
unfolding diff
diff-pos a b c h e = ground arith

signed64-lifetime : (now m c : ℕ) → 0 < c → m ≢ c → pos now +ℤ signed64 m ≢ pos (now + c)
unfolding signed64 ◌+ℤ◌
signed64-lifetime now m c h n e = elim (Bool-cases (ltb m 0x8000_0000_0000_0000)) [
  | inl b ↦ n (ground arith)
  | inr b ↦ ground (arith, diff-pos now (0xFFFF_FFFF_FFFF_FFFF - m + 1) c h)
]

-- A configured lifetime of a token of at least one and less than 2^33 seconds is never the lifetime
-- that the token gets: the number of seconds is multiplied by a second twice.
pub new_payload-lifetime :
    (d : Deps) (now : ℕ) (id seconds : ℕ) (username : Text)
    → d.jwt_expire ≡ pos seconds
    → 0 < seconds
    → seconds < 0x2_0000_0000
    → (new_payload d (pos now) id username).expires_at ≢ pos (now + seconds * 1000000000)
unfolding new_payload wrap64 bits64 ◌*ℤ◌
new_payload-lifetime d now id seconds username e l h x =
    let once : wrap64 (d.jwt_expire *ℤ second) ≡ pos (seconds * 1000000000) =
      ap (λ z. wrap64 (z *ℤ second)) e ∙ wrap64-pos (seconds * 1000000000) (omega arith) in
    signed64-lifetime now ((seconds * 1000000000 * 1000000000) % 0x1_0000_0000_0000_0000)
      (seconds * 1000000000) (omega arith) (twice_second seconds l h)
      (ap (λ z. pos now +ℤ wrap64 (z *ℤ second)) (sym once) ∙ x)
