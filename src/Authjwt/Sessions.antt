-- ===== src/Authjwt/Sessions.antt =====
-- jwt.go: what a login's token is worth at the gate.
use mathlib.Core.List.{append_assoc}
use limit_plane.Prelude.{
  ltb, if◌then◌else◌, Bool-cases, length, ℕ, ◌+◌, ◌<◌, String, ◌≡◌, refl, ◌∙◌, inl, inr, true,
  false, ◌&&◌, Option, none, some, List, [], ◌∷◌, ◌++◌, arith, str_eq,
}
use limit_plane.Prelude.Assoc.{lookup}
use limit_plane.Authjwt.{
  header_json, bearer, trim_prefix, without_prefix, is_allowed, sign_input, sign, login,
  check_claims, read_claims, verify_parts, verify, admit, guard_token, guard, Claims, User, Auth,
  Session,
}
use limit_plane.Prelude.Strings.{
  split_at, bytes_eq, bytes_eq_refl, Lacks, split_at_last, split_at_first,
}
use limit_plane.Wshub.{Bytes}

trim_prefix-append : (ps xs : Bytes) → trim_prefix ps (ps ++ xs) ≡ some xs
unfolding trim_prefix
trim_prefix-append [] xs = refl
trim_prefix-append (p ∷ ps) xs = ground (arith, trim_prefix-append ps xs)

bytes_eq-length : (xs ys : Bytes) → bytes_eq xs ys ≡ true → length xs ≡ length ys
unfolding bytes_eq
bytes_eq-length [] [] h = refl
bytes_eq-length [] (y ∷ ys) h = cc
bytes_eq-length (x ∷ xs) [] h = cc
bytes_eq-length (x ∷ xs) (y ∷ ys) h = ground (arith, h, bytes_eq-length xs ys)

-- Text behind a prefix is not the text with it.
shorter : (token : Bytes) → bytes_eq token (bearer ++ token) ≡ false
shorter token = elim (Bool-cases (bytes_eq token (bearer ++ token))) [
  | inl e ↦ absurd (omega (arith, bytes_eq-length token (bearer ++ token) e))
  | inr e ↦ e
]

-- What a login says of the one who logs in.
unfoldable pub issued : ℕ → String → String → Auth → Claims
issued now email role a = record { sub = email; role = role; iat = now; exp = now + a.expires_in }

without_prefix-append : (ps xs : Bytes) → without_prefix ps (ps ++ xs) ≡ xs
unfolding without_prefix
without_prefix-append ps xs = rw (trim_prefix-append ps xs, without_prefix) refl

module _ (encode : Bytes → Bytes) (hmac : Bytes → Bytes → Bytes) (print : Claims → Bytes)
    (decode : Bytes → Option Bytes) (parse : Bytes → Option Claims)
    (dotless : (b : Bytes) → Lacks b'.' (encode b))
    (decodes : (b : Bytes) → decode (encode b) ≡ some b) where
  -- A token verifies until it expires.
  verify-sign :
      (now later : ℕ) (email role : String) (a : Auth)
      → parse (print (issued now email role a)) ≡ some (issued now email role a)
      → verify encode hmac decode parse
          (sign encode hmac print email role a.secret a.expires_in now)
          a.secret
          later
        ≡ check_claims encode hmac decode parse later (some (issued now email role a))
  unfolding verify sign verify_parts read_claims sign_input issued
  verify-sign now later email role a reads =
      let header = encode header_json in
      let body = encode (print (issued now email role a)) in
      let signature = encode (hmac a.secret (header ++ b'.' ∷ body)) in
      let parts : split_at b'.' ((header ++ b'.' ∷ body) ++ b'.' ∷ signature)
          ≡ header ∷ body ∷ signature ∷ [] =
        rw
          (
            append_assoc header (b'.' ∷ body) (b'.' ∷ signature),
            split_at_first b'.' header (body ++ b'.' ∷ signature) (dotless header_json),
            split_at_first b'.' body signature (dotless (print (issued now email role a))),
            split_at_last b'.' signature (dotless (hmac a.secret (header ++ b'.' ∷ body))),
          )
          refl in
      rw
        (
          parts,
          bytes_eq_refl signature,
          read_claims,
          decodes (print (issued now email role a)),
          reads,
        )
        refl

  guard-bearer :
      (later : ℕ) (token : Bytes) (roles : List String) (a : Auth)
      → guard encode hmac decode parse later (bearer ++ token) roles a
        ≡ guard_token encode hmac decode parse later token roles a
  unfolding guard
  guard-bearer later token roles a = rw (without_prefix-append bearer token, shorter token) refl

  guard_token-sign :
      (now later : ℕ) (email role : String) (roles : List String) (a : Auth)
      → parse (print (issued now email role a)) ≡ some (issued now email role a)
      → 0 < now
      → guard_token encode hmac decode parse later
          (sign encode hmac print email role a.secret a.expires_in now)
          roles
          a
        ≡ (if ltb later (now + a.expires_in) && is_allowed roles role
            then some (issued now email role a)
            else none)
  unfolding guard_token check_claims issued admit
  guard_token-sign now later email role roles a reads started =
      rw (verify-sign now later email role a reads) (ground (arith, started))

  -- Who logs in with the password of an account gets a session, and its token behind "Bearer " is worth the
  -- claims that the login made, at any later moment before it expires and where the account's role is
  -- allowed; and nothing when it has expired, or for another role. (Base64 puts no dot and is undone by its
  -- reading, and the JSON of the claims is read back.)
  pub guard-login :
      (now later : ℕ) (email password : String) (u : User) (roles : List String) (a : Auth)
      → lookup email a.users ≡ some u
      → str_eq u.password password ≡ true
      → parse (print (issued now email u.role a)) ≡ some (issued now email u.role a)
      → 0 < now
      → (s : Session) × (login encode hmac print now email password a ≡ some s)
        × (guard encode hmac decode parse later (bearer ++ s.token) roles a ≡ (
            if ltb later (now + a.expires_in) && is_allowed roles u.role
            then some (issued now email u.role a)
            else none))
  unfolding login
  guard-login now later email password u roles a there same reads started =
      let token = sign encode hmac print email u.role a.secret a.expires_in now in
      let s : Session = record { token = token; role = u.role; expires_in_sec = a.expires_in } in
      (
        s,
        rw (there, login, same) refl,
        guard-bearer later token roles a
            ∙ guard_token-sign now later email u.role roles a reads started,
      )
