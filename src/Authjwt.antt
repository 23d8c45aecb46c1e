-- ===== src/Authjwt.antt =====
-- internal/authjwt/jwt.go: the tokens, and the gate in front of the handlers. Base64, the HMAC and JSON are
-- arguments; a time is a number of seconds.
pub mod Sessions
pub mod Examples
use limit_plane.Prelude.{
  leb, ◌==◌, if◌then◌else◌, length, ℕ, ◌+◌, String, Bool, true, false, not, ◌&&◌, ◌||◌, Option,
  none, some, List, [], ◌∷◌, ◌++◌, str_eq,
}
use limit_plane.Prelude.Assoc.{Assoc, lookup}
use limit_plane.Prelude.Strings.{split_at, bytes_eq}
use limit_plane.Wshub.{Bytes}

pub record Claims : Type 0 where
  pub sub : String
  pub role : String
  pub iat : ℕ
  pub exp : ℕ

pub data Failure : Type 0 where
  malformed bad_signature expired : Failure

pub data Verified : Type 0 where
  valid : Claims → Verified
  failed : Failure → Verified

-- `{"alg":"HS256","typ":"JWT"}`
abbrev pub header_json : Bytes
header_json =
    b'{' ∷ b'"' ∷ b'a' ∷ b'l' ∷ b'g' ∷ b'"' ∷ b':' ∷ b'"' ∷ b'H' ∷ b'S' ∷ b'2' ∷ b'5' ∷ b'6' ∷ b'"'
    ∷ b',' ∷ b'"' ∷ b't' ∷ b'y' ∷ b'p' ∷ b'"' ∷ b':' ∷ b'"' ∷ b'J' ∷ b'W' ∷ b'T' ∷ b'"' ∷ b'}' ∷ []

pub record User : Type 0 where
  pub password : String
  pub role : String

pub record Auth : Type 0 where
  pub users : Assoc User
  pub secret : Bytes
  pub expires_in : ℕ

pub record Session : Type 0 where
  pub token : Bytes
  pub role : String
  pub expires_in_sec : ℕ

pub data NewError : Type 0 where
  no_secret no_users : NewError

pub data Created : Type 0 where
  created : Auth → Created
  not_created : NewError → Created

-- Two hours where no time is given.
unfoldable pub new : Assoc User → Bytes → ℕ → Created
new users secret expires_in =
    let a : Auth = record {
      users = users;
      secret = secret;
      expires_in = if expires_in == 0 then 7200 else expires_in;
    } in
    if bytes_eq secret []
    then not_created no_secret
    else if length users == 0
    then not_created no_users
    else created a

abbrev pub bearer : Bytes
bearer = b'B' ∷ b'e' ∷ b'a' ∷ b'r' ∷ b'e' ∷ b'r' ∷ b' ' ∷ []

-- `strings.TrimPrefix`.
unfoldable pub trim_prefix : Bytes → Bytes → Option Bytes
trim_prefix [] xs = some xs
trim_prefix (p ∷ ps) [] = none
trim_prefix (p ∷ ps) (x ∷ xs) = let rest = trim_prefix ps xs in if p == x then rest else none

unfoldable pub without_prefix : Bytes → Bytes → Bytes
unfolding trim_prefix
without_prefix prefix xs = elim (trim_prefix prefix xs) [ none ↦ xs | some rest ↦ rest ]

unfoldable pub has_role : List String → String → Bool
has_role [] role = false
has_role (r ∷ rs) role = str_eq role r || has_role rs role

-- No list of roles allows them all.
unfoldable pub is_allowed : List String → String → Bool
unfolding has_role
is_allowed [] role = true
is_allowed (r ∷ rs) role = has_role (r ∷ rs) role

module _ (encode : Bytes → Bytes) (hmac : Bytes → Bytes → Bytes) where
  unfoldable pub sign_input : Bytes → Bytes → Bytes
  sign_input secret signing_input = encode (hmac secret signing_input)

module _ (encode : Bytes → Bytes) (hmac : Bytes → Bytes → Bytes) (print : Claims → Bytes) where
  unfoldable pub sign : String → String → Bytes → ℕ → ℕ → Bytes
  unfolding sign_input
  sign sub role secret expires_in now =
      let claims : Claims = record { sub = sub; role = role; iat = now; exp = now + expires_in } in
      let signing_input = encode header_json ++ b'.' ∷ encode (print claims) in
      signing_input ++ b'.' ∷ sign_input encode hmac secret signing_input

  unfoldable pub login : ℕ → String → String → Auth → Option Session
  login now email password a = elim (lookup email a.users) [
    | none ↦ none
    | some u ↦
        let session : Session = record {
          token = sign email u.role a.secret a.expires_in now;
          role = u.role;
          expires_in_sec = a.expires_in;
        } in
        if str_eq u.password password then some session else none
  ]

module _ (encode : Bytes → Bytes) (hmac : Bytes → Bytes → Bytes) (decode : Bytes → Option Bytes)
    (parse : Bytes → Option Claims) where
  unfoldable pub check_claims : ℕ → Option Claims → Verified
  check_claims now none = failed malformed
  check_claims now (some c) = if not (c.exp == 0) && leb c.exp now then failed expired else valid c

  unfoldable pub read_claims : Bytes → Option Claims
  read_claims body = elim (decode body) [ none ↦ none | some raw ↦ parse raw ]

  unfoldable pub verify_parts : Bytes → ℕ → List Bytes → Verified
  unfolding check_claims read_claims sign_input
  verify_parts secret now [] = failed malformed
  verify_parts secret now (h ∷ []) = failed malformed
  verify_parts secret now (h ∷ b ∷ []) = failed malformed
  verify_parts secret now (h ∷ b ∷ s ∷ []) =
      if bytes_eq (sign_input encode hmac secret (h ++ b'.' ∷ b)) s
      then check_claims now (read_claims b)
      else failed bad_signature
  verify_parts secret now (h ∷ b ∷ s ∷ t ∷ ts) = failed malformed

  unfoldable pub verify : Bytes → Bytes → ℕ → Verified
  unfolding verify_parts split_at
  verify token secret now = verify_parts secret now (split_at b'.' token)

  unfoldable pub admit : List String → Verified → Option Claims
  unfolding is_allowed
  admit roles (failed why) = none
  admit roles (valid c) = if is_allowed roles c.role then some c else none

  unfoldable pub guard_token : ℕ → Bytes → List String → Auth → Option Claims
  unfolding verify admit
  guard_token now token roles a = admit roles (verify token a.secret now)

  unfoldable pub guard : ℕ → Bytes → List String → Auth → Option Claims
  unfolding guard_token without_prefix
  guard now auth_header roles a =
      let token = without_prefix bearer auth_header in
      if bytes_eq token auth_header then none else guard_token now token roles a
