-- ===== src/Authjwt/Examples.antt =====
-- jwt.go: the theorem at a concrete login, and tests.
use limit_plane.Prelude.{
  ltb, if◌then◌else◌, ℕ, ◌+◌, ◌-◌, ◌≡◌, refl, ap, ◌&&◌, Option, none, some, [], ◌∷◌, ◌++◌, arith,
}
use limit_plane.Prelude.Assoc.{lookup}
use limit_plane.Authjwt.{bearer, is_allowed, login, guard, Claims, Auth, Session}
use limit_plane.Authjwt.Sessions.{issued, guard-login}
use limit_plane.Prelude.Strings.{Lacks}
use limit_plane.Wshub.{Bytes}

-- An encoding without the dot, an HMAC that hides nothing, and JSON that knows one login.
abbrev shift_up : Bytes → Bytes
shift_up [] = []
shift_up (c ∷ cs) = (c + 47) ∷ shift_up cs

abbrev shift_down : Bytes → Bytes
shift_down [] = []
shift_down (c ∷ cs) = (c - 47) ∷ shift_down cs

shift_up-Lacks : (b : Bytes) → Lacks b'.' (shift_up b)
shift_up-Lacks [] = tt
shift_up-Lacks (c ∷ cs) = (ground arith, shift_up-Lacks cs)

shift_down-shift_up : (b : Bytes) → shift_down (shift_up b) ≡ b
shift_down-shift_up [] = refl
shift_down-shift_up (c ∷ cs) = cc (shift_down-shift_up cs, back c)
  where
    back : (n : ℕ) → n + 47 - 47 ≡ n
    back n = omega arith

abbrev plain_hmac : Bytes → Bytes → Bytes
plain_hmac secret input = secret ++ input

abbrev staff : Auth
staff = record {
  users = ("ann", record { password = "pw"; role = "admin" }) ∷ [];
  secret = 1 ∷ 2 ∷ [];
  expires_in = 60;
}

abbrev print_any : Claims → Bytes
print_any c = 5 ∷ []

abbrev parse_one : Bytes → Option Claims
parse_one raw = some (record { sub = "ann"; role = "admin"; iat = 1000; exp = 1060 })

abbrev decode_all : Bytes → Option Bytes
decode_all b = some (shift_down b)

guard-login_example :
    (s : Session) × (login shift_up plain_hmac print_any 1000 "ann" "pw" staff ≡ some s)
    × (guard shift_up plain_hmac decode_all parse_one 1030
          (bearer ++ s.token)
          ("viewer" ∷ "admin" ∷ [])
          staff
        ≡ (if ltb 1030 (1000 + 60) && is_allowed ("viewer" ∷ "admin" ∷ []) "admin"
            then some (issued 1000 "ann" "admin" staff)
            else none))
unfolding lookup issued
guard-login_example =
    guard-login shift_up plain_hmac print_any decode_all parse_one shift_up-Lacks
      (λ b. ap some (shift_down-shift_up b)) 1000 1030 "ann" "pw"
      (record { password = "pw"; role = "admin" }) ("viewer" ∷ "admin" ∷ []) staff refl refl refl
      (omega arith)
