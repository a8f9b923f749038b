-- ===== src/Server/Login.antt =====
-- What signing in proves, and what the cookie that it sets says.
use runvard.Base.{
  ℕ, ◌+◌, String, ◌≡◌, sym, inl, inr, true, false, none, some, arith, ltb, ◌==◌, has_char,
  if◌then◌else◌, Option-cases, ok, reply, subst,
}
use runvard.Accounts.{verify}
use runvard.Server.Session.{payload_of, parse_token, session_ttl, session_ttl_remember}
use runvard.Server.Roundtrip.{IsReadable, parse_token-make_token}
use runvard.Server.Rate.{rate_ok}
use runvard.Server.App.{App, Library, Connection, Cookie, client_of, session_cookie, api_login}

abbrev pub lifetime : (remember : String) → ℕ
lifetime remember = if remember == "1" then session_ttl_remember else session_ttl

-- The attempt was let through, the password was right, and the cookie holds the role.
pub record IsVerified (L : Library) (connection : Connection) (username password remember : String)
    (clock now : ℕ) (m : App) (cookie : Cookie) : Type 0 where
  pub role : String
  pub allowed : reply (rate_ok (client_of L connection) clock) m.attempts ≡ ok true
  pub verified : verify L.hashing username password m.accounts ≡ some role
  pub set : cookie ≡ session_cookie L connection username (lifetime remember) role false now

-- The attempt was let through, the password was right, and the cookie is a session of the user.
pub record IsSignedIn (L : Library) (connection : Connection) (username password : String)
    (clock now later : ℕ) (m : App) (cookie : Cookie) : Type 0 where
  pub role : String
  pub allowed : reply (rate_ok (client_of L connection) clock) m.attempts ≡ ok true
  pub verified : verify L.hashing username password m.accounts ≡ some role
  pub session : parse_token L.coding (some cookie.value) later ≡ (
      if ltb (now + cookie.max_age) later
      then none
      else some (record { username = username; role = role; expert = false }))

module _ (L : Library) (connection : Connection) (username password remember : String)
    (clock now : ℕ) where
  api_login-IsVerified :
      (m : App) (cookie : Cookie)
      → reply (api_login L connection username password remember clock now) m ≡ ok cookie
      → IsVerified L connection username password remember clock now m cookie
  unfolding api_login rate_ok
  api_login-IsVerified m cookie h =
      elim (Option-cases (verify L.hashing username password m.accounts)) [
        | inl e ↦ absurd (ground arith)
        | inr (role, e) ↦ record {
          role = role;
          allowed = ground arith;
          verified = e;
          set = ground arith;
        }
      ]

  -- A successful sign-in was let through by the rate limit and showed the password of an account, and
  -- the cookie that it sets says that user's name and role, without the expert flag, until its
  -- lifetime has passed and nothing afterwards. Neither the name nor its role has a `|`, and the
  -- libraries read what they wrote in the cookie.
  pub api_login-IsSignedIn :
      (later : ℕ) (m : App) (cookie : Cookie)
      → has_char "|" username ≡ false
      → ((role : String)
          → verify L.hashing username password m.accounts ≡ some role
          → (has_char "|" role ≡ false)
            × IsReadable L.coding
                (payload_of L.coding username role false (now + lifetime remember))
                (now + lifetime remember))
      → reply (api_login L connection username password remember clock now) m ≡ ok cookie
      → IsSignedIn L connection username password clock now later m cookie
  unfolding session_cookie
  api_login-IsSignedIn later m cookie barless readable h =
      let v = api_login-IsVerified m cookie h in
      let (role_barless, r) = readable v.role v.verified in
      record {
        role = v.role;
        allowed = v.allowed;
        verified = v.verified;
        session =
            subst
              (λ c. parse_token L.coding (some c.value) later ≡ (
                if ltb (now + c.max_age) later
                then none
                else some (record { username = username; role = v.role; expert = false })))
              (sym v.set)
              (parse_token-make_token L.coding username v.role (lifetime remember) now later false
                barless role_barless r);
      }
