-- ===== src/Server/Tests.antt =====
-- The theorems on the server at concrete data. The toy codes leave a text as it is, the toy signature
-- puts a word in front, and the toy numbers are the three times that the cookies below hold.
use runvard.Base.{
  has_char, ◌<>◌, ℕ, ◌≡◌, ◌≤◌, String, refl, true, false, none, some, [], ◌∷◌, ok, reply, after,
  string_dec, eqb, ◌==◌, if◌then◌else◌, arith, ◌⊎◌, split, split_once, put_front, subst,
}
use runvard.Base.Dict
use runvard.Base.Dict.{Dict, NodupKeys}
use runvard.Accounts.{Account, verify}
use runvard.Tokens.{require_confirm_token}
use runvard.Server.Session.{
  Coding, make_token, parse_token, payload_of, signed_payload, read_payload,
}
use runvard.Server.Roundtrip.{IsReadable, parse_token-make_token}
use runvard.Server.Requests.{Request, require_admin}
use runvard.Server.Danger.{danger_confirm_meta, form_value}
use runvard.Server.Rate.{bucket, rate_ok}
use runvard.Server.Limit.{after_attempts, rate_ok-verdict}
use runvard.Server.Terminals.{active_session_count}
use runvard.Server.Owners.{register, kill_user, perform_all, active_session_count-bounded}
use runvard.Server.App.{
  App, Library, Connection, api_login, session_cookie, confirm, confirm_token, confirmed_admin,
  require_danger_confirm,
}
use runvard.Server.Guards.{IsByAdmin, IsConfirmed, confirmed_admin-IsConfirmed}
use runvard.Server.Login.{IsSignedIn, api_login-IsSignedIn}
use runvard.Server.Changes.{remove_account, perform, IsAllowed, perform-IsAllowed}

abbrev decimal_of : ℕ → String
decimal_of n = if eqb n 28900 then "28900" else "0"

abbrev coding : Coding
coding = record {
  b64e = λ text. text;
  b64d = λ text. some text;
  mac = λ text. "signed:" <> text;
  encode = λ text. text;
  decode = λ text. some text;
  int = λ text. if text == "28900" then some 28900 else none;
  decimal = decimal_of;
}

abbrev Readable : (username role : String) → Type 0
Readable username role = IsReadable coding (payload_of coding username role false 28900) 28900

ann-Readable : Readable "ann" "admin"
unfolding payload_of has_char string_dec
ann-Readable = record {
  decoded = refl;
  body = refl;
  signature = refl;
  dotless = refl;
  number = refl;
  barless = refl;
}

parse_token-make_token_example :
    parse_token coding (some (make_token coding "ann" 28800 "admin" false 100)) 20000
    ≡ some (record { username = "ann"; role = "admin"; expert = false })
unfolding has_char
parse_token-make_token_example =
    parse_token-make_token coding "ann" "admin" 28800 100 20000 false refl refl ann-Readable

rate_ok-verdict_example :
    reply (rate_ok "10.0.0.7" 5_000_000) (
      after_attempts
        (("10.0.0.7", 4_000_000) ∷ ("10.0.0.8", 3_000_000) ∷ ("10.0.0.7", 2_000_000) ∷ []))
    ≡ ok true
unfolding string_dec
rate_ok-verdict_example =
    rate_ok-verdict "10.0.0.7" 5_000_000
      (("10.0.0.7", 4_000_000) ∷ ("10.0.0.8", 3_000_000) ∷ ("10.0.0.7", 2_000_000) ∷ [])
      (omega arith, (omega arith, (omega arith, tt)))

active_session_count-bounded_example :
    active_session_count (some "ann") (
      perform_all
        (register "s1" (some "ann") ∷ register "s2" (some "ann") ∷ kill_user (some "eve") ∷ [])
        [])
    ≤ 1
unfolding string_dec
active_session_count-bounded_example =
    active_session_count-bounded "ann"
      (register "s1" (some "ann") ∷ register "s2" (some "ann") ∷ kill_user (some "eve") ∷ []) refl

abbrev eve : Account
eve = record { role = some "readonly"; salt = some "s1"; hash = some "s1secret" }

abbrev root : Account
root = record { role = some "admin"; salt = some "s2"; hash = some "s2toor" }

abbrev app : App
app = record {
  attempts = [];
  accounts = ("eve", eve) ∷ ("root", root) ∷ [];
  tokens = record {
    confirm =
        (
          "t1",
          record {
            user = "root";
            action = "accounts:delete";
            target = "eve";
            expires = 900_000_000;
          },
        )
        ∷ [];
    terminal = [];
  };
  terminals = [];
}

-- No address is known to the toy library.
abbrev library : Library
library = record {
  coding = coding;
  hashing = record { strip = λ text. text; pbkdf2 = λ password salt. salt <> password };
  urls = record {
    strip = λ text. text;
    rstrip_slash = λ text. text;
    urlsplit = λ url. record {
      scheme = "";
      netloc = "";
      hostname = none;
      port = ok none;
      username = none;
      password = none;
      path = url;
      query = "";
      fragment = "";
    };
    ip_address = λ text. none;
    ip_network = λ text. none;
    ip_version = λ text. 4;
    is_in = λ address network. false;
  };
  lower = λ text. text;
}

abbrev request : Request
request = record {
  cookie = some (make_token coding "root" 28800 "admin" false 100);
  method = "POST";
  path = "/api/accounts/delete";
}

abbrev form : Dict String
form = ("username", "eve") ∷ ("confirm_token", "t1") ∷ []

confirm_distinct : NodupKeys app.tokens.confirm
unfolding Dict.get
confirm_distinct = (refl, tt)

confirmed_admin-IsConfirmed_example :
    IsByAdmin coding request 200 "root"
    × IsConfirmed 5 "root"
        (confirm_token library form)
        (danger_confirm_meta request.path form)
        app.tokens
unfolding confirmed_admin confirm require_danger_confirm require_confirm_token danger_confirm_meta
    form_value require_admin parse_token signed_payload read_payload make_token payload_of split
    split_once has_char string_dec Dict.get put_front Dict.prune Dict.pop_all Dict.keys_where
confirmed_admin-IsConfirmed_example =
    confirmed_admin-IsConfirmed library request form 200 5 app confirm_distinct refl

perform-IsAllowed_example :
    ((after (perform library request form 200 5 (remove_account "eve")) app).accounts
      ≡ app.accounts)
    ⊎ IsAllowed library request form 200 5 app
perform-IsAllowed_example =
    perform-IsAllowed library request form 200 5 (remove_account "eve") app confirm_distinct

abbrev connection : Connection
connection = record {
  scheme = "https";
  trusted_proxies = "";
  client = some "10.0.0.7";
  forwarded_proto = "";
}

root-Readable : Readable "root" "admin"
unfolding payload_of has_char string_dec
root-Readable = record {
  decoded = refl;
  body = refl;
  signature = refl;
  dotless = refl;
  number = refl;
  barless = refl;
}

root_role :
    (role : String)
    → verify library.hashing "root" "toor" app.accounts ≡ some role
    → (has_char "|" role ≡ false) × Readable "root" role
unfolding verify Dict.get string_dec has_char
root_role role h =
    let named : "admin" ≡ role = ground arith in
    subst (λ r. (has_char "|" r ≡ false) × Readable "root" r) named (refl, root-Readable)

api_login-IsSignedIn_example :
    IsSignedIn library connection "root" "toor" 5 100 20000 app
      (session_cookie library connection "root" 28800 "admin" false 100)
unfolding api_login rate_ok bucket verify has_char string_dec Dict.get
api_login-IsSignedIn_example =
    api_login-IsSignedIn library connection "root" "toor" "" 5 100 20000 app
      (session_cookie library connection "root" 28800 "admin" false 100) refl root_role refl
