-- ===== src/Accounts.antt =====
-- modules/accounts.py: the application's own accounts, with roles and salted password hashes. The
-- dict of accounts is what `_load` reads, empty where the file cannot be read, and what `_save` writes.
-- `strip` and PBKDF2 are parameters; the random salt and the environment variables are arguments.
pub mod Passwords
pub mod Bootstrap
pub mod Tests
use Prim.Native.Char.{code}
use runvard.Base.{
  has_char, ℕ, String, Bool, true, false, Option, none, some, List, [], ◌∷◌, not, ◌&&◌, ◌||◌, ltb,
  leb, ◌==◌, opt_eq, contains, is_some, is_blank, or_empty, if◌then◌else◌, runtime_error, Result,
  ok, err, Action,
}
use runvard.Base.Dict
use runvard.Base.Dict.{Dict}

-- A field may be absent from the file.
pub record Account : Type 0 where
  pub role : Option String
  pub salt : Option String
  pub hash : Option String

pub record Hashing : Type 0 where
  pub strip : String → String
  -- `_hash`, of a password and a salt
  pub pbkdf2 : String → String → String

-- `{"ok": True}`, or `{"ok": False, "error": ...}`
pub data Reply : Type 0 where
  done : Reply
  refused : String → Reply

abbrev pub roles : List String
roles = "admin" ∷ "readonly" ∷ []

-- `v.get("role", "admin")`
abbrev pub role_of : Account → String
role_of account = elim account.role [ none ↦ "admin" | some role ↦ role ]

-- `"|" in username`
abbrev pub has_bar : String → Bool
has_bar s = has_char "|" s

-- `<=` on texts, by code points
unfoldable pub text_leb : String → String → Bool
text_leb String.[] t = true
text_leb (String.◌∷◌ c s) String.[] = false
text_leb (String.◌∷◌ c s) (String.◌∷◌ d t) =
    let rest = text_leb s t in if ltb (code c) (code d) then true else leb (code c) (code d) && rest

abbrev Row : Type 0
Row = String × String

insert_row : Row → List Row → List Row
insert_row row [] = row ∷ []
insert_row row (other ∷ rows) =
    let rest = insert_row row rows in
    if text_leb row.0 other.0 then row ∷ other ∷ rows else other ∷ rest

-- `list_users`: user names with their roles, in the order of the names
unfoldable pub list_users : Dict Account → List Row
unfolding insert_row text_leb
list_users [] = []
list_users ((name, account) ∷ d) = insert_row (name, role_of account) (list_users d)

module _ (H : Hashing) where
  abbrev pub new_account : (role password salt : String) → Account
  new_account role password salt = record {
    role = some role;
    salt = some salt;
    hash = some (H.pbkdf2 password salt);
  }

  unfoldable pub add_user :
      (username password : Option String)
      → (role salt : String) → Dict Account
      → Reply × Dict Account
  add_user username password role salt d =
      let name = H.strip (or_empty username) in
      if name == "" || has_bar name
      then (Reply.refused "Ungueltiger Benutzername", d)
      else if is_blank password
      then (Reply.refused "Passwort erforderlich", d)
      else let known = if contains roles role then role else "readonly" in
        (Reply.done, Dict.insert name (new_account known (or_empty password) salt) d)

  unfoldable pub set_password :
      (username : String) → Option String → (salt : String) → Dict Account → Reply × Dict Account
  set_password username password salt d = elim (Dict.get username d) [
    | none ↦ (Reply.refused "Unbekannter Benutzer", d)
    | some account ↦ if is_blank password then (Reply.refused "Passwort erforderlich", d) else (
      Reply.done,
      Dict.insert username
          (record account { salt = some salt; hash = some (H.pbkdf2 (or_empty password) salt) }) d,
    )
  ]

  -- `not u`, of an account with no field
  abbrev pub is_void : Account → Bool
  is_void account = not (is_some account.role || is_some account.salt || is_some account.hash)

  unfoldable pub verify : (username password : String) → Dict Account → Option String
  verify username password d = elim (Dict.get username d) [
    | none ↦ none
    | some account ↦
        if not (is_void account)
          && H.pbkdf2 password (or_empty account.salt) == or_empty account.hash
        then some (role_of account)
        else none
  ]

  -- The names whose role is set and is admin.
  unfoldable pub administrators : Dict Account → List String
  administrators d = Dict.keys_where (λ account. opt_eq account.role (some "admin")) d

  abbrev first_of : List String → Result String
  first_of [] = err (runtime_error "runvard has no administrator account")
  first_of (name ∷ names) = ok name

  -- `add_user` for the configured account
  unfoldable pub migrate : (username password salt : String) → Action (Dict Account) String
  migrate username password salt d =
      let (reply, d') = add_user (some username) (some password) "admin" salt d in
      elim reply [
        | Reply.done ↦ (ok (H.strip username), d')
        | Reply.refused error ↦ (err (runtime_error error), d')
      ]

  unfoldable pub ensure_bootstrap_account :
      (username password : Option String) → (salt : String) → Action (Dict Account) String
  ensure_bootstrap_account username password salt (entry ∷ d) =
      (first_of (administrators (entry ∷ d)), entry ∷ d)
  ensure_bootstrap_account username password salt [] =
      if not (is_some username || is_some password)
      then (
        err (
            runtime_error
              "runvard has no administrator account; configure secure bootstrap credentials"),
        [],
      )
      else if is_blank username || H.strip (or_empty username) == "" || is_blank password
      then (err (runtime_error "RUNVARD_USER and RUNVARD_PASS must both be non-empty"), [])
      else if H.strip (or_empty username) == "admin" && or_empty password == "runvard"
      then (err (runtime_error "the insecure legacy admin/runvard credentials are rejected"), [])
      else migrate (or_empty username) (or_empty password) salt []

unfoldable pub set_role : (username role : String) → Dict Account → Reply × Dict Account
set_role username role d = elim (Dict.get username d) [
  | none ↦ (Reply.refused "Unbekannter Benutzer", d)
  | some account ↦
      if not (contains roles role)
      then (Reply.refused "Ungueltige Rolle", d)
      else (Reply.done, Dict.insert username (record account { role = some role }) d)
]

unfoldable pub delete_user : String → Dict Account → Reply × Dict Account
delete_user username d = (Reply.done, Dict.erase username d)
