-- ===== src/Accounts/Bootstrap.antt =====
-- The account that the server starts with.
use runvard.Base.{
  String, ◌≡◌, refl, sym, ap, subst, ◌∙◌, Result, Bool, true, Option, some, List, [], ◌∷◌, arith,
  opt_eq, opt_eq→≡, contains, ok, reply, after, or_empty, Option-cases, Bool-cases, inl, inr,
}
use runvard.Base.Dict
use runvard.Base.Dict.{Dict, NodupKeys}
use runvard.Accounts.{
  Account, Hashing, new_account, add_user, migrate, administrators, ensure_bootstrap_account,
}

-- The name is that of an account whose role is set and is admin.
pub record IsAdmin (name : String) (d : Dict Account) : Type 0 where
  pub account : Account
  pub found : Dict.get name d ≡ some account
  pub role : account.role ≡ some "admin"

module _ (H : Hashing) where
  administrators-IsAdmin :
      (name : String) (d : Dict Account)
      → NodupKeys d
      → contains (administrators H d) name ≡ true
      → IsAdmin name d
  unfolding administrators
  administrators-IsAdmin name d distinct h =
      let is_admin : Account → Bool = λ account. opt_eq account.role (some "admin") in
      elim (Option-cases (Dict.get name d)) [
        | inl e ↦ absurd (ground (arith, Dict.keys_where-absent is_admin name d e))
        | inr (account, e) ↦ elim (Bool-cases (is_admin account)) [
          | inl p ↦ record {
            account = account;
            found = e;
            role = opt_eq→≡ account.role (some "admin") p;
          }
          | inr p ↦ absurd (ground (arith, Dict.keys_where-ne is_admin name account d distinct e p))
        ]
      ]

  first-IsAdmin :
      (name : String) (entry : String × Account) (d : Dict Account) (user password : Option String)
      (salt : String)
      → reply (ensure_bootstrap_account H user password salt) (entry ∷ d) ≡ ok name
      → contains (administrators H (entry ∷ d)) name ≡ true
  unfolding ensure_bootstrap_account
  first-IsAdmin name entry d user password salt h = go (administrators H (entry ∷ d)) refl
    where
      go :
          (names : List String)
          → administrators H (entry ∷ d) ≡ names
          → contains (administrators H (entry ∷ d)) name ≡ true
      go [] e = absurd (ground arith)
      go (first ∷ rest) e = ground arith

  migrate-IsAdmin :
      (name username password salt : String)
      → reply (migrate H username password salt) [] ≡ ok name
      → IsAdmin name (after (migrate H username password salt) [])
  unfolding migrate add_user
  migrate-IsAdmin name username password salt h = record {
    account = new_account H "admin" password salt;
    found =
        ground
          (arith, Dict.get-insert name (H.strip username) (new_account H "admin" password salt) []);
    role = refl;
  }

  ensure-migrates :
      (user password : Option String) (salt name : String)
      → reply (ensure_bootstrap_account H user password salt) [] ≡ ok name
      → ensure_bootstrap_account H user password salt []
        ≡ migrate H (or_empty user) (or_empty password) salt []
  unfolding ensure_bootstrap_account
  ensure-migrates user password salt name h = ground arith

  -- The server starts only if it finds an administrator or makes one: the account that
  -- `ensure_bootstrap_account` returns is then an administrator's. The dict of accounts is assumed to
  -- list no name twice.
  pub ensure_bootstrap_account-IsAdmin :
      (user password : Option String) (salt name : String) (d : Dict Account)
      → NodupKeys d
      → reply (ensure_bootstrap_account H user password salt) d ≡ ok name
      → IsAdmin name (after (ensure_bootstrap_account H user password salt) d)
  unfolding ensure_bootstrap_account
  ensure_bootstrap_account-IsAdmin user password salt name (entry ∷ d) distinct h =
      administrators-IsAdmin name (entry ∷ d) distinct
        (first-IsAdmin name entry d user password salt h)
  ensure_bootstrap_account-IsAdmin user password salt name [] distinct h =
      let same = ensure-migrates user password salt name h in
      let made : reply (migrate H (or_empty user) (or_empty password) salt) [] ≡ ok name =
        sym (ap (λ (r : Result String × Dict Account). r.0) same) ∙ h in
      subst (λ (r : Result String × Dict Account). IsAdmin name r.1) (sym same)
        (migrate-IsAdmin name (or_empty user) (or_empty password) salt made)
