-- ===== src/Accounts/Passwords.antt =====
-- Which password opens an account, and that an operation touches one account only.
use runvard.Base.{
  String, ◌≡◌, false, Option, none, some, arith, ◌==◌, is_blank, or_empty, contains, if◌then◌else◌,
}
use runvard.Base.Dict
use runvard.Base.Dict.{Dict}
use runvard.Accounts.{
  Account, Hashing, Reply, roles, role_of, new_account, add_user, set_password, verify,
}

module _ (H : Hashing) (d : Dict Account) where
  -- An account that was added opens with the passwords of the same hash under its salt, and with no
  -- other. It has the role that was asked for, or is read-only where that role is not known. An
  -- account of the same name is replaced, and every other account is as before. The name is what
  -- `strip` leaves of the given one.
  pub verify-add_user :
      (username password : Option String) (role salt : String) (other attempt : String)
      → (add_user H username password role salt d).0 ≡ Reply.done
      → verify H other attempt (add_user H username password role salt d).1 ≡ (
          if H.strip (or_empty username) == other
          then (if H.pbkdf2 attempt salt == H.pbkdf2 (or_empty password) salt
              then some (if contains roles role then role else "readonly")
              else none)
          else verify H other attempt d)
  unfolding add_user verify
  verify-add_user username password role salt other attempt h =
      let name = H.strip (or_empty username) in
      let known = if contains roles role then role else "readonly" in
      ground (arith, Dict.get-insert other name (new_account H known (or_empty password) salt) d)

  -- After a change of password an account opens with the passwords of the new one's hash, and with no
  -- other; its role is as before, and so is every other account.
  pub verify-set_password :
      (username : String) (password : Option String) (salt other attempt : String)
      (account : Account)
      → Dict.get username d ≡ some account
      → is_blank password ≡ false
      → verify H other attempt (set_password H username password salt d).1 ≡ (
          if username == other
          then (if H.pbkdf2 attempt salt == H.pbkdf2 (or_empty password) salt
              then some (role_of account)
              else none)
          else verify H other attempt d)
  unfolding set_password verify
  verify-set_password username password salt other attempt account e nonempty = ground (
    arith,
    Dict.get-insert other username
        (record account { salt = some salt; hash = some (H.pbkdf2 (or_empty password) salt) }) d,
  )
