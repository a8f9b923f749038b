-- ===== src/Server/Changes.antt =====
-- Who changes the accounts.
use runvard.Base.{
  ℕ, String, ◌≡◌, refl, ◌⊎◌, inl, inr, Option, none, some, Result-cases, err, Error, reply, after,
  Action, arith,
}
use runvard.Base.Dict.{Dict, NodupKeys}
use runvard.Accounts.{Reply}
use runvard.Server.Requests.{Request, require_admin}
use runvard.Server.Danger.{danger_confirm_meta}
use runvard.Server.App.{
  App, Library, confirm, confirm_token, confirmed_admin, require_danger_confirm, accounts_add,
  accounts_password, accounts_role, accounts_delete,
}
use runvard.Server.Guards.{IsByAdmin, IsConfirmed, confirmed_admin-IsConfirmed}

-- The routes that change accounts.
pub data AccountCall : Type 0 where
  add_account : (username password role salt : String) → AccountCall
  change_password : (username password salt : String) → AccountCall
  change_role : (username role : String) → AccountCall
  remove_account : (username : String) → AccountCall

module _ (L : Library) (request : Request) (form : Dict String) (now clock : ℕ) where
  unfoldable pub perform : AccountCall → Action App Reply
  perform (add_account username password role salt) =
      accounts_add L request form now clock username password role salt
  perform (change_password username password salt) =
      accounts_password L request form now clock username password salt
  perform (change_role username role) = accounts_role L request form now clock username role
  perform (remove_account username) = accounts_delete L request form now clock username

  -- A user that may change the accounts.
  pub record IsAllowed (m : App) : Type 0 where
    pub user : String
    pub admin : IsByAdmin L.coding request now user
    pub confirmed :
        IsConfirmed clock user
          (confirm_token L form)
          (danger_confirm_meta request.path form)
          m.tokens

  confirm-accounts :
      (user token : String) (meta : Option (String × String)) (m : App)
      → (after (confirm L clock user token meta) m).accounts ≡ m.accounts
  unfolding confirm require_danger_confirm
  confirm-accounts user token none m = refl
  confirm-accounts user token (some (action, target)) m = refl

  confirmed_admin-accounts :
      (m : App) → (after (confirmed_admin L request form now clock) m).accounts ≡ m.accounts
  unfolding confirmed_admin
  confirmed_admin-accounts m = elim (Result-cases (require_admin L.coding request now)) [
    | inl (e, refused) ↦ ground arith
    | inr (user, passed) ↦ ground (
      arith,
      confirm-accounts user (confirm_token L form) (danger_confirm_meta request.path form) m,
    )
  ]

  refused_unchanged :
      (call : AccountCall) (m : App) (e : Error)
      → reply (confirmed_admin L request form now clock) m ≡ err e
      → (after (perform call) m).accounts ≡ m.accounts
  unfolding perform accounts_add accounts_password accounts_role accounts_delete
  refused_unchanged (add_account username password role salt) m e h =
      ground (arith, confirmed_admin-accounts m)
  refused_unchanged (change_password username password salt) m e h =
      ground (arith, confirmed_admin-accounts m)
  refused_unchanged (change_role username role) m e h = ground (arith, confirmed_admin-accounts m)
  refused_unchanged (remove_account username) m e h = ground (arith, confirmed_admin-accounts m)

  -- A request to a route for accounts leaves the accounts as they are, unless an administrator's session
  -- made it and it shows the confirmation that its path and form call for. The store of confirmations is
  -- assumed to list no token twice.
  pub perform-IsAllowed :
      (call : AccountCall) (m : App)
      → NodupKeys m.tokens.confirm
      → ((after (perform call) m).accounts ≡ m.accounts) ⊎ IsAllowed m
  perform-IsAllowed call m distinct =
      elim (Result-cases (reply (confirmed_admin L request form now clock) m)) [
        | inl (e, refused) ↦ inl (refused_unchanged call m e refused)
        | inr (user, passed) ↦
            let (admin, confirmed) =
              confirmed_admin-IsConfirmed L request form now clock m distinct passed in
            inr (record { user = user; admin = admin; confirmed = confirmed })
      ]
