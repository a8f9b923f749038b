-- ===== src/Tokens.antt =====
-- modules/security_tokens.py: tokens for dangerous actions and for terminal sessions.
-- The two dicts of the module are the fields of `Stores`. Each reading of `time.time()` and each
-- random token is an argument. The clock counts microseconds.
pub mod Confirm
pub mod Terminal
mod Tests
use Prim.Native.Nat.{◌*◌}
use runvard.Base.{
  ℕ, ◌+◌, String, Bool, false, [], Option, none, some, not, ◌||◌, ltb, ◌==◌, if◌then◌else◌, Error,
  permission_error, ok, Action, pure, raise, raise_if, modify, ◌>>=◌, ◌>>◌,
}
use runvard.Base.Dict
use runvard.Base.Dict.{Dict}

abbrev pub second : ℕ
second = 1_000_000

abbrev pub confirm_ttl_seconds : ℕ
confirm_ttl_seconds = 300

abbrev pub terminal_ttl_seconds : ℕ
terminal_ttl_seconds = 120

pub record ConfirmMeta : Type 0 where
  pub user : String
  pub action : String
  pub target : String
  pub expires : ℕ

pub record TerminalMeta : Type 0 where
  pub user : String
  pub expires : ℕ

-- `_confirm_tokens` and `_terminal_tokens`
pub record Stores : Type 0 where
  pub confirm : Dict ConfirmMeta
  pub terminal : Dict TerminalMeta

pub record Issued : Type 0 where
  pub token : String
  pub expires_at : ℕ

abbrev pub missing_confirm : Error
missing_confirm = permission_error "Missing or invalid confirmation token"

abbrev pub confirm_mismatch : Error
confirm_mismatch = permission_error "Confirmation token does not match action"

abbrev pub missing_terminal : Error
missing_terminal = permission_error "Missing or invalid terminal token"

abbrev pub terminal_mismatch : Error
terminal_mismatch = permission_error "Terminal token does not match user"

-- `_prune`, for each of the two stores
abbrev pub prune_confirm : ℕ → Stores → Stores
prune_confirm now s = record s { confirm = Dict.prune (λ m. ltb m.expires now) s.confirm }

abbrev pub prune_terminal : ℕ → Stores → Stores
prune_terminal now s = record s { terminal = Dict.prune (λ m. ltb m.expires now) s.terminal }

-- `now` is read by `_prune`, `later` by the function itself.
unfoldable pub issue_confirm_token :
    (now later : ℕ) (token user action target : String) → Action Stores Issued
issue_confirm_token now later token user action target = do
  modify (prune_confirm now)
  let expires = later + confirm_ttl_seconds * second
  let meta : ConfirmMeta = record {
    user = user;
    action = action;
    target = target;
    expires = expires;
  }
  modify (λ s. record s { confirm = Dict.insert token meta s.confirm })
  pure (record { token = token; expires_at = expires })

-- `store.pop(token, None)`
pop_confirm : String → Action Stores (Option ConfirmMeta)
pop_confirm token s =
    (ok (Dict.get token s.confirm), record s { confirm = Dict.erase token s.confirm })

check_confirm : String → String → String → Option ConfirmMeta → Action Stores (Unit {0})
check_confirm user action target none = raise missing_confirm
check_confirm user action target (some meta) =
    raise_if (not (meta.user == user) || not (meta.action == action) || not (meta.target == target))
      confirm_mismatch

unfoldable pub require_confirm_token :
    (now : ℕ) (user action target token : String) → Action Stores (Unit {0})
unfolding pop_confirm check_confirm
require_confirm_token now user action target token = do
  modify (prune_confirm now)
  meta ← pop_confirm token
  check_confirm user action target meta

unfoldable pub issue_terminal_token : (now later : ℕ) (token user : String) → Action Stores Issued
issue_terminal_token now later token user = do
  modify (prune_terminal now)
  let expires = later + terminal_ttl_seconds * second
  let meta : TerminalMeta = record { user = user; expires = expires }
  modify (λ s. record s { terminal = Dict.insert token meta s.terminal })
  pure (record { token = token; expires_at = expires })

pop_terminal : String → Action Stores (Option TerminalMeta)
pop_terminal token s =
    (ok (Dict.get token s.terminal), record s { terminal = Dict.erase token s.terminal })

-- `user is not None and meta["user"] != user`
abbrev pub is_other : Option String → String → Bool
is_other none owner = false
is_other (some user) owner = not (owner == user)

check_terminal : Option String → Option TerminalMeta → Action Stores String
check_terminal user none = raise missing_terminal
check_terminal user (some meta) = do
  raise_if (is_other user meta.user) terminal_mismatch
  pure meta.user

unfoldable pub consume_terminal_token :
    (now : ℕ) (token : String) (user : Option String) → Action Stores String
unfolding pop_terminal check_terminal
consume_terminal_token now token user = do
  modify (prune_terminal now)
  meta ← pop_terminal token
  check_terminal user meta

unfoldable pub clear_terminal_tokens : Option String → Stores → Stores
clear_terminal_tokens none s = record s { terminal = [] }
clear_terminal_tokens (some user) s = record s {
  terminal = Dict.prune (λ m. m.user == user) s.terminal;
}
