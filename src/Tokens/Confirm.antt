-- ===== src/Tokens/Confirm.antt =====
-- Confirmation tokens: what a call replies on every branch, and single use.
use Prim.Native.Nat.{◌*◌}
use runvard.Base.{
  ℕ, ◌+◌, String, ◌≡◌, refl, Bool, Option, none, some, ◌≢◌, ◌&&◌, ltb, leb, ◌==◌, if◌then◌else◌,
  arith, Result, ok, err, reply, after,
}
use runvard.Base.Dict
use runvard.Base.Dict.{NodupKeys, survives}
use runvard.Tokens.{
  Stores, ConfirmMeta, second, confirm_ttl_seconds, missing_confirm, confirm_mismatch,
  issue_confirm_token, require_confirm_token,
}

-- The reply to a request that shows a token with this entry.
abbrev pub verdict :
    (now : ℕ) (user action target : String) → Option ConfirmMeta → Result (Unit {0})
verdict now user action target none = err missing_confirm
verdict now user action target (some m) =
    if ltb m.expires now
    then err missing_confirm
    else if m.user == user && m.action == action && m.target == target
    then ok tt
    else err confirm_mismatch

-- A confirmation is accepted exactly if its token is stored, has not expired, and was issued for
-- the same user, action and target. A token that is unknown or has expired is missing, and one for
-- another user, action or target does not match. The store is assumed to list no token twice.
pub require_confirm-verdict :
    (s : Stores) (now : ℕ) (user action target token : String)
    → NodupKeys s.confirm
    → reply (require_confirm_token now user action target token) s
      ≡ verdict now user action target (Dict.get token s.confirm)
unfolding require_confirm_token
require_confirm-verdict s now user action target token n =
    ground (arith, Dict.get-prune (λ (m : ConfirmMeta). ltb m.expires now) token s.confirm n)

abbrev expired : ℕ → ConfirmMeta → Bool
expired now m = ltb m.expires now

-- A request leaves the pruned store without its token, whatever it replies.
after-require_confirm :
    (s : Stores) (now : ℕ) (user action target token : String)
    → after (require_confirm_token now user action target token) s
      ≡ record s { confirm = Dict.erase token (Dict.prune (expired now) s.confirm) }
unfolding require_confirm_token
after-require_confirm s now user action target token = ground arith

after-issue_confirm :
    (s : Stores) (now later : ℕ) (token user action target : String)
    → after (issue_confirm_token now later token user action target) s ≡ record s {
      confirm =
          Dict.insert token
            (record {
              user = user;
              action = action;
              target = target;
              expires = later + confirm_ttl_seconds * second;
            })
            (Dict.prune (expired now) s.confirm);
    }
unfolding issue_confirm_token
after-issue_confirm s now later token user action target = refl

pub require_confirm-NodupKeys :
    (s : Stores) (now : ℕ) (user action target token : String)
    → NodupKeys s.confirm
    → NodupKeys (after (require_confirm_token now user action target token) s).confirm
require_confirm-NodupKeys s now user action target token n =
    rw after-require_confirm
      (Dict.erase-NodupKeys token _ (Dict.prune-NodupKeys (expired now) s.confirm n))

pub issue_confirm-NodupKeys :
    (s : Stores) (now later : ℕ) (token user action target : String)
    → NodupKeys s.confirm
    → NodupKeys (after (issue_confirm_token now later token user action target) s).confirm
issue_confirm-NodupKeys s now later token user action target n =
    rw after-issue_confirm
      (Dict.insert-NodupKeys token _ _ (Dict.prune-NodupKeys (expired now) s.confirm n))

-- Whatever a first request with a token replied, a later request with the same token is refused as
-- missing, for every user, action and target and at every time. The store is assumed to list no
-- token twice.
pub confirm_single_use :
    (s : Stores) (t t' : ℕ) (user action target user' action' target' token : String)
    → NodupKeys s.confirm
    → reply
        (require_confirm_token t' user' action' target' token)
        (after (require_confirm_token t user action target token) s)
      ≡ err missing_confirm
confirm_single_use s t t' user action target user' action' target' token n =
    let used = after (require_confirm_token t user action target token) s in
    rw
      (
        require_confirm-verdict used t' user' action' target' token
            (require_confirm-NodupKeys s t user action target token n),
        after-require_confirm,
      )
      (ground (arith, Dict.get-erase token token (Dict.prune (expired t) s.confirm)))

-- A token that was just issued is accepted for exactly its user, action and target, up to and
-- including 300 seconds after its issue, and is missing from then on. A request for another user,
-- action or target within that time is refused as not matching. The store is assumed to list no
-- token twice.
pub require_confirm-issue :
    (s : Stores) (now later t : ℕ) (user action target user' action' target' token : String)
    → NodupKeys s.confirm
    → reply
        (require_confirm_token t user' action' target' token)
        (after (issue_confirm_token now later token user action target) s)
      ≡ (if leb t (later + 300_000_000)
          then (if user == user' && action == action' && target == target'
              then ok tt
              else err confirm_mismatch)
          else err missing_confirm)
require_confirm-issue s now later t user action target user' action' target' token n =
    let issued = after (issue_confirm_token now later token user action target) s in
    rw
      (
        require_confirm-verdict issued t user' action' target' token
            (issue_confirm-NodupKeys s now later token user action target n),
        after-issue_confirm,
        Dict.get-insert,
      )
      (ground arith)

-- A request with one token leaves the entry of every other token alone, unless it has expired. The
-- store is assumed to list no token twice.
pub require_confirm_ne :
    (s : Stores) (t : ℕ) (user action target token other : String)
    → NodupKeys s.confirm
    → token ≢ other
    → Dict.get other (after (require_confirm_token t user action target token) s).confirm
      ≡ survives (expired t) (Dict.get other s.confirm)
require_confirm_ne s t user action target token other n differ =
    rw (after-require_confirm, Dict.get-erase, Dict.get-prune (expired t) other s.confirm n)
      (ground arith)
