-- ===== src/Accounts/Tests.antt =====
-- The theorems on accounts at concrete data. The toy hash puts the salt before the password.
use runvard.Base.{◌<>◌, ◌≡◌, refl, none, some, [], ◌∷◌, after, string_dec}
use runvard.Base.Dict
use runvard.Base.Dict.{Dict, NodupKeys}
use runvard.Accounts.{Account, Hashing, administrators, ensure_bootstrap_account, list_users}
use runvard.Accounts.Bootstrap.{IsAdmin, ensure_bootstrap_account-IsAdmin}

abbrev hashing : Hashing
hashing = record { strip = λ text. text; pbkdf2 = λ password salt. salt <> password }

abbrev eve : Account
eve = record { role = some "readonly"; salt = some "s1"; hash = some "s1secret" }

abbrev root : Account
root = record { role = some "admin"; salt = some "s2"; hash = some "s2toor" }

abbrev accounts : Dict Account
accounts = ("eve", eve) ∷ ("root", root) ∷ []

accounts_distinct : NodupKeys accounts
unfolding Dict.get string_dec
accounts_distinct = (refl, (refl, tt))

ensure_bootstrap_account-IsAdmin_example :
    IsAdmin "root" (after (ensure_bootstrap_account hashing none none "s5") accounts)
unfolding ensure_bootstrap_account administrators Dict.keys_where string_dec
ensure_bootstrap_account-IsAdmin_example =
    ensure_bootstrap_account-IsAdmin hashing none none "s5" "root" accounts accounts_distinct refl

-- The rows come in the order of the names.
listed :
    list_users (("root", root) ∷ ("eve", eve) ∷ []) ≡ ("eve", "readonly") ∷ ("root", "admin") ∷ []
unfolding list_users
listed = refl
