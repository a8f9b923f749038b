-- ===== src/Tokens/Tests.antt =====
-- Runs of the token stores, and the theorems at concrete data.
use runvard.Base.{
  String, ◌≡◌, ◌≢◌, refl, none, some, [], ◌∷◌, ok, err, reply, after, string_dec, ne_of_test,
}
use runvard.Base.Dict
use runvard.Base.Dict.{NodupKeys}
use runvard.Tokens.{
  Stores, ConfirmMeta, TerminalMeta, missing_confirm, missing_terminal, require_confirm_token,
  issue_terminal_token, consume_terminal_token,
}
use runvard.Tokens.Confirm.{confirm_single_use}
use runvard.Tokens.Terminal.{terminal_session_once}

abbrev format : ConfirmMeta
format = record { user = "root"; action = "storage:format"; target = "sdb"; expires = 900_000_000 }

abbrev shell : TerminalMeta
shell = record { user = "root"; expires = 900_000_000 }

abbrev stored : Stores
stored = record {
  confirm = ("t1", format) ∷ ("t2", record format { expires = 10 }) ∷ [];
  terminal = ("s1", shell) ∷ ("s2", record shell { user = "eve" }) ∷ [];
}

confirm_distinct : NodupKeys stored.confirm
unfolding Dict.get string_dec
confirm_distinct = (refl, (refl, tt))

terminal_distinct : NodupKeys stored.terminal
unfolding Dict.get string_dec
terminal_distinct = (refl, (refl, tt))

differ : ◌≢◌ {A = String} "t2" "t1"
unfolding string_dec
differ = ne_of_test "t2" "t1" refl

confirm_single_use_example :
    reply
      (require_confirm_token 8 "root" "storage:format" "sdb" "t1")
      (after (require_confirm_token 7 "root" "storage:format" "sdc" "t1") stored)
    ≡ err missing_confirm
confirm_single_use_example =
    confirm_single_use stored 7 8 "root" "storage:format" "sdc" "root" "storage:format" "sdb" "t1"
      confirm_distinct

terminal_session_once_example :
    (reply
        (consume_terminal_token 200 "s3" none)
        (after (issue_terminal_token 100 101 "s3" "root") stored)
      ≡ ok "root")
    × (reply (consume_terminal_token 201 "s3" (some "root")) (
          after
            (consume_terminal_token 200 "s3" none)
            (after (issue_terminal_token 100 101 "s3" "root") stored))
        ≡ err missing_terminal)
terminal_session_once_example =
    terminal_session_once stored 100 101 200 201 "s3" "root" none (some "root") terminal_distinct

-- A token at the last moment of its life, and one microsecond later.
boundary :
    (reply (require_confirm_token 900_000_000 "root" "storage:format" "sdb" "t1") stored ≡ ok tt)
    × (reply (require_confirm_token 900_000_001 "root" "storage:format" "sdb" "t1") stored
        ≡ err missing_confirm)
unfolding require_confirm_token Dict.prune Dict.pop_all Dict.keys_where Dict.erase Dict.get
    string_dec
boundary = (refl, refl)
