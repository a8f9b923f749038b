-- ===== src/Tokens/Terminal.antt =====
-- Terminal tokens: what a call replies on every branch, single use, and revocation.
use Prim.Native.Nat.{◌*◌}
use runvard.Base.{
  ℕ, ◌+◌, String, ◌≡◌, refl, Bool, true, Option, none, some, ltb, leb, ◌==◌, if◌then◌else◌, arith,
  Result, ok, err, reply, after,
}
use runvard.Base.Dict
use runvard.Base.Dict.{NodupKeys, survives}
use runvard.Tokens.{
  Stores, TerminalMeta, second, terminal_ttl_seconds, missing_terminal, terminal_mismatch, is_other,
  issue_terminal_token, consume_terminal_token, clear_terminal_tokens,
}

abbrev pub session_verdict : (now : ℕ) (user : Option String) → Option TerminalMeta → Result String
session_verdict now user none = err missing_terminal
session_verdict now user (some m) =
    if ltb m.expires now
    then err missing_terminal
    else if is_other user m.user
    then err terminal_mismatch
    else ok m.user

abbrev expired : ℕ → TerminalMeta → Bool
expired now m = ltb m.expires now

consume_terminal-verdict :
    (s : Stores) (now : ℕ) (token : String) (user : Option String)
    → NodupKeys s.terminal
    → reply (consume_terminal_token now token user) s
      ≡ session_verdict now user (Dict.get token s.terminal)
unfolding consume_terminal_token
consume_terminal-verdict s now token user n =
    ground (arith, Dict.get-prune (expired now) token s.terminal n)

after-consume_terminal :
    (s : Stores) (now : ℕ) (token : String) (user : Option String)
    → after (consume_terminal_token now token user) s
      ≡ record s { terminal = Dict.erase token (Dict.prune (expired now) s.terminal) }
unfolding consume_terminal_token
after-consume_terminal s now token user = ground arith

after-issue_terminal :
    (s : Stores) (now later : ℕ) (token user : String)
    → after (issue_terminal_token now later token user) s ≡ record s {
      terminal =
          Dict.insert token
            (record { user = user; expires = later + terminal_ttl_seconds * second })
            (Dict.prune (expired now) s.terminal);
    }
unfolding issue_terminal_token
after-issue_terminal s now later token user = refl

consume_terminal-NodupKeys :
    (s : Stores) (now : ℕ) (token : String) (user : Option String)
    → NodupKeys s.terminal
    → NodupKeys (after (consume_terminal_token now token user) s).terminal
consume_terminal-NodupKeys s now token user n =
    rw after-consume_terminal
      (Dict.erase-NodupKeys token _ (Dict.prune-NodupKeys (expired now) s.terminal n))

issue_terminal-NodupKeys :
    (s : Stores) (now later : ℕ) (token user : String)
    → NodupKeys s.terminal
    → NodupKeys (after (issue_terminal_token now later token user) s).terminal
issue_terminal-NodupKeys s now later token user n =
    rw after-issue_terminal
      (Dict.insert-NodupKeys token _ _ (Dict.prune-NodupKeys (expired now) s.terminal n))

-- A terminal token that was just issued opens one session: it gives its user up to and including
-- 120 seconds after its issue, a caller that names another user is refused, and after the first
-- request with it, whatever that replied, it is missing. The store is assumed to list no token
-- twice.
pub terminal_session_once :
    (s : Stores) (now later t t' : ℕ) (token user : String) (expect expect' : Option String)
    → NodupKeys s.terminal
    → (let issued = after (issue_terminal_token now later token user) s in
        (reply (consume_terminal_token t token expect) issued ≡ (
          if leb t (later + 120_000_000)
          then (if is_other expect user then err terminal_mismatch else ok user)
          else err missing_terminal))
        × (reply
              (consume_terminal_token t' token expect')
              (after (consume_terminal_token t token expect) issued)
            ≡ err missing_terminal))
terminal_session_once s now later t t' token user expect expect' n =
    let issued = after (issue_terminal_token now later token user) s in
    let used = after (consume_terminal_token t token expect) issued in
    let n' = issue_terminal-NodupKeys s now later token user n in
    (
      rw (consume_terminal-verdict issued t token expect n', after-issue_terminal, Dict.get-insert)
          (ground arith),
      rw
          (
            consume_terminal-verdict used t' token expect'
                (consume_terminal-NodupKeys issued t token expect n'),
            after-consume_terminal,
            Dict.get-erase,
          )
          (ground arith),
    )

abbrev pub belongs_to : Option String → TerminalMeta → Bool
belongs_to none m = true
belongs_to (some user) m = m.user == user

-- Logging a user out revokes that user's terminal tokens and no others; without a user every token
-- is revoked. The store is assumed to list no token twice.
pub get-clear_terminal :
    (s : Stores) (user : Option String) (token : String)
    → NodupKeys s.terminal
    → Dict.get token (clear_terminal_tokens user s).terminal
      ≡ survives (belongs_to user) (Dict.get token s.terminal)
unfolding clear_terminal_tokens
get-clear_terminal s none token n = ground (arith, Dict.get-nil {V = TerminalMeta} token)
get-clear_terminal s (some user) token n =
    Dict.get-prune (belongs_to (some user)) token s.terminal n
