-- ===== src/Server/Owners.antt =====
-- At most one terminal session for each user, whatever the order of the calls.
use runvard.Base.{
  ℕ, ◌+◌, ◌≤◌, String, ◌≡◌, refl, Bool, false, Option, none, some, List, [], ◌∷◌, ◌==◌, arith, ==→≡,
  subst, sym, opt_eq, count_if, if◌then◌else◌, after, Bool-cases, inl, inr,
}
use runvard.Base.Dict
use runvard.Base.Dict.{Dict, values}
use runvard.Server.Terminals.{
  Sessions, any_owner, register_session, unregister_session, active_session_count,
  kill_user_sessions, kill_all_sessions,
}

module _ {V : Type 0} (p : V → Bool) where
  count-insert-le :
      (k : String) (v : V) (d : Dict V)
      → count_if p (values (Dict.insert k v d)) ≤ count_if p (values d) + (if p v then 1 else 0)
  unfolding Dict.insert
  count-insert-le k v [] = ground arith
  count-insert-le k v ((j, w) ∷ d) = ground (arith, count-insert-le k v d)

  count-erase-le :
      (k : String) (d : Dict V) → count_if p (values (Dict.erase k d)) ≤ count_if p (values d)
  unfolding Dict.erase
  count-erase-le k [] = omega arith
  count-erase-le k ((j, w) ∷ d) = ground (arith, count-erase-le k d)

  count-pop_all-le :
      (ks : List String) (d : Dict V)
      → count_if p (values (Dict.pop_all ks d)) ≤ count_if p (values d)
  unfolding Dict.pop_all
  count-pop_all-le [] d = omega arith
  count-pop_all-le (k ∷ ks) d =
      omega (arith, count-pop_all-le ks (Dict.erase k d), count-erase-le k d)

-- The sessions of an owner, by their number.
abbrev owned : String → List (Option String) → ℕ
owned owner = count_if (λ current. opt_eq current (some owner))

owned-free :
    (owner : String) (owners : List (Option String))
    → any_owner (some owner) owners ≡ false
    → owned owner owners ≡ 0
owned-free owner [] h = refl
owned-free owner (current ∷ owners) h = ground (arith, owned-free owner owners)

-- What changes the registry.
pub data TerminalCall : Type 0 where
  register : (session_id : String) → (owner : Option String) → TerminalCall
  unregister : (session_id : String) → TerminalCall
  kill_user : (owner : Option String) → TerminalCall
  kill_all : TerminalCall

unfoldable pub perform : TerminalCall → Sessions → Sessions
perform (register session_id owner) d = after (register_session session_id owner) d
perform (unregister session_id) d = unregister_session session_id d
perform (kill_user owner) d = kill_user_sessions owner d
perform kill_all d = kill_all_sessions d

unfoldable pub perform_all : List TerminalCall → Sessions → Sessions
perform_all [] d = d
perform_all (call ∷ calls) d = perform_all calls (perform call d)

owned-register-own :
    (owner : String) (session_id : String) (d : Sessions)
    → (owner == "") ≡ false
    → owned owner (values d) ≤ 1
    → owned owner (values (after (register_session session_id (some owner)) d)) ≤ 1
unfolding register_session
owned-register-own owner session_id d filled le =
    elim (Bool-cases (any_owner (some owner) (values d))) [
      | inl e ↦ ground arith
      | inr e ↦ ground (
        arith,
        owned-free owner (values d) e,
        count-insert-le (λ current. opt_eq current (some owner)) session_id (some owner) d,
      )
    ]

owned-register-le :
    (owner : String) (session_id : String) (who : Option String) (d : Sessions)
    → (owner == "") ≡ false
    → owned owner (values d) ≤ 1
    → owned owner (values (after (register_session session_id who) d)) ≤ 1
unfolding register_session
owned-register-le owner session_id none d filled le =
    ground (arith, count-insert-le (λ current. opt_eq current (some owner)) session_id none d)
owned-register-le owner session_id (some name) d filled le = elim (Bool-cases (name == owner)) [
  | inl e ↦
      subst (λ n. owned owner (values (after (register_session session_id (some n)) d)) ≤ 1)
        (sym (==→≡ name owner e)) (owned-register-own owner session_id d filled le)
  | inr e ↦
      ground
        (arith, count-insert-le (λ current. opt_eq current (some owner)) session_id (some name) d)
]

owned-perform-le :
    (owner : String) (call : TerminalCall) (d : Sessions)
    → (owner == "") ≡ false
    → owned owner (values d) ≤ 1
    → owned owner (values (perform call d)) ≤ 1
unfolding perform unregister_session kill_user_sessions kill_all_sessions Dict.prune
owned-perform-le owner (register session_id who) d filled le =
    owned-register-le owner session_id who d filled le
owned-perform-le owner (unregister session_id) d filled le =
    omega (arith, count-erase-le (λ current. opt_eq current (some owner)) session_id d)
owned-perform-le owner (kill_user who) d filled le = omega (
  arith,
  count-pop_all-le (λ current. opt_eq current (some owner))
      (Dict.keys_where (λ current. opt_eq current who) d) d,
)
owned-perform-le owner kill_all d filled le = omega arith

owned-perform_all-le :
    (owner : String) (calls : List TerminalCall) (d : Sessions)
    → (owner == "") ≡ false
    → owned owner (values d) ≤ 1
    → owned owner (values (perform_all calls d)) ≤ 1
unfolding perform_all
owned-perform_all-le owner [] d filled le = le
owned-perform_all-le owner (call ∷ calls) d filled le =
    owned-perform_all-le owner calls (perform call d) filled
      (owned-perform-le owner call d filled le)

-- Whatever calls are made, and in whatever order, no user that has a name owns two terminal sessions
-- at a time.
pub active_session_count-bounded :
    (owner : String) (calls : List TerminalCall)
    → (owner == "") ≡ false
    → active_session_count (some owner) (perform_all calls []) ≤ 1
unfolding active_session_count
active_session_count-bounded owner calls filled =
    owned-perform_all-le owner calls [] filled (omega arith)
