-- ===== src/External/Sound.antt =====
-- A registry in order, and the operations that keep it so: all but `update`.
use runvard.Base.{
  ◌≤◌, String, ◌≡◌, refl, Bool, true, false, Option, none, some, arith, length, leb, ap, Result,
  Action, ◌>>◌, continue, subst, sym, ◌∙◌, Leaves-continue, ok, err, after, lift, ◌>>=◌, Leaves-if,
  value_error, Option-cases, inl, inr,
}
use runvard.Base.Dict
use runvard.External.Config.{
  Kind, Library, Flag, RawConfig, Config, Credentials, is_complete, kept_credentials,
  credentials_of, clean_config, clean_credentials, to_bool, is_generic,
}
use runvard.External.Registry.{
  Manager, Status, Snapshot, new_status, set_server, set_status, set_secret, Files, save,
  save_and_answer, put_secret, drop_secret, add, create, delete, set_enabled, poll_finish,
}

module _ (L : Library) where
  -- A server that is known has a status, and the credentials that its kind needs; one that is not
  -- has neither.
  abbrev pub agrees : Option Config → Option Status → Option Credentials → Bool
  agrees none none none = true
  agrees none none (some secret) = false
  agrees none (some status) secret = false
  agrees (some config) none secret = false
  agrees (some config) (some status) secret = is_complete L config.kind (credentials_of L secret)

  pub record IsSound (m : Manager) : Type 0 where
    pub at_id :
        (id : String)
        → agrees (Dict.get id m.servers) (Dict.get id m.statuses) (Dict.get id m.secrets) ≡ true
    pub bounded : length m.servers ≤ 20

  pub saved-IsSound :
      (written : Result (Unit {0})) (m : Manager) → IsSound m → IsSound (after (save written) m)
  saved-IsSound (ok done) m h = record { at_id = h.at_id; bounded = h.bounded }
  saved-IsSound (err e) m h = h

  pub answered-IsSound :
      (written : Result (Unit {0})) (config : Config) (m : Manager)
      → IsSound m
      → IsSound (after (save_and_answer written config) m)
  answered-IsSound (ok done) config m h = record { at_id = h.at_id; bounded = h.bounded }
  answered-IsSound (err e) config m h = h

  -- A step that succeeds, and then the end of an operation.
  pub ended-IsSound :
      {A : Type 0} (f : Action Manager (Unit {0})) (last : Action Manager A) (m m' : Manager)
      → f m ≡ (ok tt, m')
      → IsSound (after last m')
      → IsSound (after (f >> last) m)
  ended-IsSound f last m m' e h = subst (λ x. IsSound (continue x.0 (λ _. last) x.1).1) (sym e) h

  pub delete-IsSound :
      (id : String) (files : Files) (m : Manager)
      → files.secrets ≡ ok tt
      → IsSound m
      → IsSound (after (delete id files) m)
  unfolding delete
  delete-IsSound id files m stored h = elim (Option-cases (Dict.get id m.servers)) [
    | inl e ↦ record { at_id = λ k. ground (arith, h.at_id k); bounded = ground (arith, h.bounded) }
    | inr (config, e) ↦
        let popped : Manager = record m {
          state = record { servers = Dict.erase id m.servers; statuses = Dict.erase id m.statuses };
        } in
        let dropped : Manager = record popped { secrets = Dict.erase id m.secrets } in
        rw (e, after)
          (ended-IsSound (drop_secret files.secrets id) (save files.state) popped dropped
            (ap (λ r. drop_secret r id popped) stored)
            (saved-IsSound files.state dropped (record {
              at_id = λ k. ground (
                arith,
                h.at_id k,
                Dict.get-erase k id m.servers,
                Dict.get-erase k id m.statuses,
                Dict.get-erase k id m.secrets,
              );
              bounded = ground (arith, h.bounded, Dict.length-erase-le id m.servers);
            })))
  ]

  pub set_enabled-IsSound :
      (id : String) (enabled : Flag) (written : Result (Unit {0})) (m : Manager)
      → IsSound m
      → IsSound (after (set_enabled L id enabled written) m)
  unfolding set_enabled
  set_enabled-IsSound id enabled written m h = elim (Option-cases (Dict.get id m.servers)) [
    | inl e ↦ record { at_id = λ k. ground (arith, h.at_id k); bounded = ground (arith, h.bounded) }
    | inr (config, e) ↦
        let changed = record config { enabled = to_bool L enabled true } in
        rw (e, after)
          (answered-IsSound written changed (set_server id changed m) (record {
            at_id =
                λ k. ground (arith, h.at_id k, h.at_id id, Dict.get-insert k id changed m.servers);
            bounded =
                ground (arith, h.bounded, Dict.length-insert-known id changed config m.servers);
          }))
  ]

  pub poll_finish-IsSound :
      (id : String) (updated : Status) (written : Result (Unit {0})) (m : Manager)
      → IsSound m
      → IsSound (poll_finish id updated written m)
  unfolding poll_finish
  poll_finish-IsSound id updated written m h = elim (Option-cases (Dict.get id m.servers)) [
    | inl e ↦ record { at_id = λ k. ground (arith, h.at_id k); bounded = ground (arith, h.bounded) }
    | inr (config, e) ↦
        rw (e, after)
          (saved-IsSound written (set_status id updated m) (record {
            at_id =
                λ k. ground (arith, h.at_id k, h.at_id id, Dict.get-insert k id updated m.statuses);
            bounded = ground (arith, h.bounded);
          }))
  ]

  -- Credentials that are kept are complete; where none are kept though they are required, the server
  -- is generic.
  pub clean_credentials-some :
      (kind : Kind) (credentials : Option Credentials) (c : Credentials) (required : Bool)
      → clean_credentials L kind credentials required ≡ ok (some c)
      → is_complete L kind c ≡ true
  unfolding clean_credentials
  clean_credentials-some kind credentials c required h = ground arith

  clean_credentials-none :
      (kind : Kind) (credentials : Option Credentials)
      → clean_credentials L kind credentials true ≡ ok none
      → is_generic kind ≡ true
  unfolding clean_credentials
  clean_credentials-none kind credentials h = ground arith

  clean_credentials-required :
      (kind : Kind) (credentials secret : Option Credentials)
      → clean_credentials L kind credentials true ≡ ok secret
      → is_complete L kind (kept_credentials L kind (credentials_of L credentials)) ≡ true
  unfolding clean_credentials
  clean_credentials-required kind credentials secret h = ground arith

  pub generic_complete :
      (kind : Kind) (c : Credentials) → is_generic kind ≡ true → is_complete L kind c ≡ true
  unfolding is_complete
  generic_complete Kind.generic c h = refl
  generic_complete Kind.proxmox c h = absurd (ground arith)
  generic_complete Kind.linux c h = absurd (ground arith)
  generic_complete Kind.windows c h = absurd (ground arith)

  -- A new server with the credentials that it is to have.
  added-IsSound :
      (config : Config) (secret : Option Credentials) (id : String) (blank : Snapshot) (m : Manager)
      → IsSound m
      → leb 20 (length m.servers) ≡ false
      → ((c : Credentials) → secret ≡ some c → is_complete L config.kind c ≡ true)
      → (secret ≡ none → is_generic config.kind ≡ true)
      → IsSound (set_secret id secret (set_status id (new_status blank) (set_server id config m)))
  added-IsSound config (some c) id blank m h room complete generic = record {
    at_id = λ k. ground (
      arith,
      h.at_id k,
      Dict.get-insert k id config m.servers,
      Dict.get-insert k id (new_status blank) m.statuses,
      Dict.get-insert k id c m.secrets,
      complete c,
    );
    bounded = ground (arith, room, Dict.length-insert-le id config m.servers);
  }
  added-IsSound config none id blank m h room complete generic = record {
    at_id = λ k. ground (
      arith,
      h.at_id k,
      Dict.get-insert k id config m.servers,
      Dict.get-insert k id (new_status blank) m.statuses,
      generic,
      generic_complete config.kind (credentials_of L (Dict.get k m.secrets)),
    );
    bounded = ground (arith, room, Dict.length-insert-le id config m.servers);
  }

  put_secret-ok :
      (written : Result (Unit {0})) (id : String) (secret : Option Credentials) (m : Manager)
      → written ≡ ok tt
      → put_secret written id secret m ≡ (ok tt, set_secret id secret m)
  put_secret-ok written id none m e = refl
  put_secret-ok written id (some secret) m e = ap (λ r. put_secret r id (some secret) m) e

  add-IsSound :
      (config : Config) (secret : Option Credentials) (id : String) (blank : Snapshot)
      (files : Files) (m : Manager)
      → IsSound m
      → files.secrets ≡ ok tt
      → ((c : Credentials) → secret ≡ some c → is_complete L config.kind c ≡ true)
      → (secret ≡ none → is_generic config.kind ≡ true)
      → IsSound (after (add config secret id blank files) m)
  unfolding add
  add-IsSound config secret id blank files m h stored complete generic =
      let listed = set_status id (new_status blank) (set_server id config m) in
      let last = save_and_answer files.state config in
      (Leaves-if {P = IsSound} (leb 20 (length m.servers))
        (err (value_error "external server limit reached"), m)
        ((put_secret files.secrets id secret >> last) listed) (λ full. record { left = h })
        (λ room. record {
          left =
              ended-IsSound (put_secret files.secrets id secret) last listed
                (set_secret id secret listed) (put_secret-ok files.secrets id secret listed stored)
                (answered-IsSound files.state config (set_secret id secret listed)
                  (added-IsSound config secret id blank m h room complete generic));
        })).left

  pub create-IsSound :
      (source : RawConfig) (credentials : Option Credentials) (id : String) (blank : Snapshot)
      (files : Files) (m : Manager)
      → files.secrets ≡ ok tt
      → IsSound m
      → IsSound (after (create L source credentials id blank files) m)
  unfolding create
  create-IsSound source credentials id blank files m stored h =
      (Leaves-continue {P = IsSound} (clean_config L source)
        (λ config. do
          secret ← lift (clean_credentials L config.kind credentials true)
          add config secret id blank files)
        m h
        λ config _.
          Leaves-continue {P = IsSound} (clean_credentials L config.kind credentials true)
            (λ secret. add config secret id blank files) m h
            λ secret e. record {
              left =
                  add-IsSound config secret id blank files m h stored
                    (λ c p. clean_credentials-some config.kind credentials c true (e ∙ ap ok p))
                    (λ p. clean_credentials-none config.kind credentials (e ∙ ap ok p));
            }).left
