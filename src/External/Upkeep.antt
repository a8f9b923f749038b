-- ===== src/External/Upkeep.antt =====
-- What holds of the registry whatever operations are performed.
use runvard.Base.{
  String, ◌≡◌, refl, true, false, Option, none, some, List, [], ◌∷◌, arith, ap, ◌∙◌,
  Leaves-continue, ok, after, subst, continue, Result, Action, ◌>>◌, All, if◌then◌else◌,
}
use runvard.Base.Dict
use runvard.External.Config.{
  Kind, Library, RawConfig, Config, Credentials, is_complete, kept_credentials, credentials_of,
  clean_config, clean_credentials, is_generic,
}
use runvard.External.Sound.{
  IsSound, clean_credentials-some, generic_complete, ended-IsSound, answered-IsSound,
  create-IsSound, delete-IsSound, set_enabled-IsSound, poll_finish-IsSound,
}
use runvard.External.Registry.{
  Manager, Files, set_server, set_secret, put_secret, drop_secret, save_and_answer, store_secret,
  choose_secret, replace, update, update_known,
}
use runvard.External.Calls.{Call, perform, perform_all}

-- What `store_secret` does where it can write.
abbrev secret_stored : String → Kind → Option Credentials → Manager → Manager
secret_stored id kind (some secret) m = set_secret id (some secret) m
secret_stored id kind none m =
    if is_generic kind then record m { secrets = Dict.erase id m.secrets } else m

store_secret-ok :
    (written : Result (Unit {0})) (id : String) (kind : Kind) (secret : Option Credentials)
    (m : Manager)
    → written ≡ ok tt
    → store_secret written id kind secret m ≡ (ok tt, secret_stored id kind secret m)
store_secret-ok written id kind (some secret) m e = ap (λ r. put_secret r id (some secret) m) e
store_secret-ok written id Kind.generic none m e = ap (λ r. drop_secret r id m) e
store_secret-ok written id Kind.proxmox none m e = refl
store_secret-ok written id Kind.linux none m e = refl
store_secret-ok written id Kind.windows none m e = refl

module _ (L : Library) where
  -- A known server with its new configuration and the credentials that are left.
  replaced-IsSound :
      (config previous : Config) (replacement : Option Credentials) (id : String) (m : Manager)
      → IsSound L m
      → Dict.get id m.servers ≡ some previous
      → ((c : Credentials) → replacement ≡ some c → is_complete L config.kind c ≡ true)
      → (replacement ≡ none
          → is_generic config.kind ≡ false
          → is_complete L config.kind (credentials_of L (Dict.get id m.secrets)) ≡ true)
      → IsSound L (secret_stored id config.kind replacement (set_server id config m))
  replaced-IsSound config previous (some c) id m h known complete kept = record {
    at_id = λ k. ground (
      arith,
      h.at_id k,
      h.at_id id,
      Dict.get-insert k id config m.servers,
      Dict.get-insert k id c m.secrets,
      complete c,
    );
    bounded = ground (arith, h.bounded, Dict.length-insert-known id config previous m.servers);
  }
  replaced-IsSound config previous none id m h known complete kept = record {
    at_id = λ k. ground (
      arith,
      h.at_id k,
      h.at_id id,
      Dict.get-insert k id config m.servers,
      Dict.get-erase k id m.secrets,
      kept,
      generic_complete L config.kind (credentials_of L none),
    );
    bounded = ground (arith, h.bounded, Dict.length-insert-known id config previous m.servers);
  }

  -- If no credentials came for the same kind, the old ones stay; for another kind there are none, and
  -- none are too few.
  kept_complete :
      (kind previous : Kind) (existing secret : Option Credentials)
      → L.strip "" ≡ ""
      → is_complete L previous (credentials_of L existing) ≡ true
      → clean_credentials L kind (choose_secret kind previous none existing) true ≡ ok secret
      → is_generic kind ≡ false
      → is_complete L kind (credentials_of L existing) ≡ true
  unfolding clean_credentials is_complete kept_credentials
  kept_complete Kind.generic previous existing secret blank old h ng = absurd (ground arith)
  kept_complete Kind.linux Kind.generic existing secret blank old h ng =
      absurd (ground (arith, blank))
  kept_complete Kind.linux Kind.linux existing secret blank old h ng = old
  kept_complete Kind.linux Kind.proxmox existing secret blank old h ng =
      absurd (ground (arith, blank))
  kept_complete Kind.linux Kind.windows existing secret blank old h ng =
      absurd (ground (arith, blank))
  kept_complete Kind.proxmox Kind.generic existing secret blank old h ng =
      absurd (ground (arith, blank))
  kept_complete Kind.proxmox Kind.linux existing secret blank old h ng =
      absurd (ground (arith, blank))
  kept_complete Kind.proxmox Kind.proxmox existing secret blank old h ng = old
  kept_complete Kind.proxmox Kind.windows existing secret blank old h ng =
      absurd (ground (arith, blank))
  kept_complete Kind.windows Kind.generic existing secret blank old h ng =
      absurd (ground (arith, blank))
  kept_complete Kind.windows Kind.linux existing secret blank old h ng =
      absurd (ground (arith, blank))
  kept_complete Kind.windows Kind.proxmox existing secret blank old h ng =
      absurd (ground (arith, blank))
  kept_complete Kind.windows Kind.windows existing secret blank old h ng = old

  -- The part of `replace` after the checks of the credentials.
  stored-IsSound :
      (id : String) (config previous : Config) (credentials replacement secret : Option Credentials)
      (files : Files) (m : Manager)
      → files.secrets ≡ ok tt
      → L.strip "" ≡ ""
      → IsSound L m
      → Dict.get id m.servers ≡ some previous
      → clean_credentials L config.kind credentials false ≡ ok replacement
      → clean_credentials L config.kind
          (choose_secret config.kind previous.kind replacement (Dict.get id m.secrets))
          true
        ≡ ok secret
      → IsSound L (
          after
            (store_secret files.secrets id config.kind replacement
              >> save_and_answer files.state config)
            (set_server id config m))
  stored-IsSound id config previous credentials replacement secret files m stored blank h e p q =
      let existing = Dict.get id m.secrets in
      let old : is_complete L previous.kind (credentials_of L existing) ≡ true =
        ground (arith, h.at_id id) in
      let listed = set_server id config m in
      let changed = secret_stored id config.kind replacement listed in
      ended-IsSound L (store_secret files.secrets id config.kind replacement)
        (save_and_answer files.state config) listed changed
        (store_secret-ok files.secrets id config.kind replacement listed stored)
        (answered-IsSound L files.state config changed (
          replaced-IsSound config previous replacement id m h e
            (λ c r. clean_credentials-some L config.kind credentials c false (p ∙ ap ok r))
            (λ r ng.
              kept_complete config.kind previous.kind existing secret blank old
                (subst
                  (λ o.
                    clean_credentials L config.kind
                      (choose_secret config.kind previous.kind o existing) true
                    ≡ ok secret)
                  r q)
                ng)))

  replace-IsSound :
      (id : String) (config : Config) (credentials : Option Credentials) (previous : Config)
      (files : Files) (m : Manager)
      → files.secrets ≡ ok tt
      → L.strip "" ≡ ""
      → IsSound L m
      → Dict.get id m.servers ≡ some previous
      → IsSound L (after (replace L id config credentials previous files) m)
  unfolding replace
  replace-IsSound id config credentials previous files m stored blank h e =
      let existing = Dict.get id m.secrets in
      (Leaves-continue {P = IsSound L} files.read
        (λ _ m.
          continue (clean_credentials L config.kind credentials false)
            (λ replacement. checked replacement (Dict.get id m.secrets)) m)
        m h
        λ _ _.
          Leaves-continue {P = IsSound L} (clean_credentials L config.kind credentials false)
            (λ replacement. checked replacement existing) m h
            λ replacement p.
              Leaves-continue {P = IsSound L}
                (clean_credentials L config.kind
                  (choose_secret config.kind previous.kind replacement existing) true)
                (λ secret m.
                  (store_secret files.secrets id config.kind replacement
                      >> save_and_answer files.state config)
                    (set_server id config m))
                m h
                λ secret q. record {
                  left =
                      stored-IsSound id config previous credentials replacement secret files m
                        stored blank h e p q;
                }).left
    where
      checked : Option Credentials → Option Credentials → Action Manager Config
      checked replacement existing m =
          continue
            (clean_credentials L config.kind
              (choose_secret config.kind previous.kind replacement existing) true)
            (λ secret m.
              (store_secret files.secrets id config.kind replacement
                  >> save_and_answer files.state config)
                (set_server id config m))
            m

  update_known-IsSound :
      (id : String) (config : Config) (credentials : Option Credentials) (known : Option Config)
      (files : Files) (m : Manager)
      → files.secrets ≡ ok tt
      → L.strip "" ≡ ""
      → IsSound L m
      → Dict.get id m.servers ≡ known
      → IsSound L (after (update_known L id config credentials known files) m)
  unfolding update_known
  update_known-IsSound id config credentials none files m stored blank h e = h
  update_known-IsSound id config credentials (some previous) files m stored blank h e =
      replace-IsSound id config credentials previous files m stored blank h e

  update-IsSound :
      (id : String) (source : RawConfig) (credentials : Option Credentials) (files : Files)
      (m : Manager)
      → files.secrets ≡ ok tt
      → L.strip "" ≡ ""
      → IsSound L m
      → IsSound L (after (update L id source credentials files) m)
  unfolding update
  update-IsSound id source credentials files m stored blank h =
      (Leaves-continue {P = IsSound L} (clean_config L source)
        (λ config m. update_known L id config credentials (Dict.get id m.servers) files m) m h
        λ config _. record {
          left =
              update_known-IsSound id config credentials (Dict.get id m.servers) files m stored
                blank h refl;
        }).left

  -- The stored credentials can be written where the call writes them.
  abbrev pub StoresSecrets : Call → Type 0
  StoresSecrets (Call.create source credentials id empty files) = files.secrets ≡ ok tt
  StoresSecrets (Call.update id source credentials files) = files.secrets ≡ ok tt
  StoresSecrets (Call.set_enabled id enabled written) = Unit
  StoresSecrets (Call.delete id files) = files.secrets ≡ ok tt
  StoresSecrets (Call.poll_finish id updated written) = Unit

  perform-IsSound :
      (c : Call) (m : Manager)
      → L.strip "" ≡ ""
      → StoresSecrets c
      → IsSound L m
      → IsSound L (perform L c m)
  unfolding perform
  perform-IsSound (Call.create source credentials id empty files) m blank stored h =
      create-IsSound L source credentials id empty files m stored h
  perform-IsSound (Call.update id source credentials files) m blank stored h =
      update-IsSound id source credentials files m stored blank h
  perform-IsSound (Call.set_enabled id enabled written) m blank stored h =
      set_enabled-IsSound L id enabled written m h
  perform-IsSound (Call.delete id files) m blank stored h = delete-IsSound L id files m stored h
  perform-IsSound (Call.poll_finish id updated written) m blank stored h =
      poll_finish-IsSound L id updated written m h

  -- Whatever servers are created, changed, switched, deleted and polled, with polls that end late, with
  -- calls that are refused, and whether the state file can be written or not, every known server has a
  -- status and complete credentials of its kind, no status or credentials are left of another, and there
  -- are at most 20 servers. Every call that writes credentials is assumed to be able to, `strip` to leave
  -- the empty text as it is, and the start to be such a registry.
  pub perform_all-IsSound :
      (cs : List Call) (m : Manager)
      → L.strip "" ≡ ""
      → All StoresSecrets cs
      → IsSound L m
      → IsSound L (perform_all L cs m)
  unfolding perform_all
  perform_all-IsSound [] m blank stored h = h
  perform_all-IsSound (c ∷ cs) m blank (first, rest) h =
      perform_all-IsSound cs (perform L c m) blank rest (perform-IsSound c m blank first h)
