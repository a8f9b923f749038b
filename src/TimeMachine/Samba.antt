-- ===== src/TimeMachine/Samba.antt =====
-- The files that modules/time_machine.py writes for Samba and Avahi, and what it does when a daemon does
-- not take them. `str.strip`, `os.path.normpath` and the printing of numbers are parameters. The line in smb.conf that
-- includes the managed file is left out, and so is the parsing of the rendered XML.
use Prim.Native.Nat.{◌/◌, ◌%◌}
use runvard.Base.{
  ℕ, ◌+◌, ◌-◌, ◌<>◌, String, Bool, true, false, Option, none, some, List, [], ◌∷◌, ◌++◌, not, ◌&&◌,
  ◌||◌, ltb, eqb, ◌==◌, length, keep, codes, in_range, is_alnum, starts_with, if◌then◌else◌, Result,
  ok, err, Error, value_error, runtime_error, Action, pure, raise, raise_if, continue, ◌>>=◌, ◌>>◌,
}
use runvard.Validators.{at_most, is_slug_char}
use runvard.Accounts.{text_leb}
use runvard.TimeMachine.Records.{Target}
use runvard.TimeMachine.State.{is_id}

pub record System : Type 0 where
  pub strip : String → String
  pub normpath : String → String
  pub decimal : ℕ → String

abbrev pub gib : ℕ
gib = 1073741824

-- `_SHARE_RE`
abbrev is_share : List ℕ → Bool
is_share [] = false
is_share (c ∷ cs) = is_alnum c && at_most 79 is_slug_char cs

abbrev is_account_char : ℕ → Bool
is_account_char c = in_range b'a' b'z' c || in_range b'0' b'9' c || eqb c b'_' || eqb c b'-'

-- `[a-z0-9_-]{0,30}\$?$`, with `n` characters allowed
abbrev account_rest : ℕ → List ℕ → Bool
account_rest n [] = true
account_rest n (c ∷ []) = (ltb 0 n && is_account_char c) || eqb c b'$'
account_rest n (c ∷ d ∷ cs) =
    let rest = account_rest (n - 1) (d ∷ cs) in ltb 0 n && is_account_char c && rest

-- `_ACCOUNT_RE`
abbrev is_account : List ℕ → Bool
is_account [] = false
is_account (c ∷ cs) = (in_range b'a' b'z' c || eqb c b'_') && account_rest 30 cs

abbrev has_control : List ℕ → Bool
has_control [] = false
has_control (c ∷ cs) = ltb c 32 || has_control cs

abbrev has_line_end : List ℕ → Bool
has_line_end [] = false
has_line_end (c ∷ cs) = eqb c 10 || eqb c 13 || has_line_end cs

unfoldable pub validate_share : String → Result String
validate_share value =
    if is_share (codes value) then ok value else err (value_error "Invalid share name")

module _ (S : System) where
  unfoldable pub clean_text : (value label : String) → (maximum : ℕ) → Result String
  clean_text value label maximum =
      let text = S.strip value in
      if text == "" || ltb maximum (length (codes text)) || has_control (codes text)
      then err (value_error ("Invalid " <> label))
      else ok text

  unfoldable pub validate_account : String → Result String
  validate_account value = elim (clean_text value "account" 32) [
    | err e ↦ err e
    | ok account ↦
        if is_account (codes account) then ok account else err (value_error "Invalid account")
  ]

  -- A path is absolute if it starts with a slash.
  unfoldable pub validate_target_path : String → Result String
  validate_target_path value =
      let normalized = S.normpath value in
      if has_line_end (codes value) || not (starts_with value "/")
      then err (value_error "Invalid target path")
      else if normalized == "/" || normalized == "."
      then err (value_error "Invalid target path")
      else ok normalized

  unfoldable pub size_for_samba : ℕ → Result String
  size_for_samba value =
      if eqb value 0 || not (eqb (value % gib) 0)
      then err (value_error "Advertised Time Machine size must use whole GiB")
      else ok (S.decimal (value / gib) <> "G")

  abbrev pub checked_id : String → Result String
  checked_id target_id =
      if is_id target_id then ok target_id else err (value_error "Invalid target id")

  abbrev share_lines : (share owner path target_id size : String) → List String
  share_lines share owner path target_id size =
      ""
      ∷ ("[" <> (share <> "]"))
      ∷ ("   comment = runvard Time Machine target " <> target_id)
      ∷ ("   path = " <> path)
      ∷ "   browseable = yes"
      ∷ "   read only = no"
      ∷ "   guest ok = no"
      ∷ ("   valid users = " <> owner)
      ∷ "   create mask = 0600"
      ∷ "   directory mask = 0700"
      ∷ "   vfs objects = catia fruit streams_xattr"
      ∷ "   fruit:time machine = yes"
      ∷ ("   fruit:time machine max size = " <> size)
      ∷ "   server smb encrypt = required"
      ∷ "   hosts allow = 127.0.0.1 ::1 10.0.0.0/8 172.16.0.0/12 192.168.0.0/16 100.64.0.0/10 169.254.0.0/16 fc00::/7 fe80::/10"
      ∷ []

  -- The block of one target.
  unfoldable pub share_block : Target → Result (List String)
  share_block target = elim (validate_share target.share_name) [
    | err e ↦ err e
    | ok share ↦ elim (validate_account target.owner) [
      | err e ↦ err e
      | ok owner ↦ elim (validate_target_path target.path) [
        | err e ↦ err e
        | ok path ↦ elim (checked_id target.id) [
          | err e ↦ err e
          | ok target_id ↦ elim (size_for_samba target.advertised_bytes) [
            | err e ↦ err e
            | ok size ↦ ok (share_lines share owner path target_id size)
          ]
        ]
      ]
    ]
  ]

  abbrev both : Result (List String) → Result (List String) → Result (List String)
  both (err e) rest = err e
  both (ok lines) (err e) = err e
  both (ok lines) (ok others) = ok (lines ++ others)

  share_blocks : List Target → Result (List String)
  share_blocks [] = ok []
  share_blocks (target ∷ targets) =
      let rest = share_blocks targets in
      if not target.enabled then rest else both (share_block target) rest

  abbrev insert_target : Target → List Target → List Target
  insert_target target [] = target ∷ []
  insert_target target (other ∷ targets) =
      let rest = insert_target target targets in
      if text_leb target.share_name other.share_name then target ∷ other ∷ targets else other ∷ rest

  -- `sorted(targets, key=share_name)`
  abbrev pub by_share : List Target → List Target
  by_share [] = []
  by_share (target ∷ targets) = insert_target target (by_share targets)

  -- `"\n".join(lines)`
  abbrev join_lines : List String → String
  join_lines [] = ""
  join_lines (line ∷ []) = line
  join_lines (line ∷ next ∷ lines) = let rest = join_lines (next ∷ lines) in line <> ("\n" <> rest)

  abbrev banner : List String
  banner =
      "# Managed by runvard. Manual changes are reported as configuration drift."
      ∷ "# Time Machine targets are dedicated shares; do not store other files here." ∷ []

  -- The last line has no blanks at its end.
  unfoldable pub render_samba_config : List Target → Result String
  unfolding share_blocks
  render_samba_config targets = elim (share_blocks (by_share targets)) [
    | err e ↦ err e
    | ok lines ↦ ok (join_lines (banner ++ lines) <> "\n")
  ]

  abbrev txt_record : ℕ → String → String
  txt_record index share =
      "    <txt-record>dk"
      <> (S.decimal index <> ("=adVN=" <> (share <> ",adVF=0x82</txt-record>")))

  -- The records of the targets from this index on.
  avahi_records : ℕ → List Target → Result (List String)
  avahi_records index [] = ok []
  avahi_records index (target ∷ targets) =
      let rest = avahi_records (index + 1) targets in
      elim (validate_share target.share_name) [
        | err e ↦ err e
        | ok share ↦ elim (checked_id target.id) [
          | err e ↦ err e
          | ok target_id ↦ both (ok (txt_record index share ∷ [])) rest
        ]
      ]

  abbrev avahi_services : List String → String
  avahi_services [] = ""
  avahi_services (r ∷ rs) = join_lines (
      "  <service>\n    <type>_smb._tcp</type>\n    <port>445</port>\n  </service>"
      ∷ ("  <service>\n    <type>_adisk._tcp</type>\n    <port>9</port>\n"
          <> (join_lines (r ∷ rs) <> "\n  </service>"))
      ∷ [])

  abbrev enabled_of : List Target → List Target
  enabled_of targets = keep (λ target. target.enabled) targets

  unfoldable pub render_avahi_service : List Target → Result String
  unfolding avahi_records
  render_avahi_service targets = elim (avahi_records 0 (by_share (enabled_of targets))) [
    | err e ↦ err e
    | ok records ↦ ok (
        "<?xml version=\"1.0\" standalone=\"no\"?>\n<!DOCTYPE service-group SYSTEM \"avahi-service.dtd\">\n<service-group>\n  <name replace-wildcards=\"yes\">runvard Time Machine on %h</name>\n"
        <> (avahi_services records <> "\n</service-group>\n"))
  ]

-- `MANAGED_SMB_CONF` and `AVAHI_SERVICE`, where they exist.
pub record Config : Type 0 where
  pub samba : Option String
  pub avahi : Option String

-- What the daemons answer: the validation, and the reloads with the questions whether the daemons are active.
pub record Daemons : Type 0 where
  pub testparm : Result (Unit {0})
  pub smbd : Result (Unit {0})
  pub avahi_daemon : Result (Unit {0})

-- The file that was written comes back if the daemon does not take it.
abbrev pub or_restored : Result (Unit {0}) → Config → Action Config (Unit {0})
or_restored (err e) old new = (err e, old)
or_restored (ok done) old new = (ok tt, new)

module _ (S : System) where
  unfoldable pub activate_samba_config : Daemons → List Target → Action Config (Unit {0})
  activate_samba_config daemons targets c =
      continue (render_samba_config S targets)
        (λ rendered c.
          continue daemons.testparm
            (λ valid c. or_restored daemons.smbd c (record c { samba = some rendered })) c)
        c

  -- `none` where no target is enabled: the file is removed.
  abbrev avahi_file : List Target → Result (Option String)
  avahi_file targets = elim (enabled_of S targets) [
    | [] ↦ ok none
    | ◌∷◌ target others ↦ elim (render_avahi_service S targets) [
      | err e ↦ err e
      | ok text ↦ ok (some text)
    ]
  ]

  unfoldable pub activate_avahi_config : Daemons → List Target → Action Config (Unit {0})
  activate_avahi_config daemons targets c =
      continue (avahi_file targets)
        (λ file c. or_restored daemons.avahi_daemon c (record c { avahi = file })) c

  abbrev is_empty : List Target → Bool
  is_empty [] = true
  is_empty (target ∷ targets) = false

  -- A file that is missing differs if there are targets.
  abbrev differs : Option String → List Target → String → Bool
  differs none targets expected = not (is_empty targets)
  differs (some actual) targets expected = not (actual == expected)

  unfoldable pub has_drift : List Target → Config → Result Bool
  has_drift targets c = elim (render_samba_config S targets) [
    | err e ↦ err e
    | ok expected ↦ ok (differs c.samba targets expected)
  ]

  abbrev pub drift_error : Error
  drift_error =
      runtime_error "Managed Time Machine configuration has drift; reconcile it explicitly"

  -- `except Exception: _activate_samba_config(previous_targets); raise`
  abbrev pub or_back : Daemons → List Target → Result (Unit {0}) → Action Config (Unit {0})
  or_back again previous (ok done) = pure tt
  or_back again previous (err e) = do activate_samba_config again previous; raise e

  -- `again` is what the daemons answer to the way back.
  unfoldable pub activate_managed_config :
      (daemons again : Daemons) → (targets previous : List Target) → Action Config (Unit {0})
  activate_managed_config daemons again targets previous = do
    drift ← (λ c. (has_drift previous c, c))
    raise_if drift drift_error
    activate_samba_config daemons targets
    (λ c. let (r, d) = activate_avahi_config daemons targets c in or_back again previous r d)
