-- ===== src/Server/Requests.antt =====
-- Requests of server.py and the checks of their cookies.
use runvard.Base.{
  ℕ, String, Bool, false, Option, none, some, List, [], ◌∷◌, not, ◌&&◌, ◌==◌, contains,
  if◌then◌else◌, http_error, Result, ok, err, Error, Action,
}
use runvard.Server.Session.{Coding, Session, parse_token}

-- `COOKIE_NAME` of the cookies, the method and the path.
pub record Request : Type 0 where
  pub cookie : Option String
  pub method : String
  pub path : String

abbrev pub unauthorized : Error
unauthorized = http_error 401 "Unauthorized"

abbrev pub read_only : Error
read_only = http_error 403 "Nur-Lese-Zugriff"

abbrev pub admin_required : Error
admin_required = http_error 403 "Admin erforderlich"

abbrev pub expert_required : Error
expert_required = http_error 403 "Expert mode required"

-- `EXPERT_ONLY_PATHS`
abbrev pub expert_only_paths : List String
expert_only_paths =
    "/api/monitoring/alerts" ∷ "/api/monitoring/alerts/add" ∷ "/api/monitoring/alerts/history"
    ∷ "/api/security/users/sudo" ∷ "/api/services/action" ∷ "/api/storage/btrfs"
    ∷ "/api/storage/btrfs/create" ∷ "/api/storage/btrfs/scrub" ∷ "/api/storage/iscsi"
    ∷ "/api/storage/iscsi/discover" ∷ "/api/storage/iscsi/login" ∷ "/api/storage/iscsi/logout"
    ∷ "/api/storage/luks" ∷ "/api/storage/luks/close" ∷ "/api/storage/luks/format"
    ∷ "/api/storage/luks/open" ∷ "/api/storage/lvm" ∷ "/api/storage/lvm/lv-create"
    ∷ "/api/storage/lvm/lv-extend" ∷ "/api/storage/lvm/lv-remove" ∷ "/api/storage/lvm/vg-create"
    ∷ "/api/storage/swap" ∷ "/api/storage/swap/action" ∷ "/api/storage/swap/create"
    ∷ "/api/storage/zfs" ∷ "/api/storage/zfs/create" ∷ "/api/storage/zfs/destroy"
    ∷ "/api/storage/zfs/scrub" ∷ "/api/sysmgr/apparmor" ∷ "/api/sysmgr/apparmor/set"
    ∷ "/api/sysmgr/cron" ∷ "/api/sysmgr/cron/add" ∷ "/api/sysmgr/kdump" ∷ "/api/sysmgr/kdump/action"
    ∷ "/api/sysmgr/packages/install" ∷ "/api/sysmgr/packages/remove" ∷ "/api/sysmgr/packages/search"
    ∷ "/api/sysmgr/sosreport" ∷ "/api/sysmgr/sosreport/run" ∷ "/api/sysmgr/tuned"
    ∷ "/api/sysmgr/tuned/set" ∷ "/api/sysmgr/unattended" ∷ "/api/sysmgr/unattended/set"
    ∷ "/api/vms/pool/action" ∷ "/api/vms/pool/create" ∷ "/api/vms/pool/vol-create"
    ∷ "/api/vms/pool/vol-delete" ∷ "/api/vms/pool/volumes" ∷ "/api/vms/pools" ∷ []

-- The methods that a read-only account may use.
abbrev pub reading_methods : List String
reading_methods = "GET" ∷ "HEAD" ∷ "OPTIONS" ∷ []

module _ (C : Coding) where
  -- `auth`, of the session of the request
  abbrev pub auth_session : (method : String) → Option Session → Result String
  auth_session method none = err unauthorized
  auth_session method (some session) =
      if session.role == "readonly" && not (contains reading_methods method)
      then err read_only
      else ok session.username

  unfoldable pub auth : Request → ℕ → Result String
  auth request now = auth_session request.method (parse_token C request.cookie now)

  abbrev pub admin_session : Option Session → Result String
  admin_session none = err unauthorized
  admin_session (some session) =
      if not (session.role == "admin") then err admin_required else ok session.username

  unfoldable pub require_admin : Request → ℕ → Result String
  require_admin request now = admin_session (parse_token C request.cookie now)

  abbrev pub is_expert : Option Session → Bool
  is_expert none = false
  is_expert (some session) = session.role == "admin" && session.expert

  unfoldable pub is_expert_request : Request → ℕ → Bool
  is_expert_request request now = is_expert (parse_token C request.cookie now)

  -- The cookie is parsed twice, at two readings of the clock.
  unfoldable pub require_expert : Request → (now later : ℕ) → Result String
  require_expert request now later = elim (require_admin request now) [
    | err e ↦ err e
    | ok user ↦ if not (is_expert_request request later) then err expert_required else ok user
  ]

  -- `_expert_only_mw`, in front of every handler.
  unfoldable pub expert_only_mw : {S A : Type 0} → Request → ℕ → Action S A → Action S A
  expert_only_mw request now call_next s =
      if contains expert_only_paths request.path && not (is_expert_request request now)
      then (err expert_required, s)
      else call_next s
