-- ===== src/Server/Danger.antt =====
-- `_danger_confirm_meta` of server.py: which requests want a confirmation, of what action on what
-- target. A form is the dict of its fields.
use runvard.Base.{◌<>◌, String, Bool, Option, none, some, [], ◌∷◌, not, ◌&&◌, ◌==◌, if◌then◌else◌}
use runvard.Base.Dict
use runvard.Base.Dict.{Dict}

-- `_form_value`, of one name
unfoldable pub form_value : Dict String → String → String
form_value form name = elim (Dict.get name form) [ none ↦ "" | some value ↦ value ]

-- An action, and the field that names its target.
abbrev pub Spec : Type 0
Spec = String × String

-- `simple`
abbrev pub simple : Dict Spec
simple =
    ("/api/accounts/password", ("accounts:password", "username"))
    ∷ ("/api/accounts/role", ("accounts:role", "username"))
    ∷ ("/api/accounts/delete", ("accounts:delete", "username"))
    ∷ ("/api/files/delete", ("files:delete", "path"))
    ∷ ("/api/files/trash/empty", ("files:trash-empty", "trash"))
    ∷ ("/api/files/shares/delete", ("files:share-delete", "token"))
    ∷ ("/api/storage/format", ("storage:format", "partition"))
    ∷ ("/api/storage/unmount", ("storage:unmount", "mountpoint"))
    ∷ ("/api/storage/raid/create", ("storage:raid-create", "name"))
    ∷ ("/api/storage/lvm/lv-remove", ("storage:lvm-lv-remove", "lv_path"))
    ∷ ("/api/storage/luks/format", ("storage:luks-format", "device"))
    ∷ ("/api/storage/luks/close", ("storage:luks-close", "name"))
    ∷ ("/api/storage/zfs/destroy", ("storage:zfs-destroy", "name"))
    ∷ ("/api/storage/zfs/scrub", ("storage:zfs-scrub", "name"))
    ∷ ("/api/storage/btrfs/scrub", ("storage:btrfs-scrub", "mountpoint"))
    ∷ ("/api/storage/iscsi/logout", ("storage:iscsi-logout", "target"))
    ∷ ("/api/docker/images/remove", ("docker:remove-image", "image_id"))
    ∷ ("/api/docker/volumes/remove", ("docker:remove-volume", "name"))
    ∷ ("/api/docker/compose/remove", ("docker:compose-remove", "name"))
    ∷ ("/api/vms/disk/detach", ("vms:disk-detach", "name"))
    ∷ ("/api/vms/pool/vol-delete", ("vms:volume-delete", "vol"))
    ∷ ("/api/network/bond/delete", ("network:bond-delete", "name"))
    ∷ ("/api/network/firewall/remove", ("network:firewall-remove", "num"))
    ∷ ("/api/network/configure-ip", ("network:configure-ip", "iface"))
    ∷ ("/api/security/users/smb-password", ("security:smb-password", "name"))
    ∷ ("/api/security/users/password", ("security:password", "name"))
    ∷ ("/api/security/users/ssh-keys/remove", ("security:ssh-key-remove", "name"))
    ∷ ("/api/security/users/aging", ("security:aging", "name"))
    ∷ ("/api/security/groups/delete", ("security:group-delete", "name"))
    ∷ ("/api/security/groups/remove-member", ("security:group-remove-member", "group"))
    ∷ ("/api/sysmgr/power/logind/set", ("sysmgr:logind-power", "logind"))
    ∷ ("/api/sysmgr/hostname", ("sysmgr:hostname", "name"))
    ∷ ("/api/sysmgr/packages/remove", ("sysmgr:package-remove", "name"))
    ∷ ("/api/sysmgr/unattended/set", ("sysmgr:unattended", "unattended-upgrades"))
    ∷ ("/api/sysmgr/tuned/set", ("sysmgr:tuned", "profile"))
    ∷ ("/api/dashboard/remove", ("dashboard:remove", "tile_id"))
    ∷ ("/api/federation/v1/admin/enable", ("federation:enable", "internal_url"))
    ∷ ("/api/federation/v1/admin/join", ("federation:join", "peer_url"))
    ∷ ("/api/federation/v1/admin/settings", ("federation:settings", "internal_url"))
    ∷ ("/api/federation/v1/admin/nodes/revoke", ("federation:revoke", "node_id"))
    ∷ ("/api/external-servers/v1/admin/delete", ("external-server:delete", "server_id"))
    ∷ ("/api/time-machine/targets/remove", ("time-machine:remove", "target_id"))
    ∷ ("/api/time-machine/targets/delete-data", ("time-machine:delete-data", "target_id"))
    ∷ ("/api/time-machine/replications/promote", ("time-machine:promote-replica", "replication_id"))
    ∷ (
      "/api/time-machine/replications/import",
      ("time-machine:promote-received", "source_replication_id"),
    )
    ∷ []

abbrev pub only_if : Bool → String × String → Option (String × String)
only_if test meta = if test then some meta else none

abbrev pub simple_meta : Dict String → Option Spec → Option (String × String)
simple_meta form none = none
simple_meta form (some (action, field)) = some (action, form_value form field)

unfoldable pub danger_confirm_meta : (path : String) → Dict String → Option (String × String)
danger_confirm_meta path form =
    let action = form_value form "action" in
    if path == "/api/docker/action"
    then only_if (action == "remove") ("docker:remove-container", form_value form "container_id")
    else if path == "/api/docker/networks/prune"
    then some ("docker:network-prune", "Docker")
    else if path == "/api/files/job"
    then only_if (action == "delete") ("files:delete", form_value form "paths")
    else if path == "/api/docker/compose/action"
    then only_if (action == "remove") ("docker:compose-remove", form_value form "name")
    else if path == "/api/vms/action"
    then only_if (action == "delete") ("vms:delete", form_value form "name")
    else if path == "/api/vms/pool/action"
    then only_if (action == "delete") ("vms:pool-delete", form_value form "name")
    else if path == "/api/vms/snapshot/action"
    then only_if (action == "delete") ("vms:snapshot-delete", form_value form "name")
    else if path == "/api/sysmgr/power"
    then only_if (not (action == "") && not (action == "cancel")) ("power:" <> action, action)
    else if path == "/api/apps/action"
    then only_if (action == "down") ("apps:uninstall", form_value form "app_id")
    else simple_meta form (Dict.get path simple)
