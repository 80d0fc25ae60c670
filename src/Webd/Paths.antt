-- ===== src/Webd/Paths.antt =====
-- webd.py, the paths of its requests: the tables of `do_GET` and `do_POST`, and what a member's
-- certificate may ask for.
use pipe_os.Prelude.{List, [], ◌∷◌, Text, codes}

-- PEER_GETS
unfoldable pub peer_gets : List Text
peer_gets =
    codes "/api/cluster" ∷ codes "/api/cluster/summary" ∷ codes "/api/cluster/users-here" ∷ []

-- SELF_GETS
unfoldable pub self_gets : List Text
self_gets = codes "/api/cluster/page" ∷ codes "/api/cluster/users" ∷ []

-- PEER_POSTS
unfoldable pub peer_posts : List Text
peer_posts =
    codes "/api/cluster/members"
    ∷ codes "/api/reboot"
    ∷ codes "/api/services"
    ∷ codes "/api/agent/start"
    ∷ codes "/api/name"
    ∷ codes "/api/secrets/have"
    ∷ codes "/api/secrets/receive"
    ∷ codes "/api/secrets/requests/offer"
    ∷ codes "/api/secrets/requests/close"
    ∷ []

-- SELF_POSTS
unfoldable pub self_posts : List Text
self_posts =
    codes "/api/cluster/reboot-all"
    ∷ codes "/api/cluster/services"
    ∷ codes "/api/cluster/start"
    ∷ codes "/api/cluster/adopt"
    ∷ codes "/api/cluster/init"
    ∷ codes "/api/cluster/add"
    ∷ codes "/api/cluster/remove"
    ∷ codes "/api/cluster/sync"
    ∷ codes "/api/secrets/share"
    ∷ codes "/api/secrets/unshare"
    ∷ codes "/api/secrets/request"
    ∷ codes "/api/schedule/del"
    ∷ codes "/api/schedule/set"
    ∷ []

-- The paths that `_do_post_locked` passes to their handlers before it asks for a session.
unfoldable pub open_posts : List Text
open_posts =
    codes "/api/claim"
    ∷ codes "/api/login"
    ∷ codes "/api/cluster/join"
    ∷ codes "/api/cluster/add-request"
    ∷ []

-- What the role viewer may post.
unfoldable pub viewer_posts : List Text
viewer_posts = codes "/api/logout" ∷ codes "/api/password" ∷ []

-- What the role user may post.
unfoldable pub user_posts : List Text
user_posts = codes "/api/logout" ∷ codes "/api/password" ∷ codes "/api/file-op" ∷ []

-- The keys of `readers`.
unfoldable pub readers : List Text
readers =
    codes "/api/status"
    ∷ codes "/api/services"
    ∷ codes "/api/name-suggest"
    ∷ codes "/api/users"
    ∷ codes "/api/metrics"
    ∷ codes "/api/metrics-history"
    ∷ codes "/api/files"
    ∷ codes "/api/file-dl"
    ∷ codes "/api/file-tar"
    ∷ codes "/api/disks"
    ∷ codes "/api/nas"
    ∷ codes "/api/backup"
    ∷ codes "/api/health"
    ∷ codes "/api/logs"
    ∷ codes "/api/stream"
    ∷ codes "/api/stream-log"
    ∷ codes "/api/assistant"
    ∷ codes "/api/claude"
    ∷ codes "/api/github"
    ∷ codes "/api/secrets"
    ∷ codes "/api/schedule"
    ∷ codes "/api/usage"
    ∷ codes "/api/pipe"
    ∷ codes "/api/pipe-contacts"
    ∷ codes "/api/pipe-board"
    ∷ codes "/api/update"
    ∷ codes "/api/flash"
    ∷ codes "/api/cluster"
    ∷ codes "/api/cluster/summary"
    ∷ codes "/api/cluster/page"
    ∷ codes "/api/cluster/users"
    ∷ codes "/api/cluster/users-here"
    ∷ codes "/api/lan"
    ∷ codes "/api/updates"
    ∷ codes "/api/logs-list"
    ∷ codes "/api/health-history"
    ∷ codes "/api/transcript"
    ∷ []

-- The keys of `handlers`.
unfoldable pub handlers : List Text
handlers =
    codes "/api/logout"
    ∷ codes "/api/name"
    ∷ codes "/api/services"
    ∷ codes "/api/claude-token"
    ∷ codes "/api/claude-login/start"
    ∷ codes "/api/claude-login/code"
    ∷ codes "/api/claude-logout"
    ∷ codes "/api/github-login/start"
    ∷ codes "/api/github-token"
    ∷ codes "/api/github-logout"
    ∷ codes "/api/pipe-key"
    ∷ codes "/api/pipe-contact"
    ∷ codes "/api/file-op"
    ∷ codes "/api/disk-op"
    ∷ codes "/api/backup"
    ∷ codes "/api/nas"
    ∷ codes "/api/nas-password"
    ∷ codes "/api/nas-account"
    ∷ codes "/api/pipe-set"
    ∷ codes "/api/pipe-logout"
    ∷ codes "/api/password"
    ∷ codes "/api/users/add"
    ∷ codes "/api/users/set"
    ∷ codes "/api/users/del"
    ∷ codes "/api/save"
    ∷ codes "/api/reboot"
    ∷ codes "/api/reboot-firmware"
    ∷ codes "/api/repair-access"
    ∷ codes "/api/stream-config"
    ∷ codes "/api/assistant-config"
    ∷ codes "/api/cohort"
    ∷ codes "/api/update-now"
    ∷ codes "/api/update-set"
    ∷ codes "/api/flash"
    ∷ codes "/api/secrets/set"
    ∷ codes "/api/secrets/del"
    ∷ codes "/api/secrets/reveal"
    ∷ codes "/api/secrets/unlock"
    ∷ codes "/api/secrets/rephrase"
    ∷ codes "/api/secrets/init"
    ∷ codes "/api/secrets/phrase-ack"
    ∷ codes "/api/secrets/have"
    ∷ codes "/api/secrets/receive"
    ∷ codes "/api/secrets/share"
    ∷ codes "/api/secrets/unshare"
    ∷ codes "/api/secrets/request"
    ∷ codes "/api/secrets/requests/offer"
    ∷ codes "/api/secrets/requests/approve"
    ∷ codes "/api/secrets/requests/deny"
    ∷ codes "/api/secrets/requests/close"
    ∷ codes "/api/cluster/init"
    ∷ codes "/api/cluster/add"
    ∷ codes "/api/cluster/remove"
    ∷ codes "/api/cluster/sync"
    ∷ codes "/api/cluster/members"
    ∷ codes "/api/cluster/reboot-all"
    ∷ codes "/api/cluster/join-via"
    ∷ codes "/api/cluster/adopt"
    ∷ codes "/api/cluster/services"
    ∷ codes "/api/schedule/set"
    ∷ codes "/api/schedule/del"
    ∷ codes "/api/schedule/run"
    ∷ codes "/api/agent/start"
    ∷ codes "/api/cluster/start"
    ∷ codes "/api/usage/cap"
    ∷ []

-- The pages that `do_GET` serves to anyone.
unfoldable pub public_pages : List Text
public_pages =
    codes "/"
    ∷ codes "/setup"
    ∷ codes "/login"
    ∷ codes "/dashboard"
    ∷ codes "/lobby"
    ∷ codes "/api/state"
    ∷ codes "/api/lobby"
    ∷ codes "/ca.crt"
    ∷ codes "/pipeos-ca.mobileconfig"
    ∷ codes "/install-ca.sh"
    ∷ codes "/api/cluster/identity"
    ∷ []
