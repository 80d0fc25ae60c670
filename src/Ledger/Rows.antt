-- ===== src/Ledger/Rows.antt =====
-- ledger.py, a line of a transcript and the row that is made of it, and `actor_for`: who acted.
use pipe_os.Prelude.{
  ℕ, ◌+◌, Bool, ◌&&◌, not, Option, none, some, List, [], ◌∷◌, ◌++◌, if◌then◌else◌, length, drop,
  Text, text_eq, is_empty, codes, split, join, strip_right,
}
use pipe_os.Prelude.Dict.{Dict, get}
use pipe_os.Prelude.Ascii.{starts_with}
use pipe_os.Ledger.Cursor.{last_of}

-- What a line of a transcript says, an absent key being empty; `used` is the truth of its `usage`,
-- and `created` its `cache_creation` where that is not empty: the tokens of 5 minutes and of an hour.
pub record Line : Type 0 where
  pub kind : Text
  pub id : Text
  pub used : Bool
  pub timestamp : Text
  pub session : Text
  pub cwd : Text
  pub model : Text
  pub tokens_in : ℕ
  pub tokens_out : ℕ
  pub cache_read : ℕ
  pub created : Option (ℕ × ℕ)
  pub created_total : ℕ
  pub sidechain : Bool

pub record Actor : Type 0 where
  pub kind : Text
  pub name : Text

-- A row of the ledger; the fields that are the same in each row are left out.
pub record Row : Type 0 where
  pub ts : Text
  pub sid : Text
  pub id : Text
  pub actor : Actor
  pub model : Text
  pub tokens_in : ℕ
  pub tokens_out : ℕ
  pub cache_read : ℕ
  pub cache_w5m : ℕ
  pub cache_w1h : ℕ
  pub cwd : Text
  pub sidechain : Bool

-- Whose sessions there are: `_job_sids`, `_listener_sids` and `_dashboard_sid`, and the root of the
-- volume.
pub record Maps : Type 0 where
  pub jobs : Dict Text
  pub listeners : Dict Text
  pub dashboard : Text
  pub root : Text

-- `_under_root`, of the roots in turn
unfoldable pub under_root : List Text → Text → Text
unfolding starts_with
under_root [] path = path
under_root (root ∷ roots) path =
    let rest = under_root roots path in
    if not (is_empty root) && text_eq path root
    then []
    else if not (is_empty root) && starts_with (root ++ (b'/' ∷ [])) path
    then drop (length root + 1) path
    else rest

-- `os.path.basename`
unfoldable pub basename : Text → Text
unfolding split join last_of
basename path = join b'/' (last_of 1 (split b'/' path))

abbrev actor : Text → Text → Actor
actor kind name = record { kind = kind; name = name }

-- `actor_for`, of a session that no map knows
unfoldable pub actor_by_cwd : Text → Text → Actor
unfolding under_root basename strip_right
actor_by_cwd root cwd =
    let c = under_root (root ∷ codes "/data" ∷ []) (strip_right b'/' cwd) in
    if text_eq c (codes "pipebox")
    then actor (codes "watch") []
    else if text_eq c (codes "pipebox/webchat")
    then actor (codes "assistant") []
    else actor (codes "other") (if is_empty (basename c) then c else basename c)

-- `actor_for`
unfoldable pub actor_for : Maps → Text → Text → Actor
unfolding actor_by_cwd get
actor_for m sid cwd = if is_empty sid then actor_by_cwd m.root cwd else elim (get sid m.jobs) [
  | some name ↦ actor (codes "job") name
  | none ↦ elim (get sid m.listeners) [
    | some name ↦ actor (codes "listener") name
    | none ↦
        if not (is_empty m.dashboard) && text_eq sid m.dashboard
        then actor (codes "dashboard") []
        else actor_by_cwd m.root cwd
  ]
]

-- `int(… or 0)` of the tokens of a cache that was made
abbrev pub cache_w5m_of : Line → ℕ
cache_w5m_of l = elim l.created [ none ↦ l.created_total | some (w5, w1) ↦ w5 ]

abbrev pub cache_w1h_of : Line → ℕ
cache_w1h_of l = elim l.created [ none ↦ 0 | some (w5, w1) ↦ w1 ]
