-- ===== src/Webd.antt =====
-- webd.py: what the handlers of users and sessions read and write, and how they are composed. The
-- files are the fields of `Box`; what they call outside of Python is logged in `calls`, and its
-- answers are the fields of `Tools`.
pub mod Ending
pub mod Sessions
pub mod Passwords
pub mod Users
pub mod Callers
pub mod Headers
pub mod Paths
pub mod Gate
pub mod Accounts
pub mod Creation
pub mod SignIn
use pipe_os.Prelude.{ℕ, Bool, true, false, Option, none, some, List, [], ◌∷◌, ◌++◌, Text}
use pipe_os.Prelude.Fallible.{Fallible, ok, err}
use pipe_os.Prelude.Dict.{Dict}

-- The roles as users.json and the sessions spell them; `other` is any further text, the empty one for
-- a missing role.
pub data Role : Type 0 where
  admin plain_user viewer : Role
  other : Text → Role

abbrev pub is_admin : Role → Bool
is_admin admin = true
is_admin plain_user = false
is_admin viewer = false
is_admin (other r) = false

-- `role or "admin"`
abbrev pub role_or_admin : Role → Role
role_or_admin admin = admin
role_or_admin plain_user = plain_user
role_or_admin viewer = viewer
role_or_admin (other []) = admin
role_or_admin (other (c ∷ r)) = other (c ∷ r)

-- The body of a session's file: a JSON object with `user` and `role`, or something else.
pub data Body : Type 0 where
  bare : Body
  fields : Text → Role → Body

pub record SessionFile : Type 0 where
  pub mtime : ℕ
  pub body : Body

-- Who asks: a session's user, or a member of the cluster by its certificate.
pub record Session : Type 0 where
  pub user : Text
  pub role : Role
  pub peer : Option Text

-- An entry of users.json. An account without `hash` cannot sign in.
pub record User : Type 0 where
  pub name : Text
  pub role : Role
  pub hash : Option Text
  pub disabled : Bool
  pub unix : Bool
  pub sudo : Bool
  pub share : Bool
  pub terminal : Bool
  pub term_port : ℕ
  pub term_pass : Text

-- users.json: not there, or not a JSON object with a list, or its list.
pub data UsersFile : Type 0 where
  missing unreadable : UsersFile
  listed : List User → UsersFile

-- web-admin.conf: not there or empty, or without a line of a hash, or with its hash.
pub data AdminConf : Type 0 where
  unclaimed no_hash : AdminConf
  hashed : Text → AdminConf

-- A terminal of terminals.conf, its number being its place.
pub record Terminal : Type 0 where
  pub owner : Text
  pub port : ℕ
  pub pass : Text

-- Calls of other programs, of samba and of the saving of the state.
pub data Call : Type 0 where
  saved terminals_restart : Call
  services_applied : Bool → Call
  smb_enabled : Text → Bool → Call
  smb_forgotten unix_added unix_nologin unix_deleted unix_purged sudo_granted : Text → Call
  unix_hash unix_key : Text → Text → Call
  event : Text → Text → Call

pub record Box : Type 0 where
  pub users_conf : UsersFile
  pub admin_conf : AdminConf
  pub sessions : Dict SessionFile
  pub terminals_conf : List Terminal
  pub terminals_on : Bool
  pub calls : List Call

-- A request: the clock, the token of its cookie, the member whose certificate it came with, and what
-- the handler draws.
pub record Request : Type 0 where
  pub now : ℕ
  pub cookie : Option Text
  pub peer : Option Text
  pub salt : Text
  pub token : Text

-- `passwd salt line` is `openssl passwd -6 -salt salt -stdin`, `none` on an exit status other than 0;
-- the other fields are the answers of pipeos-user, and the names of /etc/passwd.
pub record Tools : Type 0 where
  pub passwd : Text → Text → Option Text
  pub unix_add : Text → Bool
  pub set_key : Text → Text → Bool
  pub passwd_names : List Text

-- The refusals, one for each message.
pub data Refusal : Type 0 where
  no_user no_share no_admin own_account admin_only account_gone : Refusal
  bad_name name_exists bad_role share_only short_password hash_failed sudo_needs_unix : Refusal
  unix_needs_key bad_term_pass name_taken unix_failed key_rejected wrong_password : Refusal
  not_claimed signed_out : Refusal

-- A handler changes the box also where it refuses.
abbrev pub Handler : Type 0 → Type 0
Handler A = Box → Fallible Refusal A × Box

abbrev pub run_on :
    {A B : Type 0} → Fallible Refusal A × Box → (A → Handler B) → Fallible Refusal B × Box
run_on (ok a, b) f = f a b
run_on (err e, b) f = (err e, b)

infixl 5 ◌>>=◌ ◌>>◌
abbrev pub ◌>>=◌ : {A B : Type 0} → Handler A → (A → Handler B) → Handler B
◌>>=◌ m f b = run_on (m b) f

abbrev pub ◌>>◌ : {B : Type 0} → Handler (Unit {0}) → Handler B → Handler B
◌>>◌ m k b = run_on (m b) (λ _. k)

abbrev pub return : {A : Type 0} → A → Handler A
return a b = (ok a, b)

abbrev pub refuse : {A : Type 0} → Refusal → Handler A
refuse e b = (err e, b)

-- `if c: return self.err(…)`
abbrev pub refuse_if : Bool → Refusal → Handler (Unit {0})
refuse_if true e b = (err e, b)
refuse_if false e b = (ok tt, b)

-- `if c: m`
abbrev pub when : Bool → Handler (Unit {0}) → Handler (Unit {0})
when true m b = m b
when false m b = (ok tt, b)

abbrev pub need : {A : Type 0} → Option A → Refusal → Handler A
need none e b = (err e, b)
need (some a) e b = (ok a, b)

abbrev pub ask : {A : Type 0} → (Box → A) → Handler A
ask f b = (ok (f b), b)

abbrev pub call : Call → Handler (Unit {0})
call c b = (ok tt, record b { calls = b.calls ++ (c ∷ []) })
