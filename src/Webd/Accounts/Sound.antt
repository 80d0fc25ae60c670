-- ===== src/Webd/Accounts/Sound.antt =====
-- webd.py, the accounts of which `api_login` can admit one as admin: in a list of users, and in a box.
use pipe_os.Prelude.{
  ◌≡◌, refl, sym, ap, ◌∙◌, inl, inr, Bool, true, false, ◌&&◌, not, Option, none, some, List, [],
  ◌∷◌, ◌++◌, All, Text, text_eq, arith, Bool-cases, if◌then◌else◌,
}
use pipe_os.Prelude.Ascii.{starts_with, strip_space}
use mathlib.Core.Path.{subst}
use pipe_os.Webd.{
  User, UsersFile, missing, unreadable, listed, AdminConf, unclaimed, no_hash, hashed, Box, Tools,
  is_admin,
}
use pipe_os.Webd.Passwords.{sha512_mark, marked, hash_password, check_hash}
use pipe_os.Webd.Users.{
  enabled_admin, any_user, legacy_users, read_users, find_user, change_user, remove_user,
}
use pipe_os.Webd.SignIn.{claimed}

-- A hash that `check_hash` does not refuse from the start.
abbrev pub is_marked : Option Text → Bool
is_marked none = false
is_marked (some h) = starts_with sha512_mark h

pub hash_password-is_marked :
    (t : Tools) (salt pw h : Text) → hash_password t salt pw ≡ some h → is_marked (some h) ≡ true
unfolding hash_password
hash_password-is_marked t salt pw h e = by_output (t.passwd salt (pw ++ (b'\n' ∷ []))) e
  where
    by_output : (o : Option Text) → marked t o ≡ some h → is_marked (some h) ≡ true
    by_output none q = absurd (ground arith)
    by_output (some out) q = elim (Bool-cases (starts_with sha512_mark (strip_space out))) [
      | inr bad ↦ absurd (ground arith)
      | inl good ↦
          (let same : strip_space out ≡ h = ground arith in
            ap (starts_with sha512_mark) (sym same) ∙ good)
    ]

pub check_hash-is_marked :
    (t : Tools) (pw : Text) (o : Option Text) → check_hash t pw o ≡ true → is_marked o ≡ true
unfolding check_hash
check_hash-is_marked t pw none e = absurd (ground arith)
check_hash-is_marked t pw (some h) e = ground arith

-- A share-only account is no admin, and any other has a hash.
abbrev pub Sound : User → Type 0
Sound u = if u.share then (is_admin u.role ≡ false) else (is_marked u.hash ≡ true)

-- An account that `api_login` admits as admin with its password.
abbrev pub can_sign_in : User → Bool
can_sign_in u = enabled_admin u && not u.share && is_marked u.hash

-- Accounts of the kind that is made here, an enabled admin among them.
abbrev pub Good : List User → Type 0
Good us = (any_user enabled_admin us ≡ true) × All Sound us

Sound-can_sign_in : (u : User) → Sound u → enabled_admin u ≡ true → can_sign_in u ≡ true
Sound-can_sign_in u s e = elim (Bool-cases u.share) [
  | inl share ↦ (let no_admin : is_admin u.role ≡ false = rw share at s in ground arith)
  | inr full ↦ (let mark : is_marked u.hash ≡ true = rw full at s in ground arith)
]

pub Good-can_sign_in : (us : List User) → Good us → any_user can_sign_in us ≡ true
unfolding any_user
Good-can_sign_in [] g = g.0
Good-can_sign_in (u ∷ us) g = elim (Bool-cases (enabled_admin u)) [
  | inl here ↦ ground (arith, Sound-can_sign_in u g.1.0 here)
  | inr not_here ↦ ground (arith, Good-can_sign_in us ((ground (arith, g.0)), g.1.1))
]

pub find_user-Sound :
    (name : Text) (us : List User) (u : User) → find_user name us ≡ some u → All Sound us → Sound u
unfolding find_user
find_user-Sound name [] u e h = absurd (ground arith)
find_user-Sound name (v ∷ us) u e h = elim (Bool-cases (text_eq v.name name)) [
  | inl same ↦ (let here : v ≡ u = some-injective (rw same at e) in subst Sound here h.0)
  | inr unlike ↦ find_user-Sound name us u (rw unlike at e) h.1
]
  where
    some-injective : {a b : User} → some a ≡ some b → a ≡ b
    some-injective q = cc

pub change_user-Sound :
    (name : Text) (v : User) (us : List User)
    → Sound v
    → All Sound us
    → All Sound (change_user name v us)
unfolding change_user
change_user-Sound name v [] s h = tt
change_user-Sound name v (u ∷ us) s h = elim (Bool-cases (text_eq u.name name)) [
  | inl same ↦ rw same (s, h.1)
  | inr unlike ↦ rw unlike (h.0, change_user-Sound name v us s h.1)
]

pub remove_user-Sound :
    (name : Text) (us : List User) → All Sound us → All Sound (remove_user name us)
unfolding remove_user
remove_user-Sound name [] h = tt
remove_user-Sound name (u ∷ us) h = elim (Bool-cases (text_eq u.name name)) [
  | inl same ↦ rw same h.1
  | inr unlike ↦ rw unlike (h.0, remove_user-Sound name us h.1)
]

-- The file of the legacy admin.
abbrev pub is_hashed : AdminConf → Bool
is_hashed unclaimed = false
is_hashed no_hash = false
is_hashed (hashed h) = is_marked (some h)

legacy_users-Good : (c : AdminConf) → is_hashed c ≡ true → Good (legacy_users c)
unfolding legacy_users any_user
legacy_users-Good unclaimed h = absurd (ground arith)
legacy_users-Good no_hash h = absurd (ground arith)
legacy_users-Good (hashed s) h = (refl, (h, tt))

Good-legacy_users : (c : AdminConf) → Good (legacy_users c) → is_hashed c ≡ true
unfolding legacy_users any_user
Good-legacy_users unclaimed g = absurd (ground (arith, g.0))
Good-legacy_users no_hash g = absurd (ground (arith, g.0))
Good-legacy_users (hashed s) g = g.1.0

-- The box has been claimed, and `read_users` returns such accounts.
abbrev pub HasAdmin : Box → Type 0
HasAdmin b = Good (read_users b) × (claimed b ≡ true)

-- The store of users is as it was; a hash of the legacy admin is not lost, and neither is its file.
abbrev pub Kept : Box → Box → Type 0
Kept b c =
    (c.users_conf ≡ b.users_conf)
    × (is_hashed b.admin_conf ≡ true → is_hashed c.admin_conf ≡ true)
    × (claimed b ≡ true → claimed c ≡ true)

read_of : UsersFile → AdminConf → List User
read_of missing c = legacy_users c
read_of unreadable c = legacy_users c
read_of (listed us) c = if any_user enabled_admin us then us else legacy_users c

read_users-read_of : (b : Box) → read_users b ≡ read_of b.users_conf b.admin_conf
unfolding read_users read_of
read_users-read_of b = by_store b.users_conf refl
  where
    by_store : (s : UsersFile) → b.users_conf ≡ s → read_users b ≡ read_of b.users_conf b.admin_conf
    by_store missing q = rw q refl
    by_store unreadable q = rw q refl
    by_store (listed us) q = rw q refl

read_of-Good :
    (s : UsersFile) (c d : AdminConf)
    → (is_hashed c ≡ true → is_hashed d ≡ true)
    → Good (read_of s c)
    → Good (read_of s d)
unfolding read_of
read_of-Good missing c d k g = legacy_users-Good d (k (Good-legacy_users c g))
read_of-Good unreadable c d k g = legacy_users-Good d (k (Good-legacy_users c g))
read_of-Good (listed us) c d k g = elim (Bool-cases (any_user enabled_admin us)) [
  | inl some_one ↦ rw some_one (rw some_one at g)
  | inr nobody ↦ rw nobody (legacy_users-Good d (k (Good-legacy_users c (rw nobody at g))))
]

-- It is kept where the store is.
pub Kept-HasAdmin : (b c : Box) → Kept b c → HasAdmin b → HasAdmin c
Kept-HasAdmin b c k h = (
  subst Good (sym (read_users-read_of c)) (
      subst (λ s. Good (read_of s c.admin_conf)) (sym k.0)
        (read_of-Good b.users_conf b.admin_conf c.admin_conf k.1
          (subst Good (read_users-read_of b) h.0))),
  k.2 h.1,
)

-- It is there where the store lists one.
pub listed-HasAdmin :
    (b : Box) (us : List User) → b.users_conf ≡ listed us → Good us → claimed b ≡ true → HasAdmin b
unfolding read_of
listed-HasAdmin b us e g taken = (
  subst Good (sym (read_users-read_of b))
      (subst (λ s. Good (read_of s b.admin_conf)) (sym e) (by_any us g)),
  taken,
)
  where
    by_any : (us : List User) → Good us → Good (read_of (listed us) b.admin_conf)
    by_any us g = rw (g.0) g
