-- ===== src/Webd/Accounts/Changed.antt =====
-- webd.py, `api_users_set`: the account that it changes, and the list with it.
use pipe_os.Prelude.{
  ◌≡◌, refl, ap, ◌∙◌, inl, inr, Bool, true, false, ◌&&◌, ◌||◌, not, Option, none, some, List, arith,
  Bool-cases, if◌then◌else◌,
}
use pipe_os.Webd.{User, is_admin, Role}
use pipe_os.Webd.Users.{enabled_admin, any_user, find_user, change_user, last_admin_guard}
use pipe_os.Webd.Accounts.{
  Flag, exactly, truthy, falsy, SetBody, switches, asks_bad_role, asks_lower_role, is_true,
  with_role, has_forbidden, is_there,
}
use pipe_os.Webd.Accounts.Lists.{any_user-change_user, other_admin-change_user}
use pipe_os.Webd.Accounts.Sound.{Sound, Good, is_marked, find_user-Sound, change_user-Sound}

-- `disabled` is a Boolean where it is there.
abbrev pub IsBoolean : Option Flag → Type 0
IsBoolean none = Unit
IsBoolean (some (exactly v)) = Unit
IsBoolean (some truthy) = ⊥
IsBoolean (some falsy) = Unit

-- What the request makes of an account, when it has passed the checks.
pub record Changed (role : Option Role) (disabled : Option Flag) (u x : User) : Type 0 where
  pub bool : IsBoolean disabled
  pub known : asks_bad_role role ≡ false
  pub new_role : x.role ≡ (with_role role u).role
  pub switched : x.disabled ≡ (if switches disabled u.disabled then not u.disabled else u.disabled)
  pub kind : x.share ≡ u.share
  pub no_role : (u.share && is_there role) ≡ false
  pub mark : is_marked u.hash ≡ true → is_marked x.hash ≡ true

pub with_role-disabled :
    (role : Option Role) (f : Option Flag) (u : User)
    → (if switches f (with_role role u).disabled
        then not (with_role role u).disabled
        else (with_role role u).disabled)
      ≡ (if switches f u.disabled then not u.disabled else u.disabled)
with_role-disabled none f u = refl
with_role-disabled (some r) f u = refl

-- The account is an enabled admin after the changes, unless the request lowers it.
Changed-enabled_admin :
    (role : Option Role) (disabled : Option Flag) (u x : User)
    → Changed role disabled u x
    → (asks_lower_role role || is_true disabled) ≡ false
    → enabled_admin u ≡ true
    → enabled_admin x ≡ true
Changed-enabled_admin none none u x c low h = ground arith
Changed-enabled_admin none (some (exactly v)) u x c low h = ground arith
Changed-enabled_admin none (some truthy) u x c low h = absurd c.bool
Changed-enabled_admin none (some falsy) u x c low h = ground arith
Changed-enabled_admin (some r) none u x c low h = ground arith
Changed-enabled_admin (some r) (some (exactly v)) u x c low h = ground arith
Changed-enabled_admin (some r) (some truthy) u x c low h = absurd c.bool
Changed-enabled_admin (some r) (some falsy) u x c low h = ground arith

Changed-Sound :
    (role : Option Role) (disabled : Option Flag) (u x : User)
    → Changed role disabled u x
    → Sound u
    → Sound x
Changed-Sound role disabled u x c s = elim (Bool-cases u.share) [
  | inr full ↦ rw (c.kind ∙ full) (c.mark (rw full at s))
  | inl share ↦
      rw (c.kind ∙ share) (ap is_admin (same_role role c.new_role (none_ share)) ∙ (rw share at s))
]
  where
    none_ : u.share ≡ true → is_there role ≡ false
    none_ share = ground (arith, c.no_role)

    same_role :
        (o : Option Role) → x.role ≡ (with_role o u).role → is_there o ≡ false → x.role ≡ u.role
    same_role none e h = e
    same_role (some r) e h = absurd (ground arith)

pub with_role-same :
    (o : Option Role) (u : User)
    → ((with_role o u).share ≡ u.share) × ((with_role o u).hash ≡ u.hash)
with_role-same none u = (refl, refl)
with_role-same (some r) u = (refl, refl)

-- The list still has one.
Changed-any_user :
    (role : Option Role) (disabled : Option Flag) (us : List User) (u x : User)
    → Changed role disabled u x
    → find_user u.name us ≡ some u
    → ((asks_lower_role role || is_true disabled) && is_admin u.role && last_admin_guard us u.name)
      ≡ false
    → any_user enabled_admin us ≡ true
    → any_user enabled_admin (change_user u.name x us) ≡ true
Changed-any_user role disabled us u x c found guard h =
    elim (Bool-cases (last_admin_guard us u.name)) [
      | inr more ↦ other_admin-change_user u.name x us more
      | inl last ↦
          any_user-change_user u.name x us u found
            (λ e. Changed-enabled_admin role disabled u x c (ground arith) e) h
    ]

pub Changed-Good :
    (role : Option Role) (disabled : Option Flag) (us : List User) (u x : User)
    → Changed role disabled u x
    → find_user u.name us ≡ some u
    → ((asks_lower_role role || is_true disabled) && is_admin u.role && last_admin_guard us u.name)
      ≡ false
    → Good us
    → Good (change_user u.name x us)
Changed-Good role disabled us u x c found guard g = (
  Changed-any_user role disabled us u x c found guard g.0,
  change_user-Sound u.name x us
      (Changed-Sound role disabled u x c (find_user-Sound u.name us u found g.1)) g.1,
)

pub unasked :
    (share : Bool) (q : SetBody)
    → (share && has_forbidden q) ≡ false
    → (share && is_there q.role) ≡ false
unasked share q h = ground arith
