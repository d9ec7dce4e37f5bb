-- ===== src/Plugin/Endpoint.antt =====
-- gocsi.go: the permissions and the owner of the endpoint's socket file. The calls of package os, and
-- the lookups of package os/user, change and read a state `S`.
use gocsi.Base.{
  Bool, not, Option, none, some, Text, text, is_empty, all_digits, ◌==◌, ◌||◌, ◌&&◌, ℕ, ℤ,
  parse_octal, atoi, int_eq, if◌then◌else◌,
}
use gocsi.Status.{Error, plain}
use gocsi.Plugin.EnvVars

-- `lis.Addr()`
pub record Address : Type 0 where
  pub network : Text
  pub path : Text

-- The user or group that a lookup finds, by its id; its name is only logged.
pub data Lookup : Type 0 where
  found : (id : Text) → Lookup
  failed : Error → Lookup

pub record Host (S : Type 0) : Type 0 where
  pub getuid : ℤ
  pub getgid : ℤ
  -- `user.LookupId`, `user.Lookup`, `user.LookupGroupId`, `user.LookupGroup`
  pub user_by_id : Text → Lookup
  pub user_by_name : Text → Lookup
  pub group_by_id : Text → Lookup
  pub group_by_name : Text → Lookup
  pub chmod : Text → ℕ → S → Option Error × S
  pub chown : Text → ℤ → ℤ → S → Option Error × S

abbrev net_unix : Text
net_unix = text "unix"

-- The errors of package strconv, by the text that could not be parsed.
abbrev number_error : Text → Error
number_error v = plain v

-- `^\d+$`
abbrev pub is_number : Text → Bool
is_number v = not (is_empty v) && all_digits v

-- A number, or the error that ends the function.
pub data Owner : Type 0 where
  owner : ℤ → Owner
  error : Error → Owner

parsed_id : Text → Option ℤ → Owner
parsed_id sz_id none = error (number_error sz_id)
parsed_id sz_id (some n) = owner n

-- The id that a value names: a number stands for itself, if there is such a user or group.
named : (Text → Lookup) → (Text → Lookup) → Text → Owner
unfolding parsed_id
named by_id by_name v =
    if is_number v
    then elim (by_id v) [ failed e ↦ error e | found _ ↦ parsed_id v (atoi v) ]
    else elim (by_name v) [ failed e ↦ error e | found sz_id ↦ parsed_id sz_id (atoi sz_id) ]

-- The value of a variable, or the id of the process.
unfoldable pub owner_of : (Text → Lookup) → (Text → Lookup) → ℤ → Option Text → Owner
unfolding named
owner_of by_id by_name own none = owner own
owner_of by_id by_name own (some v) = named by_id by_name v

module _ {S : Type 0} (host : Host S) (env : Text → Option Text) (lis : Address) where
  open host use {getuid, getgid, user_by_id, user_by_name, group_by_id, group_by_name, chmod, chown}

  set_perms : Text → Option ℕ → S → Option Error × S
  set_perms v none st = (some (number_error v), st)
  set_perms v (some mode) st = chmod lis.path mode st

  perms_of : Option Text → S → Option Error × S
  unfolding set_perms
  perms_of none st = (none, st)
  perms_of (some v) st = if v == text "0755" then (none, st) else set_perms v (parse_octal 32 v) st

  -- `initEndpointPerms`
  unfoldable pub init_endpoint_perms : S → Option Error × S
  unfolding perms_of
  init_endpoint_perms st =
      if not (lis.network == net_unix) then (none, st) else perms_of (env EnvVars.endpoint_perms) st

  set_owner : Owner → Owner → S → Option Error × S
  set_owner (error e) group st = (some e, st)
  set_owner (owner uid) (error e) st = (some e, st)
  set_owner (owner uid) (owner gid) st =
      if not (int_eq uid getuid) || not (int_eq gid getgid)
      then chown lis.path uid gid st
      else (none, st)

  -- `initEndpointOwner`
  unfoldable pub init_endpoint_owner : S → Option Error × S
  unfolding set_owner owner_of
  init_endpoint_owner st =
      if not (lis.network == net_unix)
      then (none, st)
      else set_owner (owner_of user_by_id user_by_name getuid (env EnvVars.endpoint_user))
          (owner_of group_by_id group_by_name getgid (env EnvVars.endpoint_group)) st
