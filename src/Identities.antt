-- ===== src/Identities.antt =====
-- dashboard/app/services/auth_service.py, the account of a user whom an identity provider has signed in,
-- and dashboard/app/services/local_ad_auth.py, the names that are tried on the directory. The hash of the
-- random password of a new account and its identifier are arguments, as are the answers of the provider.
pub mod Linked
use opnsense_hub.Base.{
  ℕ, String, Bool, true, false, ◌&&◌, not, Option, none, some, List, [], ◌∷◌, ◌++◌, map, Result, ok,
  err, Exception, runtime_error, Text, codes, ◌==◌, nat_eq, string_eq, text_eq, find, contains,
  split, strip, lstrip, or_else, lower, is_space, if◌then◌else◌, ◌>>◌,
}
use opnsense_hub.Models.{User, Db}
use opnsense_hub.Notifications.{clean_optional}

-- `role or default`
unfoldable pub role_or : Option String → (default : String) → String
role_or none default = default
role_or (some role) default = if role == "" then default else role

-- What the values of a sign-in do to the row of the account.
unfoldable pub linked :
    (first_name last_name : Option Text) (role : Option String) (auth_provider : Text) → User → User
unfolding or_else role_or
linked first_name last_name role auth_provider u = record u {
  first_name = or_else (clean_optional first_name) u.first_name;
  last_name = or_else (clean_optional last_name) u.last_name;
  role = role_or role u.role;
  auth_provider = some auth_provider;
}

-- The two refusals for an account that exists. An empty provider passes both.
unfoldable pub check_provider : (auth_provider : Text) → Option Text → Result (Unit {0})
check_provider auth_provider none = err (
    runtime_error
      "An account with this email already exists and must be explicitly linked by an administrator.")
check_provider auth_provider (some provider) =
    if not (provider == []) && not (provider == auth_provider)
    then err (
        runtime_error
          "An account with this email is already linked to a different identity provider.")
    else ok tt

abbrev pub has_email : Text → User → Bool
has_email email u = u.email == email

-- The row of `existing`, and no other, is written.
abbrev pub link_row : (link : User → User) (id : ℕ) → User → User
link_row link id u = if u.id == id then link u else u

unfoldable pub new_user :
    (password_hash : String) (id : ℕ) (email : Text) (first_name last_name : Option Text)
    (role : Option String) (auth_provider : Text)
    → User
unfolding role_or
new_user password_hash id email first_name last_name role auth_provider = record {
  id = id;
  email = email;
  password_hash = password_hash;
  first_name = clean_optional first_name;
  last_name = clean_optional last_name;
  role = role_or role "user";
  auth_provider = some auth_provider;
  mfa_enabled = false;
  mfa_secret = none;
}

-- The call on the row that the query has found.
unfoldable pub upsert_found :
    (created : User) (link : User → User) (auth_provider : Text)
    → Option User
    → Db
    → Result (User × Db)
unfolding check_provider
upsert_found created link auth_provider none db =
    ok (created, record db { users = db.users ++ (created ∷ []) })
upsert_found created link auth_provider (some existing) db =
    check_provider auth_provider existing.auth_provider
    >> ok (link existing, record db { users = map (link_row link existing.id) db.users })

unfoldable pub upsert_external_user :
    (password_hash : String) (id : ℕ) (email : Text) (first_name last_name : Option Text)
    (role : Option String) (auth_provider : Text)
    → Db
    → Result (User × Db)
unfolding upsert_found new_user linked
upsert_external_user password_hash id email first_name last_name role auth_provider db =
    let normalized_email = lower (strip email) in
    upsert_found
      (new_user password_hash id normalized_email first_name last_name role auth_provider)
      (linked first_name last_name role auth_provider) auth_provider
      (find (has_email normalized_email) db.users) db

-- `text.partition(sep)`, without the separator
unfoldable pub partition : ℕ → Text → Text × Text
partition sep [] = ([], [])
partition sep (c ∷ s) =
    let rest = partition sep s in if c == sep then ([], s) else (c ∷ rest.0, rest.1)

unfoldable pub domain_label : (part : Text) → List Text
unfolding partition
domain_label part =
    let pair = partition b'=' (strip part) in
    if lower pair.0 == codes "dc" && not (strip pair.1 == []) then strip pair.1 ∷ [] else []

unfoldable pub domain_labels : (parts : List Text) → List Text
unfolding domain_label
domain_labels [] = []
domain_labels (part ∷ parts) = domain_label part ++ domain_labels parts

unfoldable pub join : (sep : Text) → List Text → Text
join sep [] = []
join sep (s ∷ []) = s
join sep (s ∷ t ∷ parts) = s ++ sep ++ join sep (t ∷ parts)

unfoldable pub joined_labels : List Text → Option Text
unfolding join
joined_labels [] = none
joined_labels (label ∷ labels) = some (join (codes ".") (label ∷ labels))

unfoldable pub base_dn_domain : Option Text → Option Text
unfolding domain_labels joined_labels
base_dn_domain none = none
base_dn_domain (some base_dn) =
    if base_dn == [] then none else joined_labels (domain_labels (split b',' base_dn))

abbrev pub with_domain : (stripped : Text) → Option Text → List Text
with_domain stripped none = []
with_domain stripped (some domain) = (stripped ++ codes "@" ++ domain) ∷ []

unfoldable pub ordered : (seen candidates : List Text) → List Text
ordered seen [] = []
ordered seen (candidate ∷ candidates) =
    let skipped = ordered seen candidates in
    let kept = ordered (candidate ∷ seen) candidates in
    if contains seen candidate then skipped else candidate ∷ kept

unfoldable pub local_ad_bind_candidates : (identifier : Text) (base_dn : Option Text) → List Text
unfolding base_dn_domain ordered
local_ad_bind_candidates identifier base_dn =
    let stripped = strip identifier in
    ordered [] (
      if stripped == []
      then []
      else stripped
        ∷ (if contains stripped b'@'
            then []
            else if contains stripped b'\\'
            then []
            else with_domain stripped (base_dn_domain base_dn)))

-- `name.split(None, 1)`: the first word and what stands behind the white space after it.
unfoldable pub split_word : Text → Text × Text
unfolding lstrip
split_word [] = ([], [])
split_word (c ∷ s) =
    let rest = split_word s in if is_space c then ([], lstrip s) else (c ∷ rest.0, rest.1)

unfoldable pub names_of : Option Text → Option Text × Option Text
unfolding split_word
names_of none = (none, none)
names_of (some normalized) =
    let parts = split_word normalized in
    (some parts.0, if parts.1 == [] then none else some parts.1)

unfoldable pub split_display_name : Option Text → Option Text × Option Text
unfolding names_of
split_display_name name = names_of (clean_optional name)
