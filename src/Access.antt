-- ===== src/Access.antt =====
-- dashboard/app/rbac.py and the checks of dashboard/app/deps.py that ask for a role: who may see
-- which company.
pub mod Laws
use opnsense_hub.Base.{
  ℕ, String, Bool, true, false, ◌&&◌, ◌||◌, Option, none, some, Result, ok, err, http_exception,
  ◌==◌, nat_eq, string_eq, find, leb, if◌then◌else◌,
}
use opnsense_hub.Models.{User, Company, CompanyUser, Db}

-- The keys of ROLE_ORDER, which are what callers pass as `minimum`.
pub data Role : Type 0 where
  viewer admin owner : Role

abbrev pub role_order : Role → ℕ
role_order viewer = 1
role_order admin = 2
role_order owner = 3

-- ROLE_ORDER.get(role, 0)
unfoldable pub role_rank : String → ℕ
role_rank role =
    if role == "viewer" then 1 else if role == "admin" then 2 else if role == "owner" then 3 else 0

unfoldable pub is_global_admin : User → Bool
is_global_admin user = user.role == "administrator"

unfoldable pub get_company_role : Db → User → ℕ → Option String
get_company_role db user company_id =
    elim (find (λ (m : CompanyUser). m.user_id == user.id && m.company_id == company_id)
      db.company_users) [ none ↦ none | some m ↦ some m.role ]

abbrev reaches : Role → Option String → Bool
reaches minimum none = false
reaches minimum (some role) = leb (role_order minimum) (role_rank role)

unfoldable pub has_company_role : Db → User → ℕ → Role → Bool
has_company_role db user company_id minimum = reaches minimum (get_company_role db user company_id)

unfoldable pub has_company_access : Db → User → ℕ → Role → Bool
has_company_access db user company_id minimum =
    is_global_admin user || has_company_role db user company_id minimum

-- The company comes in as `db.get(Company, company_id)` found it.
unfoldable pub require_company : Db → User → Option Company → Role → Result Company
require_company db user none minimum = err (http_exception 404 "company not found")
require_company db user (some company) minimum =
    if has_company_access db user company.id minimum
    then ok company
    else err (http_exception 404 "company not found")

unfoldable pub require_admin : User → Result (Unit {0})
require_admin user =
    if user.role == "administrator"
    then ok tt
    else err (http_exception 403 "administrator access required")
