-- ===== src/Access/Laws.antt =====
-- dashboard/app/rbac.py, dashboard/app/deps.py: the order of the roles, and users without a membership.
use opnsense_hub.Base.{
  ℕ, ◌≤◌, ◌≡◌, true, ◌&&◌, none, some, arith, All, List, [], ◌∷◌, ◌==◌, nat_eq, string_eq, find,
  eq_iff, ◌≢◌,
}
use opnsense_hub.Models.{User, Company, CompanyUser, Db}
use opnsense_hub.Access.{
  Role, role_order, is_global_admin, get_company_role, has_company_role, has_company_access,
  require_company,
}

-- Access at one minimum gives access at every lower one.
pub has_company_access_mono :
    (db : Db) (user : User) (company_id : ℕ) (low high : Role)
    → role_order low ≤ role_order high
    → has_company_access db user company_id high ≡ true
    → has_company_access db user company_id low ≡ true
unfolding has_company_access has_company_role
has_company_access_mono db user company_id low high le h = ground arith

find_membership :
    (user_id company_id : ℕ) (ms : List CompanyUser)
    → All (λ m. m.user_id ≡ user_id → m.company_id ≢ company_id) ms
    → find (λ (m : CompanyUser). m.user_id == user_id && m.company_id == company_id) ms ≡ none
unfolding find
find_membership user_id company_id [] h = ground arith
find_membership user_id company_id (m ∷ ms) h =
    ground (arith, find_membership user_id company_id ms h.1)

no_membership :
    (db : Db) (user : User) (company_id : ℕ)
    → All (λ m. m.user_id ≡ user.id → m.company_id ≢ company_id) db.company_users
    → get_company_role db user company_id ≡ none
unfolding get_company_role
no_membership db user company_id k =
    rw (find_membership user.id company_id db.company_users k, get_company_role)

-- A user who is no global administrator and has no membership in the company gets 404 for it,
-- which is also the answer for a company that does not exist.
pub require_company-outsider :
    (db : Db) (user : User) (company : Company) (minimum : Role)
    → user.role ≢ "administrator"
    → All (λ m. m.user_id ≡ user.id → m.company_id ≢ company.id) db.company_users
    → require_company db user (some company) minimum ≡ require_company db user none minimum
unfolding require_company has_company_access has_company_role is_global_admin
require_company-outsider db user company minimum h k =
    ground (arith, no_membership db user company.id k, eq_iff user.role "administrator")
