-- ===== src/Organizations/Suspension.antt =====
-- Suspending a tenant stops the requests that an access token authenticates in it. Logins, second
-- steps and refreshes do not look at the status of the tenant.
use credit_iq_ai.Prelude.{
  some-injective, ◌≡◌, refl, sym, ap, subst, ◌∙◌, ℕ, String, true, false, ◌&&◌, ◌==◌, some, find,
  find-update_found,
}
use credit_iq_ai.Shared.{OrgStatus}
use credit_iq_ai.Errors.{
  ok, err, AppError, refused, raise_if, or_raise, or_raise-found, >>=-ok_inv, ok-injective,
}
use credit_iq_ai.Store.{Organization, Db, is_operating, get_organization_row, record_audit}
use credit_iq_ai.Access.{CurrentUser}
use credit_iq_ai.Identity.Requests.{Directory, get_active_current_user}
use credit_iq_ai.Identity.Requests.Live.{get_active_current_user-IsLive}
use credit_iq_ai.Organizations.{is_suspension, with_org_status, update_organization_status}

suspended_row :
    (db : Db) (user : CurrentUser) (k : ℕ) (reason : String) {r : Organization × Db}
    → update_organization_status db user k OrgStatus.suspended reason ≡ ok r
    → (o : Organization) × (find (λ x. x.id == k) r.1.organizations
        ≡ some (with_org_status OrgStatus.suspended o))
unfolding update_organization_status record_audit get_organization_row
suspended_row db user k reason {r} h =
    let (u, hu, h1) =
      >>=-ok_inv (raise_if (k == user.org_id && is_suspension OrgStatus.suspended) _) _ h in
    let (o, ho, h2) = >>=-ok_inv (or_raise (get_organization_row db k) _) _ h1 in
    let rows = ap (λ x. x.1.organizations) (ok-injective h2) in
    (
      o,
      subst (λ xs. find (λ x. x.id == k) xs ≡ some (with_org_status OrgStatus.suspended o)) rows
          (find-update_found (λ x. x.id == k) (with_org_status OrgStatus.suspended) db.organizations
            (λ x. refl) (or_raise-found _ _ ho)),
    )

stopped_row :
    (o : Organization) {a : Organization}
    → some (with_org_status OrgStatus.suspended o) ≡ some a
    → is_operating a ≡ false
stopped_row o e = sym (ap is_operating (some-injective e))

-- In the tables that the suspension of a tenant leaves, the authentication of a request by an
-- access token is refused for every token whose tenant is that one, whoever bears it.
pub suspended_is_refused :
    (db : Db) (user : CurrentUser) (k : ℕ) (reason : String) {r : Organization × Db}
    → update_organization_status db user k OrgStatus.suspended reason ≡ ok r
    → (dir : Directory) (claimed : CurrentUser) → dir.organizations ≡ r.1.organizations
    → claimed.org_id ≡ k
    → (e : AppError) × (get_active_current_user dir claimed ≡ err e)
suspended_is_refused db user k reason {r} h dir claimed shared in_tenant =
    refused (get_active_current_user dir claimed) (λ u hu.
      let (live, _, same_org) = get_active_current_user-IsLive dir claimed hu in
      let (o, ho) = suspended_row db user k reason h in
      let seen : find (λ x. x.id == k) r.1.organizations ≡ some live.organization =
        subst (λ i. find (λ x. x.id == i) r.1.organizations ≡ some live.organization)
          (same_org ∙ in_tenant)
          (subst (λ xs. find (λ x. x.id == u.org_id) xs ≡ some live.organization) shared
            live.org_found) in
      let both : some (with_org_status OrgStatus.suspended o) ≡ some live.organization =
        sym ho ∙ seen in
      let operating : is_operating live.organization ≡ true = live.org_active in
      let stopped : is_operating live.organization ≡ false = stopped_row o both in
      sym operating ∙ stopped)
