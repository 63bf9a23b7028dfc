-- ===== src/Fraud/Resolution.antt =====
-- What the resolution of an alert does, and that it is final.
use credit_iq_ai.Prelude.{
  some-injective, ◌≡◌, refl, sym, ap, subst, ◌∙◌, ℕ, ◌+◌, String, Bool, true, false, not, ◌&&◌,
  some, ◌==◌, arith, find, find-holds, find-update_found, update_first, length, length-append,
  and_left, and_right,
}
use credit_iq_ai.Shared.{FraudStatus}
use credit_iq_ai.Errors.{
  Result, ok, err, AppError, raise_if, raise_if-not_passed, or_raise, or_raise-found, >>=-ok_inv,
  ok-injective,
}
use credit_iq_ai.Store.{FraudAlert, Db, record_audit}
use credit_iq_ai.Access.{CurrentUser, branch_predicate}
use credit_iq_ai.Fraud.{
  FraudCase, FraudAlertOut, get_alert, in_tenant, joined_loan, is_resolution, is_open, resolved,
  resolve_alert, present_alert,
}

abbrev pub is_row : Db → CurrentUser → ℕ → FraudAlert → Bool
is_row db user k a = a.id == k && in_tenant db user a.organization_id

-- A case that a caller sees: of the caller's tenant, and on a loan in the caller's branch scope.
pub record IsVisible (db : Db) (user : CurrentUser) (k : ℕ) (c : FraudCase) : Type 0 where
  pub alert_found : find (is_row db user k) db.alerts ≡ some c.alert
  pub is_own : (c.alert.organization_id == user.org_id) ≡ true
  pub is_on_loan : (c.loan.id == c.alert.loan_id) ≡ true
  pub is_in_scope : branch_predicate user c.loan.branch_id ≡ true

get_alert-IsVisible :
    (db : Db) (user : CurrentUser) (k : ℕ) {c : FraudCase}
    → get_alert db user k ≡ ok c
    → IsVisible db user k c
unfolding get_alert
get_alert-IsVisible db user k {c} h =
    let (alert, ha, h1) = >>=-ok_inv (or_raise (find (is_row db user k) db.alerts) _) _ h in
    let (loan, hl, h2) = >>=-ok_inv (or_raise (find (joined_loan db user alert) db.loans) _) _ h1 in
    let (applicant, hp, h3) =
      >>=-ok_inv
        (or_raise
          (find (λ p. p.id == loan.applicant_id && in_tenant db user p.organization_id)
            db.applicants)
          _)
        _ h2 in
    let at = or_raise-found _ _ ha in
    let row = find-holds (is_row db user k) db.alerts at in
    let joined = find-holds (joined_loan db user alert) db.loans (or_raise-found _ _ hl) in
    subst (IsVisible db user k) (ok-injective h3) (record {
      alert_found = at;
      is_own = and_left _ _ (and_right _ _ row);
      is_on_loan = and_left _ _ (and_left _ _ joined);
      is_in_scope = and_right _ _ joined;
    })

-- What a resolution has passed and written.
pub record IsResolved (now : ℕ) (db : Db) (user : CurrentUser) (k : ℕ) (status : FraudStatus)
    (note : String) (r : FraudAlertOut × Db) : Type 0 where
  pub case : FraudCase
  pub is_visible : IsVisible db user k case
  pub was_open : is_open case.alert.status ≡ true
  pub is_final : is_resolution status ≡ true
  pub answers :
      r.0 ≡ present_alert (record case { alert = resolved now user status note case.alert })
  pub alerts :
      r.1.alerts ≡ update_first (is_row db user k) (resolved now user status note) db.alerts
  pub loans : r.1.loans ≡ db.loans
  pub current_org : r.1.current_org ≡ db.current_org
  pub audited : length r.1.audit_logs ≡ length db.audit_logs + 1

-- An alert is resolved only as confirmed or dismissed, only while it is open, and only by a caller
-- of its tenant in whose branch scope its loan is. The row then names the caller, the time and the
-- stripped note, loans are as before, and one audit entry is added.
pub resolve_alert-IsResolved :
    (now : ℕ) (db : Db) (user : CurrentUser) (k : ℕ) (status : FraudStatus) (note : String)
    {r : FraudAlertOut × Db}
    → resolve_alert now db user k status note ≡ ok r
    → IsResolved now db user k status note r
unfolding resolve_alert record_audit
resolve_alert-IsResolved now db user k status note {r} h =
    let (u, hs, h1) = >>=-ok_inv (raise_if (not (is_resolution status)) _) _ h in
    let (c, hc, h2) = >>=-ok_inv (get_alert db user k) _ h1 in
    let (u2, ho, h3) = >>=-ok_inv (raise_if (not (is_open c.alert.status)) _) _ h2 in
    let result = ok-injective h3 in
    record {
      case = c;
      is_visible = get_alert-IsVisible db user k hc;
      was_open = raise_if-not_passed _ _ ho;
      is_final = raise_if-not_passed _ _ hs;
      answers = sym (ap (λ x. x.0) result);
      alerts = sym (ap (λ x. x.1.alerts) result);
      loans = sym (ap (λ x. x.1.loans) result);
      current_org = sym (ap (λ x. x.1.current_org) result);
      audited = sym (ap (λ x. length x.1.audit_logs) result) ∙ length-append db.audit_logs _;
    }

refused :
    {A : Type 0} (res : Result A)
    → ((a : A) → res ≡ ok a → true ≡ false)
    → (e : AppError) × (res ≡ err e)
refused (err e) h = (e, refl)
refused (ok a) h = let bad = h a refl in cc

-- Two callers who both see an alert in one session are of one tenant.
same_row :
    (db : Db) (user other : CurrentUser) (k : ℕ) (a b : FraudAlert)
    → is_row db user k a ≡ true
    → is_row db other k b ≡ true
    → user.org_id ≡ other.org_id
same_row db user other k a b ha hb = ground arith

not_open : (s : FraudStatus) → is_resolution s ≡ true → is_open s ≡ true → true ≡ false
not_open s final open_still = ground arith

-- Once an alert is resolved, no caller resolves it again.
pub resolve_alert_final :
    (now : ℕ) (db : Db) (user : CurrentUser) (k : ℕ) (status : FraudStatus) (note : String)
    {r : FraudAlertOut × Db}
    → resolve_alert now db user k status note ≡ ok r
    → (now' : ℕ) (other : CurrentUser) (status' : FraudStatus) (note' : String)
    → (e : AppError) × (resolve_alert now' r.1 other k status' note' ≡ err e)
resolve_alert_final now db user k status note {r} h now' other status' note' =
    refused (resolve_alert now' r.1 other k status' note') (λ a h'.
      let first = resolve_alert-IsResolved now db user k status note h in
      let again = resolve_alert-IsResolved now' r.1 other k status' note' h' in
      let seen : find (is_row r.1 other k) r.1.alerts ≡ some again.case.alert =
        again.is_visible.alert_found in
      let seen' : find (is_row db other k) r.1.alerts ≡ some again.case.alert =
        subst
          (λ o.
            find (λ x. x.id == k && (x.organization_id == other.org_id && x.organization_id == o))
              r.1.alerts
            ≡ some again.case.alert)
          first.current_org seen in
      let tenant =
        same_row db user other k first.case.alert again.case.alert
          (find-holds _ db.alerts first.is_visible.alert_found)
          (find-holds (is_row db other k) r.1.alerts seen') in
      let seen_too : find (is_row db user k) r.1.alerts ≡ some again.case.alert =
        subst
          (λ o.
            find (λ x. x.id == k && (x.organization_id == o && x.organization_id == db.current_org))
              r.1.alerts
            ≡ some again.case.alert)
          (sym tenant) seen' in
      let written =
        subst
          (λ rows.
            find (is_row db user k) rows ≡ some (resolved now user status note first.case.alert))
          (sym first.alerts)
          (find-update_found (is_row db user k) (resolved now user status note) db.alerts
            (λ x. refl) first.is_visible.alert_found) in
      let both : some (resolved now user status note first.case.alert) ≡ some again.case.alert =
        sym written ∙ seen_too in
      let status_kept : status ≡ again.case.alert.status =
        ap (λ x. x.status) (some-injective both) in
      let still_open : is_open status ≡ true =
        subst (λ s. is_open s ≡ true) (sym status_kept) again.was_open in
      not_open status first.is_final still_open)
