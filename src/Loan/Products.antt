-- ===== src/Loan/Products.antt =====
-- backend/app/modules/loan/products.py: the limits that an application must meet.
use credit_iq_ai.Prelude.{ℕ, not, ◌&&◌, Option, none, some, leb, ◌==◌, if◌then◌else◌}
use credit_iq_ai.Prelude.Int.{ℤ, leb_ℤ}
use credit_iq_ai.Errors.{Result, ok, err, not_found, domain_rule, raise_if, ◌>>◌}
use credit_iq_ai.Store.{LoanProduct, Db, get_product_row}

abbrev owned_product : ℕ → Option LoanProduct → Result LoanProduct
owned_product org_id none = err (not_found "Loan product not found")
owned_product org_id (some p) =
    if not (p.organization_id == org_id) then err (not_found "Loan product not found") else ok p

unfoldable pub get_product : Db → ℕ → ℕ → Result LoanProduct
get_product db org_id product_id = owned_product org_id (get_product_row db product_id)

unfoldable pub validate_application : LoanProduct → ℤ → ℕ → Result (Unit {0})
validate_application product amount tenor_months = do
  raise_if (not product.is_active) (domain_rule "Selected loan product is inactive")
  raise_if (not (leb_ℤ product.min_amount amount && leb_ℤ amount product.max_amount))
      (domain_rule "Loan amount is outside the selected product limits")
  raise_if
      (not (leb product.min_tenor_months tenor_months && leb tenor_months product.max_tenor_months))
      (domain_rule "Loan tenor is outside the selected product limits")
