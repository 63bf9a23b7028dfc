-- ===== src/Identity/Mfa.antt =====
-- backend/app/modules/identity/service.py: enrollment and verification of one-time codes. The codes
-- are those of pyotp, the encryption is that of cryptography.
use credit_iq_ai.Prelude.{
  ◌≡◌, sym, ℕ, ◌+◌, ◌-◌, ◌*◌, ◌/◌, ◌≤◌, String, Bool, true, false, not, Option, some, none, List,
  [], ◌∷◌, leb, find, All, find-holds, find-All, arith, if◌then◌else◌,
}
use credit_iq_ai.Prelude.Text.{same}
use credit_iq_ai.Errors.{
  Result, ok, err, raise_if, or_raise, or_raise-found, ◌>>=◌, ◌>>◌, >>=-ok_inv, ok-injective,
  raise_if-passed, authentication, conflict,
}
use credit_iq_ai.Identity.Users.{User}

-- `at` is the code of a secret at a time; `decrypt` answers nothing for a text that is not one of
-- its own.
pub record Authenticator : Type 0 where
  pub interval : ℕ
  pub at : String → ℕ → String
  pub encrypt : String → String
  pub decrypt : String → Option String

module _ (otp : Authenticator) where
  abbrev stored_secret : Option String → Result String
  stored_secret none = err (authentication "MFA enrollment is incomplete")
  stored_secret (some text) =
      if same text ""
      then err (authentication "MFA enrollment is incomplete")
      else or_raise (otp.decrypt text) (authentication "MFA secret cannot be decrypted")

  unfoldable pub decrypt_mfa_secret : User → Result String
  decrypt_mfa_secret user = stored_secret user.mfa_secret_encrypted

  -- The new secret is drawn by the caller.
  unfoldable pub begin_mfa_enrollment : String → User → Result User
  begin_mfa_enrollment secret user = do
    raise_if user.mfa_enabled (conflict "Disable the existing MFA enrollment before replacing it")
    ok (record user {
      mfa_secret_encrypted = some (otp.encrypt secret);
      mfa_enabled = false;
      mfa_last_verified_step = none;
    })

  -- The steps around the present one. The time is not in the first interval after 1970, where the
  -- step before would be negative.
  abbrev pub steps_around : ℕ → List ℕ
  steps_around current_step = (current_step - 1) ∷ current_step ∷ (current_step + 1) ∷ []

  abbrev pub matches : String → String → ℕ → Bool
  matches secret code step = same (otp.at secret (step * otp.interval)) code

  abbrev pub is_used : Option ℕ → ℕ → Bool
  is_used none step = false
  is_used (some last) step = leb step last

  unfoldable pub verify_mfa_code_once : ℕ → User → String → Result User
  verify_mfa_code_once now user code = do
    secret ← decrypt_mfa_secret user
    step ←
        or_raise (find (matches secret code) (steps_around (now / otp.interval)))
          (authentication "Invalid MFA code")
    raise_if (is_used user.mfa_last_verified_step step)
        (authentication "MFA code has already been used")
    ok (record user { mfa_last_verified_step = some step })

  unfoldable pub confirm_mfa_enrollment : ℕ → User → String → Result User
  confirm_mfa_enrollment now user code = do
    verified ← verify_mfa_code_once now user code
    ok (record verified { mfa_enabled = true })

  unfoldable pub disable_mfa : ℕ → User → String → Result User
  disable_mfa now user code = do
    raise_if (not user.mfa_enabled) (conflict "MFA is not enabled")
    verified ← verify_mfa_code_once now user code
    ok (record verified {
      mfa_enabled = false;
      mfa_secret_encrypted = none;
      mfa_last_verified_step = none;
    })

  abbrev pub IsNear : ℕ → ℕ → Type 0
  IsNear current step = (current ≤ step + 1) × (step ≤ current + 1)

  -- What an accepted code was.
  pub record IsAccepted (now : ℕ) (user : User) (code : String) (after : User) : Type 0 where
    pub secret : String
    pub is_secret : decrypt_mfa_secret user ≡ ok secret
    pub step : ℕ
    pub is_code : same (otp.at secret (step * otp.interval)) code ≡ true
    pub is_near : IsNear (now / otp.interval) step
    pub is_unused : is_used user.mfa_last_verified_step step ≡ false
    pub is_recorded : after ≡ record user { mfa_last_verified_step = some step }

  around-IsNear : (current : ℕ) → All (IsNear current) (steps_around current)
  around-IsNear current = ground arith

  -- An accepted code is that of the present step or of a neighbour, for the user's own secret, and
  -- the step is past every step accepted before; it is recorded, and nothing else changes.
  pub verify_mfa_code_once-IsAccepted :
      (now : ℕ) (user : User) (code : String) {after : User}
      → verify_mfa_code_once now user code ≡ ok after
      → IsAccepted now user code after
  unfolding verify_mfa_code_once
  verify_mfa_code_once-IsAccepted now user code h =
      let (secret, hs, h1) = >>=-ok_inv (decrypt_mfa_secret user) _ h in
      let (step, hf, h2) =
        >>=-ok_inv (or_raise (find (matches secret code) (steps_around (now / otp.interval))) _) _
          h1 in
      let (u, hu, h3) = >>=-ok_inv (raise_if (is_used user.mfa_last_verified_step step) _) _ h2 in
      let found = or_raise-found _ _ hf in
      record {
        secret = secret;
        is_secret = hs;
        step = step;
        is_code = find-holds (matches secret code) (steps_around (now / otp.interval)) found;
        is_near =
            find-All (IsNear (now / otp.interval)) (matches secret code)
              (steps_around (now / otp.interval)) found (around-IsNear (now / otp.interval));
        is_unused = raise_if-passed _ _ hu;
        is_recorded = sym (ok-injective h3);
      }
