-- ===== src/Identity/Tokens.antt =====
-- backend/app/core/security.py: what tokens say. Signing, digests and password hashing are those of
-- PyJWT, hashlib and passlib.
use credit_iq_ai.Prelude.{ℕ, ◌+◌, ◌*◌, String, Bool, Option, some, none, List}

pub data TokenType : Type 0 where
  access refresh mfa_challenge : TokenType

-- The claims of an access token alone.
pub record Scope : Type 0 where
  pub org_id : ℕ
  pub home_org_id : ℕ
  pub branch_id : Option ℕ
  pub applicant_id : Option ℕ
  pub roles : List String
  pub perms : List String

-- The issuer and the audience are constants that encoding adds and decoding demands.
pub record Payload : Type 0 where
  pub sub : ℕ
  pub token_type : TokenType
  pub jti : ℕ
  pub exp : ℕ
  pub scope : Option Scope

-- `decode` has the present time, and answers nothing for what PyJWT rejects.
pub record Codec : Type 0 where
  pub encode : Payload → String
  pub decode : ℕ → String → Option Payload
  pub hash_token : String → String
  pub verify_password : String → String → Bool

pub record TokenSettings : Type 0 where
  pub access_token_expire_minutes : ℕ
  pub refresh_token_expire_days : ℕ
  pub mfa_challenge_expire_minutes : ℕ

-- `home_org_id or org_id`
abbrev pub home_or : Option ℕ → ℕ → ℕ
home_or none org_id = org_id
home_or (some k) org_id = k

module _ (codec : Codec) (settings : TokenSettings) where
  unfoldable pub create_access_token :
      ℕ → ℕ → ℕ → ℕ → Option ℕ → Option ℕ → List String → List String → Option ℕ → String
  create_access_token now jti user_id org_id branch_id applicant_id roles permissions home_org_id =
      codec.encode (record {
        sub = user_id;
        token_type = access;
        jti = jti;
        exp = now + 60 * settings.access_token_expire_minutes;
        scope = some (record {
          org_id = org_id;
          home_org_id = home_or home_org_id org_id;
          branch_id = branch_id;
          applicant_id = applicant_id;
          roles = roles;
          perms = permissions;
        });
      })

  unfoldable pub create_refresh_token : ℕ → ℕ → ℕ → String × ℕ
  create_refresh_token now user_id jti =
      let expires = now + 86400 * settings.refresh_token_expire_days in
      (
        codec.encode (record {
          sub = user_id;
          token_type = refresh;
          jti = jti;
          exp = expires;
          scope = none;
        }),
        expires,
      )

  unfoldable pub create_mfa_challenge_token : ℕ → ℕ → ℕ → String
  create_mfa_challenge_token now jti user_id = codec.encode (record {
    sub = user_id;
    token_type = mfa_challenge;
    jti = jti;
    exp = now + 60 * settings.mfa_challenge_expire_minutes;
    scope = none;
  })
