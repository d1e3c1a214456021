-- ===== src/Sts/Credentials.antt =====
-- pkg/aws/sts/credentials.go.

use kiam.Base.Text.{Text, codes}

pub record Credentials : Type 0 where
  pub code : Text
  pub type : Text
  pub access_key_id : Text
  pub secret_access_key : Text
  pub token : Text
  pub expiration : Text
  pub last_updated : Text

module _ {Time : Type 0} (format : Time → Text) (now : Time) where
  -- NewCredentials; `format` is time.Format with the layout, `now` what time.Now returns.
  unfoldable pub new_credentials : Text → Text → Text → Time → Credentials
  new_credentials access_key secret_key token expiry = record {
    code = codes "Success";
    type = codes "AWS-HMAC";
    access_key_id = access_key;
    secret_access_key = secret_key;
    token = token;
    expiration = format expiry;
    last_updated = format now;
  }
