-- ===== src/Identity/Credential.antt =====
-- backend/internal/identity/domain/credential.go and identifiers.go. An identifier is the 128-bit
-- number of its UUID, as in Transaction/Value.antt.
use ai_portfolio_research_as.Prelude.{Bool, true, not, ok, err, ◌==◌, length, if◌then◌else◌}
use ai_portfolio_research_as.Text.{Bytes, is_empty}
use ai_portfolio_research_as.Text.Blank.{is_blank}
use ai_portfolio_research_as.Transaction.Value.{Uuid, is_zero}
use ai_portfolio_research_as.Identity.Errors.{
  IdentityOutcome, invalid_user_id, invalid_session_id, invalid_token_family_id,
  invalid_password_hash, invalid_token_digest,
}

abbrev pub new_user_id : Uuid → IdentityOutcome Uuid
new_user_id value = if is_zero value then err invalid_user_id else ok value

abbrev pub new_session_id : Uuid → IdentityOutcome Uuid
new_session_id value = if is_zero value then err invalid_session_id else ok value

abbrev pub new_token_family_id : Uuid → IdentityOutcome Uuid
new_token_family_id value = if is_zero value then err invalid_token_family_id else ok value

pub record PasswordHash : Type 0 where
  pub encoded : Bytes

unfoldable pub new_password_hash : Bytes → IdentityOutcome PasswordHash
new_password_hash encoded =
    if is_blank encoded then err invalid_password_hash else ok (record { encoded = encoded })

abbrev pub hash_is_zero : PasswordHash → Bool
hash_is_zero hash = is_empty hash.encoded

-- The 32 bytes are there when `valid` is set.
pub record TokenDigest : Type 0 where
  pub value : Bytes
  pub valid : Bool

unfoldable pub new_token_digest : Bytes → IdentityOutcome TokenDigest
new_token_digest value =
    if not (length value == 32)
    then err invalid_token_digest
    else ok (record { value = value; valid = true })

abbrev pub digest_is_zero : TokenDigest → Bool
digest_is_zero digest = not digest.valid
