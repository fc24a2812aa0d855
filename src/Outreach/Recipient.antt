-- ===== src/Outreach/Recipient.antt =====
-- The protected identity of a recipient
-- (packages/domain/src/outreach/value-objects/protected-recipient.ts).
use vega_revenue_os.Prelude.{String, Option, none, some, is_missing, if◌then◌else◌}

pub data ProtectionState : Type 0 where
  protected legacy_unavailable : ProtectionState

-- The errors that are thrown for a recipient.
pub data RecipientError : Type 0 where
  fingerprint_required legacy_fingerprint ciphertext_required legacy_ciphertext : RecipientError

-- `assertProtectedRecipient`: `none` where it returns.
unfoldable pub assert_protected_recipient : ProtectionState → Option String → Option RecipientError
assert_protected_recipient protected fingerprint =
    if is_missing fingerprint then some fingerprint_required else none
assert_protected_recipient legacy_unavailable fingerprint =
    if is_missing fingerprint then none else some legacy_fingerprint

-- The second half of `assertProtectedRecipientSnapshot`.
unfoldable pub assert_ciphertext : ProtectionState → Option String → Option RecipientError
assert_ciphertext protected ciphertext =
    if is_missing ciphertext then some ciphertext_required else none
assert_ciphertext legacy_unavailable ciphertext =
    if is_missing ciphertext then none else some legacy_ciphertext

-- `assertProtectedRecipientSnapshot`.
unfoldable pub assert_snapshot :
    ProtectionState → Option String → Option String → Option RecipientError
unfolding assert_protected_recipient assert_ciphertext
assert_snapshot state fingerprint ciphertext = elim (assert_protected_recipient state fingerprint) [
  | some e ↦ some e
  | none ↦ assert_ciphertext state ciphertext
]
