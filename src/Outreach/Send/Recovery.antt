-- ===== src/Outreach/Send/Recovery.antt =====
-- The recipient's address, recovered from its ciphertext and verified against the fingerprint
-- (packages/outreach/src/application/outreach-execution.service.ts).
use vega_revenue_os.Prelude.{
  ℕ, String, Bool, true, false, not, ◌&&◌, ◌||◌, Option, none, some, List, [], ◌∷◌, is_missing, leb,
  ltb, ◌==◌, ◌+◌, if◌then◌else◌,
}
use Prim.Native.Char.{code}
use text.Mathlib.Text.{◌==◌ as str_eq}
use vega_revenue_os.Outreach.Recipient.{ProtectionState}
use vega_revenue_os.Outreach.Execution.State.{Execution}
use vega_revenue_os.Outreach.Send.World.{Call}

-- A split text: the part that is open, and the parts after it.
abbrev first_part : List String → String
first_part [] = ""
first_part (p ∷ ps) = p

abbrev later_parts : List String → List String
later_parts [] = []
later_parts (p ∷ ps) = ps

abbrev full_stop : ℕ
full_stop = 46

-- `text.split('.')`.
unfoldable pub split : String → List String
split String.[] = "" ∷ []
split (String.◌∷◌ c s) =
    let rest = split s in
    if code c == full_stop then "" ∷ rest else String.◌∷◌ c (first_part rest) ∷ later_parts rest

-- `[A-Za-z0-9_-]`.
abbrev is_version_char : ℕ → Bool
is_version_char c =
    (leb 65 c && leb c 90)
    || (leb 97 c && leb c 122)
    || (leb 48 c && leb c 57)
    || c == 95
    || c == 45

-- Every character is one of a version, and how many there are.
unfoldable version_chars : String → Bool
version_chars String.[] = true
version_chars (String.◌∷◌ c s) = is_version_char (code c) && version_chars s

unfoldable size : String → ℕ
size String.[] = 0
size (String.◌∷◌ c s) = size s + 1

-- `/^[A-Za-z0-9_-]{1,64}$/`.
unfoldable is_version : String → Bool
unfolding version_chars size
is_version s = version_chars s && ltb 0 (size s) && leb (size s) 64

abbrev is_protected : ProtectionState → Bool
is_protected ProtectionState.protected = true
is_protected ProtectionState.legacy_unavailable = false

-- The version of a fingerprint `h1.version.digest`.
unfoldable fingerprint_version : String → Option String
unfolding split is_version
fingerprint_version s = elim (split s) [
  | prefix ∷ version ∷ digest ∷ [] ↦
      if str_eq prefix "h1" && is_version version then some version else none
  | _ ↦ none
]

-- The code reads a text that is empty as one that is missing.
abbrev present : Option String → Option String
present s = if is_missing s then none else s

infixl 5 ◌>>=◌
abbrev ◌>>=◌ : {A B : Type 0} → Option A → (A → Option B) → Option B
none >>= f = none
some a >>= f = f a

-- `recoverAndVerifyRecipient`; none is an exception. Two buffers are equal if their texts are.
unfoldable pub recover_and_verify_recipient :
    {D : Type 0} {L : Type 0} {R : Type 0} → Call D L R → Execution → Option String
unfolding fingerprint_version
recover_and_verify_recipient k x =
    if not (is_protected x.key.recipient_protection_state) then none else (do
      ciphertext ← present x.key.recipient_ciphertext
      fingerprint ← present x.key.recipient_fingerprint
      version ← fingerprint_version fingerprint
      recovered ← k.recover_email x.root.tenant_id ciphertext
      verified ← k.fingerprint_email x.root.tenant_id recovered version
      if str_eq fingerprint verified then some recovered else none)
