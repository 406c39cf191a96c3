-- ===== src/Ipblock.antt =====
-- The package ipblock: blocks on IP addresses and address ranges.
pub mod Address
pub mod Covering
pub mod BlockSet
pub mod Memory
pub mod Cache
pub mod DocumentList
mod Examples
use blue.Prelude.{Text, Bool, true, false, if◌then◌else◌}

-- What a call refuses, and the errors that the reader behind a cache and a context return.
pub data Error : Type 0 where
  invalid_prefix invalid_address would_expire not_blocked cancelled : Error
  source_error service_error : Text → Error

-- What a call comes to: the error that it returns, or else its value.
pub data Result {ℓ} (A : Type ℓ) : Type ℓ where
  err : Error → Result A
  ok : A → Result A

infixl 5 ◌>>=◌ ◌>>◌
abbrev pub ◌>>=◌ {ℓ κ} : {A : Type ℓ} {B : Type κ} → Result A → (A → Result B) → Result B
err e >>= next = err e
ok x >>= next = next x

-- A check, and what follows where it has passed.
abbrev pub ◌>>◌ {ℓ} : {B : Type ℓ} → Result (Unit {0}) → Result B → Result B
err e >> next = err e
ok tt >> next = next

-- A test of which the true case returns an error.
abbrev pub refuse : Bool → Error → Result (Unit {0})
refuse bad e = if bad then err e else ok tt
