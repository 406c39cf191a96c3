-- ===== src/Document/Outcome.antt =====
-- What a call of a document service comes to: a value, an error of document/errors.go or another one, or
-- a panic.
use blue.Prelude.{Text, Option, none, some, ◌≡◌, refl}

pub data Failure : Type 0 where
  not_found already_exists precondition_failed permission_denied : Failure
  not_decoded bad_value : Failure
  other_failure : Text → Failure

pub data Outcome {ℓ} (A : Type ℓ) : Type ℓ where
  done : A → Outcome A
  failed : Failure → Outcome A
  crashed : Outcome A

infixl 5 ◌>>=◌
abbrev pub ◌>>=◌ {ℓ κ} : {A : Type ℓ} {B : Type κ} → Outcome A → (A → Outcome B) → Outcome B
crashed >>= next = crashed
failed e >>= next = failed e
done x >>= next = next x

-- A value that may be missing.
abbrev pub answer_or {ℓ κ} :
    {A : Type ℓ} {B : Type κ} → Outcome B → (A → Outcome B) → Option A → Outcome B
answer_or missing next none = missing
answer_or missing next (some a) = next a

-- A call that answered goes on.
pub >>=-eq-done {ℓ κ} :
    {A : Type ℓ} {B : Type κ} (r : Outcome A) (next : A → Outcome B) {b : B}
    → (r >>= next) ≡ done b
    → (a : A) × (r ≡ done a) × (next a ≡ done b)
>>=-eq-done (done x) next h = (x, refl, h)
>>=-eq-done (failed e) next h = absurd (cc h)
>>=-eq-done crashed next h = absurd (cc h)
