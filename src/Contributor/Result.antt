-- ===== src/Contributor/Result.antt =====
-- What a call of the package contributor comes to: a value, an error that it returns, or a panic.
-- The errors keep what tells the messages apart, not their wording.
use blue.Prelude.{Text, Bool, true, false, ◌≡◌, refl}

pub data Error : Type 0 where
  -- month.go
  month_not_parsed month_not_canonical : Text → Error
  -- program.go
  program_missing_version program_missing_currency program_bps_out_of_range : Error
  program_bad_duration program_bad_due_days : Error
  program_effective_from : Error → Error
  -- participant.go
  participant_missing_account participant_missing_handle : Error
  participant_missing_agreement participant_unknown_status : Error
  -- award.go
  award_no_recipients award_missing_account : Error
  award_bad_credits award_duplicate_recipient : Text → Error
  award_activation award_expiration : Error → Error
  award_expires_early award_missing_evidence award_missing_policy award_unknown_status : Error
  -- receipt.go
  receipt_missing_source : Error
  receipt_month : Error → Error
  receipt_negative_gross receipt_missing_currency : Error
  receipt_unknown_adjustment receipt_negative_adjustment : Error
  -- obligation.go
  illegal_transition : Error
  -- engine.go
  award_invalid : Text → Error → Error
  negative_pool : Error
  negative_credits : Text → Error
  version_mismatch not_effective foreign_receipt foreign_currency : Error
  -- verify.go
  policy_differs calculation_differs currency_differs pool_differs : Error
  duplicate_account denominator_differs count_differs entitlement_differs : Error
  allocation_failed : Error → Error
  unallocated_differs : Error
  -- document/errors.go, and any other failure of a document service
  not_found already_exists : Error
  service_failed : Text → Error
  -- document_store.go
  list_failed invalid_round invalid_obligation : Error → Error
  award_has_id award_missing_id obligation_missing_account : Error
  -- ledger.go
  program_for : Text → Error → Error
  round_closed not_ended : Text → Error
  out_of_order : Text → Error
  obligation_failed : Text → Text → Error → Error
  -- admin.go
  program_not_configured participant_not_found award_not_found : Text → Error
  award_already_decided : Error
  receipt_failed : Text → Error → Error

pub data Result {ℓ} (A : Type ℓ) : Type ℓ where
  ok : A → Result A
  err : Error → Result A
  panic : Result A

infixl 5 ◌>>=◌ ◌>>◌
abbrev pub ◌>>=◌ {ℓ κ} : {A : Type ℓ} {B : Type κ} → Result A → (A → Result B) → Result B
ok a >>= f = f a
err e >>= f = err e
panic >>= f = panic

abbrev pub ◌>>◌ {ℓ} : {B : Type ℓ} → Result (Unit {0}) → Result B → Result B
m >> k = m >>= λ _. k

-- `if bad { return e }`
abbrev pub refuse : Bool → Error → Result (Unit {0})
refuse true e = err e
refuse false e = ok tt

-- `if err := r; err != nil { return wrap(err) }`
abbrev pub wrap_error {ℓ} : {A : Type ℓ} → (Error → Error) → Result A → Result A
wrap_error f (ok a) = ok a
wrap_error f (err e) = err (f e)
wrap_error f panic = panic

-- Inversion of a chain that returned a value.
pub >>=-eq-ok {ℓ κ} :
    {A : Type ℓ} {B : Type κ} (r : Result A) (f : A → Result B) {b : B}
    → (r >>= f) ≡ ok b
    → (a : A) × (r ≡ ok a) × (f a ≡ ok b)
>>=-eq-ok (ok a) f h = (a, refl, h)
>>=-eq-ok (err e) f h = absurd (cc h)
>>=-eq-ok panic f h = absurd (cc h)

pub refuse-eq-ok {ℓ} :
    {B : Type ℓ} (bad : Bool) (e : Error) (k : Result B) {b : B}
    → (refuse bad e >> k) ≡ ok b
    → (bad ≡ false) × (k ≡ ok b)
refuse-eq-ok true e k h = absurd (cc h)
refuse-eq-ok false e k h = (refl, h)

pub >>-eq-ok {ℓ} :
    {B : Type ℓ} (r : Result (Unit {0})) (k : Result B) {b : B}
    → (r >> k) ≡ ok b
    → (r ≡ ok tt) × (k ≡ ok b)
>>-eq-ok (ok tt) k h = (refl, h)
>>-eq-ok (err e) k h = absurd (cc h)
>>-eq-ok panic k h = absurd (cc h)

pub wrap_error-eq-ok {ℓ} :
    {A : Type ℓ} (f : Error → Error) (r : Result A) {a : A} → wrap_error f r ≡ ok a → r ≡ ok a
wrap_error-eq-ok f (ok a) h = h
wrap_error-eq-ok f (err e) h = absurd (cc h)
wrap_error-eq-ok f panic h = absurd (cc h)
