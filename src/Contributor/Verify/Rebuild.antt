-- ===== src/Contributor/Verify/Rebuild.antt =====
-- VerifyRound of contributor/verify.go rebuilds, from published entitlements, the map of credits
-- that they were allocated from.
use blue.Prelude.{
  ℕ, zero, suc, ◌+◌, ◌^◌, ◌<◌, ◌≡◌, refl, sym, ap, ◌∙◌, Text, text_eq, text_eq→eq, text_eq_sym, ℤ,
  pos, pos_part, eqb_ℤ, ==_iff, stable_sort, add64-pos, false, not, ◌||◌, List, [], ◌∷◌, ◌++◌, map,
  All, sum_by, mem_text, mem_text-stable_sort, Distinct, stable_sort-Ascending, Ascending-Distinct,
  Bool-cases, inl, inr, if◌then◌else◌, arith,
}
use mathlib.Core.List.{append_assoc, append-nil}
use mathlib.Core.Path.{ap₂}
use blue.Contributor.Result.{Result, ok}
use blue.Contributor.Round.{Entitlement}
use blue.Contributor.Engine.{Credits, credits_of, entitle, increment, give, distribute, allocate}
use blue.Contributor.Engine.Holders.{
  value, holds, DistinctKeys, AreCredits, holders, credits_of-pos,
}
use blue.Contributor.Engine.Exact.{sorted_holders}
use blue.Contributor.Engine.Deterministic.{
  SameMap, mem_text-holders, Distinct-holders, allocate-cases,
}
use blue.Contributor.Verify.{claimed}

-- The accounts and credits of entitlements.
abbrev pub entries : List Entitlement → Credits
entries = map (λ e. (e.account, e.credits))

entries-increment : (i : ℕ) (es : List Entitlement) → entries (increment i es) ≡ entries es
unfolding increment
entries-increment i [] = refl
entries-increment zero (e ∷ es) = refl
entries-increment (suc i) (e ∷ es) = ap (λ r. (e.account, e.credits) ∷ r) (entries-increment i es)

entries-give :
    (k : ℕ) (order : List ℕ) (es : List Entitlement) {result : List Entitlement}
    → give k order es ≡ ok result
    → entries result ≡ entries es
unfolding give
entries-give zero order es h = cc h
entries-give (suc k) [] es h = absurd (cc h)
entries-give (suc k) (i ∷ order) es h =
    entries-give k order (increment i es) h ∙ entries-increment i es

abbrev pub table : (Text → ℤ) → List Text → Credits
table f = map (λ a. (a, f a))

entries-entitle :
    (pool : ℤ) (credits : Credits) (total : ℤ) (accounts : List Text)
    → entries (map (entitle pool credits total) accounts) ≡ table (credits_of credits) accounts
unfolding entitle
entries-entitle pool credits total [] = refl
entries-entitle pool credits total (a ∷ accounts) =
    ap (λ r. (a, credits_of credits a) ∷ r) (entries-entitle pool credits total accounts)

entries-distribute :
    (pool : ℤ) (credits : Credits) (total : ℤ) (accounts : List Text) {es : List Entitlement}
    → distribute pool credits total accounts ≡ ok es
    → entries es ≡ table (credits_of credits) accounts
unfolding distribute
entries-distribute pool credits total accounts h =
    entries-give _ _ _ h ∙ entries-entitle pool credits total accounts

no_holders :
    (credits : Credits) → AreCredits credits → sum_by value credits ≡ 0 → holders credits ≡ []
no_holders [] v h = refl
no_holders ((k, c) ∷ credits) v h = ground (arith, no_holders credits v.1)

sorted_none :
    (credits : Credits)
    → AreCredits credits
    → sum_by value credits ≡ 0
    → sorted_holders credits ≡ []
unfolding stable_sort
sorted_none credits v h = rw (no_holders credits v h)

no_entries :
    (es : List Entitlement) → ◌≡◌ {A = Result (List Entitlement)} (ok []) (ok es) → entries es ≡ []
no_entries es h = cc h

-- The entitlements list the accounts that have credits, in order, each with its credits.
pub entries-allocate :
    (credits : Credits) (pool : ℕ) {es : List Entitlement}
    → AreCredits credits
    → sum_by value credits < 2 ^ 63
    → allocate (pos pool) credits ≡ ok es
    → entries es ≡ table (credits_of credits) (sorted_holders credits)
entries-allocate credits pool {es} v fits h =
    elim (Bool-cases (eqb_ℤ (pos (sum_by value credits)) (pos 0))) [
      | inl e ↦
          rw (sorted_none credits v ((==_iff (sum_by value credits) 0).0 e))
            (no_entries es (rw e at (sym (allocate-cases credits pool v fits) ∙ h)))
      | inr e ↦
          entries-distribute (pos pool) credits _ (sorted_holders credits)
            (rw e at (sym (allocate-cases credits pool v fits) ∙ h))
    ]

credits_of-table :
    (f : Text → ℤ) (xs : List Text) (a : Text)
    → credits_of (table f xs) a ≡ (if mem_text xs a then f a else pos 0)
unfolding credits_of
credits_of-table f [] a = refl
credits_of-table f (x ∷ xs) a = elim (Bool-cases (text_eq x a)) [
  | inl e ↦ rw e (ap f (text_eq→eq x a e))
  | inr e ↦ rw e (credits_of-table f xs a)
]

holds-table : (f : Text → ℤ) (xs : List Text) (a : Text) → holds (table f xs) a ≡ mem_text xs a
holds-table f [] a = refl
holds-table f (x ∷ xs) a = ap (λ b. text_eq x a || b) (holds-table f xs a)

DistinctKeys-table : (f : Text → ℤ) (xs : List Text) → Distinct xs → DistinctKeys (table f xs)
DistinctKeys-table f [] d = tt
DistinctKeys-table f (x ∷ xs) d = (holds-table f xs x ∙ d.0, DistinctKeys-table f xs d.1)

nonzero_or_zero : (z : ℤ) → (if not (eqb_ℤ z (pos 0)) then z else pos 0) ≡ z
nonzero_or_zero z = ground arith

module _ (credits : Credits) (distinct : DistinctKeys credits) (v : AreCredits credits) where
  pub rebuilt-SameMap : SameMap (table (credits_of credits) (sorted_holders credits)) credits
  rebuilt-SameMap a =
      credits_of-table (credits_of credits) (sorted_holders credits) a
      ∙ rw (mem_text-stable_sort (holders credits) a, mem_text-holders credits a distinct)
          (nonzero_or_zero (credits_of credits a))

  pub rebuilt-Distinct : Distinct (sorted_holders credits)
  rebuilt-Distinct =
      Ascending-Distinct (sorted_holders credits)
        (stable_sort-Ascending (holders credits) (Distinct-holders credits distinct))

  pub rebuilt-DistinctKeys : DistinctKeys (table (credits_of credits) (sorted_holders credits))
  rebuilt-DistinctKeys =
      DistinctKeys-table (credits_of credits) (sorted_holders credits) rebuilt-Distinct

  pub rebuilt-AreCredits : (xs : List Text) → AreCredits (table (credits_of credits) xs)
  rebuilt-AreCredits [] = tt
  rebuilt-AreCredits (x ∷ xs) = (credits_of-pos credits x v, rebuilt-AreCredits xs)

holds-append :
    (acc : Credits) (k : Text) (c : ℤ) (a : Text)
    → holds (acc ++ (k, c) ∷ []) a ≡ (holds acc a || text_eq k a)
holds-append [] k c a = ground arith
holds-append ((j, d) ∷ acc) k c a = ground (arith, holds-append acc k c a)

abbrev pub accounts_of : List Entitlement → List Text
accounts_of = map (λ e. e.account)

still_free :
    (acc : Credits) (k : Text) (c : ℤ) (es : List Entitlement)
    → mem_text (accounts_of es) k ≡ false
    → All (λ e. holds acc e.account ≡ false) es
    → All (λ e. holds (acc ++ (k, c) ∷ []) e.account ≡ false) es
still_free acc k c [] m h = tt
still_free acc k c (e ∷ es) m h = (
  ground (arith, holds-append acc k c e.account, text_eq_sym k e.account),
  still_free acc k c es (ground arith) h.1,
)

-- The loop over entitlements with different accounts collects all of them.
pub claimed-eq :
    (acc : Credits) (total : ℕ) (es : List Entitlement)
    → Distinct (accounts_of es)
    → All (λ e. holds acc e.account ≡ false) es
    → AreCredits (entries es)
    → total + sum_by value (entries es) < 2 ^ 63
    → claimed acc (pos total) es ≡ ok (acc ++ entries es, pos (total + sum_by value (entries es)))
unfolding claimed
claimed-eq acc total [] d free v fits =
    ap₂ (λ (c : Credits) (n : ℕ). ok (c, pos n)) (sym (append-nil acc)) (omega arith)
claimed-eq acc total (e ∷ es) d free v fits =
    rw (free.0, v.0, add64-pos total (pos_part e.credits) (omega arith))
      (claimed-eq (acc ++ (e.account, pos (pos_part e.credits)) ∷ []) (total + pos_part e.credits)
          es d.1 (still_free acc e.account _ es d.0 free.1) v.1 (omega arith)
        ∙ ap₂ (λ (c : Credits) (n : ℕ). ok (c, pos n))
            (append_assoc acc ((e.account, pos (pos_part e.credits)) ∷ []) (entries es))
            (omega arith))
