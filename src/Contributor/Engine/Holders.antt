-- ===== src/Contributor/Engine/Holders.antt =====
-- The first loop of Allocate in contributor/engine.go: the accounts with credits, and their sum.
use blue.Prelude.{
  ℕ, zero, suc, ◌+◌, ◌^◌, ◌≤◌, ◌<◌, ◌≡◌, refl, sym, ap, ◌∙◌, Text, text_eq, text_eq_sym,
  text_eq_refl, ℤ, pos, negsuc, pos_part, eqb_ℤ, ltb_ℤ, add64-pos, Bool, true, false, ◌||◌, List,
  [], ◌∷◌, ◌++◌, All, sum_by, if◌then◌else◌, arith, inl, inr, Bool-cases,
}
use mathlib.Core.Path.{ap₂}
use mathlib.Core.List.{append_assoc, append-nil}
use blue.Contributor.Result.{ok}
use blue.Contributor.Engine.{Credits, credits_of, gather}
use blue.Contributor.Engine.Shares.{weight, IsHolder}

abbrev pub value : Text × ℤ → ℕ
value e = pos_part e.1

abbrev pub holds : Credits → Text → Bool
holds [] account = false
holds ((k, c) ∷ credits) account = text_eq k account || holds credits account

-- A map: no account twice. What Go maps are by construction.
abbrev pub DistinctKeys : Credits → Type 0
DistinctKeys [] = Unit
DistinctKeys ((k, c) ∷ credits) = (holds credits k ≡ false) × DistinctKeys credits

-- No negative credits.
abbrev pub AreCredits : Credits → Type 0
AreCredits = All (λ e. e.1 ≡ pos (value e))

-- The accounts with credits.
abbrev pub holders : Credits → List Text
holders [] = []
holders ((k, c) ∷ credits) = if eqb_ℤ c (pos 0) then holders credits else k ∷ holders credits

pub not_negative : (n : ℕ) → ltb_ℤ (pos n) (pos 0) ≡ false
not_negative n = ground arith

not_zero : (n : ℕ) → eqb_ℤ (pos (suc n)) (pos 0) ≡ false
not_zero n = ground arith

pub gather-eq :
    (accounts : List Text) (total : ℕ) (credits : Credits)
    → AreCredits credits
    → total + sum_by value credits < 2 ^ 63
    → gather accounts (pos total) credits
      ≡ ok (accounts ++ holders credits, pos (total + sum_by value credits))
unfolding gather
gather-eq accounts total [] v lt =
    ap₂ (λ (a : List Text) (n : ℕ). ok (a, pos n)) (sym (append-nil accounts)) (omega arith)
gather-eq accounts total ((k, pos zero) ∷ credits) v lt =
    gather-eq accounts total credits v.1 (omega arith)
    ∙ ap (λ (n : ℕ). ok (accounts ++ holders credits, pos n)) (omega arith)
gather-eq accounts total ((k, pos (suc n)) ∷ credits) v lt =
    rw (not_negative (suc n), not_zero n, add64-pos total (suc n) (omega arith))
      (gather-eq (accounts ++ k ∷ []) (total + suc n) credits v.1 (omega arith)
        ∙ ap₂ (λ (a : List Text) (m : ℕ). ok (a, pos m))
            (append_assoc accounts (k ∷ []) (holders credits)) (omega arith))
gather-eq accounts total ((k, negsuc n) ∷ credits) v lt = absurd (cc v.0)

pub credits_of-pos :
    (credits : Credits) (account : Text)
    → AreCredits credits
    → credits_of credits account ≡ pos (weight credits account)
unfolding credits_of
credits_of-pos [] account v = refl
credits_of-pos ((k, c) ∷ credits) account v = ground (arith, credits_of-pos credits account v.1)

pub weight_le : (credits : Credits) (account : Text) → weight credits account ≤ sum_by value credits
unfolding credits_of
weight_le [] account = omega arith
weight_le ((k, c) ∷ credits) account = ground (arith, weight_le credits account)

pub holders-IsHolder :
    (pool : ℕ) (credits : Credits) (accounts : List Text)
    → AreCredits credits
    → All (IsHolder credits pool (sum_by value credits)) accounts
holders-IsHolder pool credits [] v = tt
holders-IsHolder pool credits (a ∷ accounts) v = (
  record { has_credits = credits_of-pos credits a v; in_total = weight_le credits a },
  holders-IsHolder pool credits accounts v,
)

sum_by-weight_cons :
    (k : Text) (c : ℤ) (credits : Credits) (accounts : List Text)
    → All (λ a. text_eq k a ≡ false) accounts
    → sum_by (weight ((k, c) ∷ credits)) accounts ≡ sum_by (weight credits) accounts
unfolding credits_of
sum_by-weight_cons k c credits [] h = refl
sum_by-weight_cons k c credits (a ∷ accounts) h =
    rw (h.0, sum_by-weight_cons k c credits accounts h.1)

holders-ne :
    (k : Text) (credits : Credits)
    → holds credits k ≡ false
    → All (λ a. text_eq k a ≡ false) (holders credits)
holders-ne k [] h = tt
holders-ne k ((j, c) ∷ credits) h =
    let rest = holders-ne k credits (ground arith) in
    let first : text_eq k j ≡ false = ground (arith, text_eq_sym k j) in
    elim (Bool-cases (eqb_ℤ c (pos 0))) [ inl e ↦ rw e rest | inr e ↦ rw e (first, rest) ]

zero_value : (c : ℤ) (n : ℕ) → eqb_ℤ c (pos 0) ≡ true → n ≡ pos_part c + n
zero_value c n e = ground arith

-- Summed over the accounts with credits, the map's values are all met once.
pub sum_by-holders :
    (credits : Credits)
    → DistinctKeys credits
    → AreCredits credits
    → sum_by (weight credits) (holders credits) ≡ sum_by value credits
unfolding credits_of
sum_by-holders [] d v = refl
sum_by-holders ((k, c) ∷ credits) d v =
    let rest : sum_by (weight ((k, c) ∷ credits)) (holders credits) ≡ sum_by value credits =
      sum_by-weight_cons k c credits (holders credits) (holders-ne k credits d.0)
      ∙ sum_by-holders credits d.1 v.1 in
    elim (Bool-cases (eqb_ℤ c (pos 0))) [
      | inl e ↦ rw e (rest ∙ zero_value c (sum_by value credits) e)
      | inr e ↦ rw (e, text_eq_refl k) (ap (λ s. pos_part c + s) rest)
    ]
