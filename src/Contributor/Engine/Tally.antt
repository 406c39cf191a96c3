-- ===== src/Contributor/Engine/Tally.antt =====
-- ActiveCredits of contributor/engine.go adds up the splits of the awards that are approved and
-- active.
use blue.Prelude.{
  ℕ, ◌+◌, ◌^◌, ◌<◌, ◌≤◌, ◌≡◌, refl, ap, ◌∙◌, Text, text_eq, text_eq→eq, text_eq_sym, ℤ, pos,
  pos_part, add64, add64-pos, Bool, true, false, ◌&&◌, ◌||◌, List, [], ◌∷◌, All, sum_by, &&_elim,
  Bool-cases, inl, inr, if◌then◌else◌, arith,
}
use blue.Contributor.Result.{ok}
use blue.Contributor.Award.{Award, Split, validate_splits, validate_award, active_in}
use blue.Contributor.Engine.{
  Credits, credits_of, add_credits, add_splits, is_approved, add_award, active_credits_from,
  active_credits,
}
use blue.Contributor.Engine.Holders.{value, weight_le, holds, DistinctKeys, AreCredits}

abbrev pub split_total : List Split → ℕ
split_total = sum_by (λ s. pos_part s.credits)

abbrev pub split_for : Text → List Split → ℕ
split_for account = sum_by (λ s. if text_eq s.account account then pos_part s.credits else 0)

-- The award counts in a month.
abbrev pub counts : Text → Award → Bool
counts m a = is_approved a.status && active_in a m

-- The credits of the awards that count, and those of one account.
abbrev pub granted : List Award → Text → ℕ
granted awards m = sum_by (λ a. if counts m a then split_total a.splits else 0) awards

abbrev pub granted_to : List Award → Text → Text → ℕ
granted_to awards m account =
    sum_by (λ a. if counts m a then split_for account a.splits else 0) awards

-- A map of credits with this sum, and these credits of each account.
pub record IsTally (credits : Credits) (n : ℕ) (to : Text → ℕ) : Type 0 where
  pub distinct : DistinctKeys credits
  pub nonnegative : AreCredits credits
  pub sum : sum_by value credits ≡ n
  pub each : (account : Text) → credits_of credits account ≡ pos (to account)

holds-add_credits :
    (credits : Credits) (account : Text) (c : ℤ) (b : Text)
    → holds (add_credits credits account c) b ≡ (text_eq account b || holds credits b)
unfolding add_credits
holds-add_credits [] account c b = refl
holds-add_credits ((k, v) ∷ credits) account c b = elim (Bool-cases (text_eq k account)) [
  | inl e ↦ let same = text_eq→eq k account e in rw e (ground (arith, ap (λ z. text_eq z b) same))
  | inr e ↦ rw e (ground (arith, holds-add_credits credits account c b))
]

DistinctKeys-add_credits :
    (credits : Credits) (account : Text) (c : ℤ)
    → DistinctKeys credits
    → DistinctKeys (add_credits credits account c)
unfolding add_credits
DistinctKeys-add_credits [] account c d = (refl, tt)
DistinctKeys-add_credits ((k, v) ∷ credits) account c d = elim (Bool-cases (text_eq k account)) [
  | inl e ↦ rw e d
  | inr e ↦ rw e (
    holds-add_credits credits account c k ∙ ground (arith, text_eq_sym k account),
    DistinctKeys-add_credits credits account c d.1,
  )
]

other_key :
    (k account b : Text)
    → text_eq k account ≡ false
    → text_eq account b ≡ true
    → text_eq k b ≡ false
other_key k account b ne e =
    let same = text_eq→eq account b e in ground (arith, ap (text_eq k) same)

credits_of-add_credits :
    (credits : Credits) (account : Text) (c : ℤ) (b : Text)
    → credits_of (add_credits credits account c) b
      ≡ (if text_eq account b then add64 (credits_of credits account) c else credits_of credits b)
unfolding add_credits credits_of
credits_of-add_credits [] account c b = refl
credits_of-add_credits ((k, v) ∷ credits) account c b = elim (Bool-cases (text_eq k account)) [
  | inl e ↦ let same = text_eq→eq k account e in ground (arith, ap (λ z. text_eq z b) same)
  | inr e ↦ ground (arith, credits_of-add_credits credits account c b, other_key k account b)
]

-- The sum and the signs after `credits[account] += n`.
AreCredits-add_credits :
    (credits : Credits) (account : Text) (n : ℕ)
    → AreCredits credits
    → sum_by value credits + n < 2 ^ 63
    → AreCredits (add_credits credits account (pos n))
      × (sum_by value (add_credits credits account (pos n)) ≡ sum_by value credits + n)
unfolding add_credits
AreCredits-add_credits [] account n v fits =
    rw (add64-pos 0 n (omega arith)) ((refl, tt), omega arith)
AreCredits-add_credits ((k, c) ∷ credits) account n v fits = elim (Bool-cases (text_eq k account)) [
  | inl e ↦ rw (e, v.0, add64-pos (pos_part c) n (omega arith)) ((refl, v.1), omega arith)
  | inr e ↦
      let (signs, total) = AreCredits-add_credits credits account n v.1 (omega arith) in
      rw e ((v.0, signs), omega arith)
]

IsTally-le :
    (credits : Credits) (total : ℕ) (to : Text → ℕ) (account : Text)
    → IsTally credits total to
    → to account ≤ total
IsTally-le credits total to account v =
    omega (arith, weight_le credits account, v.sum, ap pos_part (v.each account))

add_credits-each :
    (credits : Credits) (account b : Text) (n total : ℕ) (to : Text → ℕ)
    → IsTally credits total to
    → total + n < 2 ^ 63
    → (if text_eq account b
        then add64 (credits_of credits account) (pos n)
        else credits_of credits b)
      ≡ pos (to b + (if text_eq account b then n else 0))
add_credits-each credits account b n total to v fits = elim (Bool-cases (text_eq account b)) [
  | inl e ↦
      rw
        (
          e,
          v.each account,
          add64-pos (to account) n (omega (arith, IsTally-le credits total to account v)),
        )
        (ap (λ a. pos (to a + n)) (text_eq→eq account b e))
  | inr e ↦ rw (e, v.each b) (ap pos (omega arith))
]

add_credits-IsTally :
    (credits : Credits) (account : Text) (n total : ℕ) (to : Text → ℕ)
    → IsTally credits total to
    → total + n < 2 ^ 63
    → IsTally
        (add_credits credits account (pos n))
        (total + n)
        (λ b. to b + (if text_eq account b then n else 0))
add_credits-IsTally credits account n total to v fits =
    let (signs, sums) =
      AreCredits-add_credits credits account n v.nonnegative (omega (arith, v.sum)) in
    record {
      distinct = DistinctKeys-add_credits credits account (pos n) v.distinct;
      nonnegative = signs;
      sum = omega (arith, sums, v.sum);
      each = λ b.
          credits_of-add_credits credits account (pos n) b
          ∙ add_credits-each credits account b n total to v fits;
    }

-- Credits of a validated award are positive.
abbrev pub ArePositive : List Split → Type 0
ArePositive = All (λ s. s.credits ≡ pos (pos_part s.credits))

IsTally-cast :
    (credits : Credits) {m n : ℕ} {f g : Text → ℕ}
    → m ≡ n
    → ((a : Text) → f a ≡ g a)
    → IsTally credits m f
    → IsTally credits n g
IsTally-cast credits e same v = record {
  distinct = v.distinct;
  nonnegative = v.nonnegative;
  sum = v.sum ∙ e;
  each = λ a. v.each a ∙ ap pos (same a);
}

add_splits-IsTally :
    (credits : Credits) (splits : List Split) (total : ℕ) (to : Text → ℕ)
    → ArePositive splits
    → IsTally credits total to
    → total + split_total splits < 2 ^ 63
    → IsTally
        (add_splits credits splits)
        (total + split_total splits)
        (λ b. to b + split_for b splits)
unfolding add_splits
add_splits-IsTally credits [] total to p v fits =
    IsTally-cast credits (omega arith) (λ a. omega arith) v
add_splits-IsTally credits (s ∷ splits) total to p v fits = rw p.0 (
    IsTally-cast _ (omega arith) (λ a. omega arith)
      (add_splits-IsTally (add_credits credits s.account (pos (pos_part s.credits))) splits
        (total + pos_part s.credits)
        (λ b. to b + (if text_eq s.account b then pos_part s.credits else 0)) p.1
        (add_credits-IsTally credits s.account (pos_part s.credits) total to v (omega arith))
        (omega arith)))

validate_splits-ArePositive :
    (seen : List Text) (splits : List Split)
    → validate_splits seen splits ≡ ok tt
    → ArePositive splits
unfolding validate_splits
validate_splits-ArePositive seen [] h = tt
validate_splits-ArePositive seen (s ∷ splits) h =
    (ground arith, validate_splits-ArePositive (s.account ∷ seen) splits (ground arith))

validate_award-ArePositive : (a : Award) → validate_award a ≡ ok tt → ArePositive a.splits
unfolding validate_award
validate_award-ArePositive a h = validate_splits-ArePositive [] a.splits (ground arith)

-- An approved award is well formed.
abbrev pub IsSound : Award → Type 0
IsSound a = is_approved a.status ≡ true → validate_award a ≡ ok tt

add_award-eq :
    (credits : Credits) (a : Award) (m : Text)
    → IsSound a
    → add_award credits a m ≡ ok (if counts m a then add_splits credits a.splits else credits)
unfolding add_award
add_award-eq credits a m sound = elim (Bool-cases (is_approved a.status)) [
  | inl e ↦ rw (e, sound e) (ground arith)
  | inr e ↦ rw e
]

award-IsTally :
    (credits : Credits) (a : Award) (m : Text) (total : ℕ) (to : Text → ℕ)
    → IsSound a
    → IsTally credits total to
    → total + (if counts m a then split_total a.splits else 0) < 2 ^ 63
    → IsTally
        (if counts m a then add_splits credits a.splits else credits)
        (total + (if counts m a then split_total a.splits else 0))
        (λ b. to b + (if counts m a then split_for b a.splits else 0))
award-IsTally credits a m total to sound v fits = elim (Bool-cases (counts m a)) [
  | inl e ↦ rw e (
      add_splits-IsTally credits a.splits total to
        (validate_award-ArePositive a (sound (&&_elim (is_approved a.status) (active_in a m) e).0))
        v (rw e at fits))
  | inr e ↦ rw e (IsTally-cast credits (omega arith) (λ b. omega arith) v)
]

active_credits_from-IsTally :
    (credits : Credits) (awards : List Award) (m : Text) (total : ℕ) (to : Text → ℕ)
    → All IsSound awards
    → IsTally credits total to
    → total + granted awards m < 2 ^ 63
    → (found : Credits) × (active_credits_from credits awards m ≡ ok found)
      × IsTally found (total + granted awards m) (λ b. to b + granted_to awards m b)
unfolding active_credits_from
active_credits_from-IsTally credits [] m total to sound v fits =
    (credits, refl, IsTally-cast credits (omega arith) (λ a. omega arith) v)
active_credits_from-IsTally credits (a ∷ awards) m total to sound v fits =
    let (found, returned, tally) =
      active_credits_from-IsTally (if counts m a then add_splits credits a.splits else credits)
        awards m (total + (if counts m a then split_total a.splits else 0))
        (λ b. to b + (if counts m a then split_for b a.splits else 0)) sound.1
        (award-IsTally credits a m total to sound.0 v (omega arith)) (omega arith) in
    (
      found,
      rw (add_award-eq credits a m sound.0) returned,
      IsTally-cast found (omega arith) (λ b. omega arith) tally,
    )

-- If every approved award is well formed and the credits that count fit an int64, ActiveCredits
-- returns a map without negative credits in which every account has the credits of its splits in
-- the awards that are approved and active, and whose sum is that of all such splits.
pub active_credits-IsTally :
    (awards : List Award) (m : Text)
    → All IsSound awards
    → granted awards m < 2 ^ 63
    → (found : Credits) × (active_credits awards m ≡ ok found)
      × IsTally found (granted awards m) (granted_to awards m)
unfolding active_credits credits_of
active_credits-IsTally awards m sound fits =
    let (found, returned, tally) =
      active_credits_from-IsTally [] awards m 0 (λ b. 0) sound
        (record { distinct = tt; nonnegative = tt; sum = refl; each = λ b. refl }) (omega arith) in
    (found, returned, IsTally-cast found (omega arith) (λ b. omega arith) tally)
