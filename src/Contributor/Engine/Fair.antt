-- ===== src/Contributor/Engine/Fair.antt =====
-- How Allocate in contributor/engine.go treats the accounts: everyone gets the share rounded down,
-- or one cent more, and more credits never get less.
use blue.Prelude.{
  ℕ, zero, suc, ◌+◌, ◌-◌, ◌*◌, ◌/◌, ◌%◌, ◌^◌, ◌≤◌, ◌<◌, ◌≡◌, refl, sym, ap, ◌∙◌, ◌⊎◌, inl, inr,
  Text, pos, pos_part, Option, none, some, List, [], ◌∷◌, map, All, get_elem?, get_or, take, sum_by,
  get_elem?-map, get_elem?-map-some, get_elem?-lt, get_or-get_elem?, All-get_elem?, arith,
  length-map,
}
use native.Mathlib.Decide.{dec_lt}
use native.Mathlib.Nat.{div-add-mod, mod-lt, mul-le-mul_left, mul-lt-mul_of_pos_left, mul-suc}
use mathlib.Core.Path.{subst}
use blue.Contributor.Result.{ok}
use blue.Contributor.Round.{Entitlement}
use blue.Contributor.Engine.{Credits, entitle, remainder_of, by_remainder, distribute}
use blue.Contributor.Engine.Shares.{
  cents, weight, IsHolder, share, left, amount_cents-entitle, entitle-IsCents, sum_by-entitle,
  map-remainder_of, leftover_bounds,
}
use blue.Contributor.Engine.Leftover.{by_remainder-below}
use blue.Contributor.Engine.Exact.{distribute-eq}
use blue.Contributor.Engine.Order.{count, raise, raise_at, get_elem?-give}
use blue.Contributor.Engine.Ranking.{count-by_remainder, by_remainder-First}

-- What an entitlement holds: the account at its index, the account's credits, and its share with the
-- cents that were given to the index.
pub record Entitled (credits : Credits) (pool total : ℕ) (accounts : List Text) (given i : ℕ)
    (e : Entitlement) : Type 0 where
  pub at_index : get_elem? accounts i ≡ some e.account
  pub own_credits : e.credits ≡ pos (weight credits e.account)
  pub amount : cents e ≡ share credits pool total e.account + given

raise_at-some :
    (n : ℕ) (o : Option Entitlement) (e : Entitlement)
    → raise_at n o ≡ some e
    → (d : Entitlement) × (o ≡ some d) × (raise n d ≡ e)
raise_at-some n none e h = absurd (cc h)
raise_at-some n (some d) e h = (d, refl, cc h)

All-pos :
    {A : Type 0} (f : A → ℕ) (xs : List A)
    → All (λ z. z ≡ pos (pos_part z)) (map (λ x. pos (f x)) xs)
All-pos f [] = tt
All-pos f (x ∷ xs) = (refl, All-pos f xs)

div_mod_lt : (x y t : ℕ) → 0 < t → x < y → (x / t < y / t) ⊎ ((x / t ≡ y / t) × (x % t < y % t))
div_mod_lt x y t h lt = elim (dec_lt (x / t) (y / t)) [
  | yes p ↦ inl p
  | no p ↦ elim (dec_lt (y / t) (x / t)) [
    | yes q ↦ absurd (
        omega (
          arith,
          div-add-mod x t,
          div-add-mod y t,
          mod-lt y h,
          mul-le-mul_left t q,
          mul-suc t (y / t),
        ))
    | no q ↦
        (let same : x / t ≡ y / t = omega arith in
          inr (same, omega (arith, div-add-mod x t, div-add-mod y t, ap (λ k. t * k) same)))
  ]
]

-- Of two shares of one pool the larger weight has the larger quotient, or the larger remainder.
share_mono :
    (pool total v w : ℕ)
    → 0 < total
    → 0 < pool
    → v < w
    → (pool * v / total < pool * w / total)
      ⊎ ((pool * v / total ≡ pool * w / total) × (pool * v % total < pool * w % total))
share_mono pool total v w ht hp lt =
    div_mod_lt (pool * v) (pool * w) total ht (mul-lt-mul_of_pos_left lt hp)

div_le_div : (x y t : ℕ) → 0 < t → x ≤ y → x / t ≤ y / t
div_le_div x y t h le = elim (dec_lt x y) [
  | yes p ↦ omega (arith, div_mod_lt x y t h p)
  | no p ↦ omega (arith, ap (λ k. k / t) (let e : x ≡ y = omega arith in e))
]

share_le_share :
    (credits : Credits) (pool total : ℕ) (a b : Text)
    → 0 < total
    → weight credits a < weight credits b
    → share credits pool total a ≤ share credits pool total b
unfolding share
share_le_share credits pool total a b ht lt =
    div_le_div _ _ total ht (mul-le-mul_left pool (omega arith))

take_some : (k : ℕ) (xs : List ℕ) (i : ℕ) → 0 < count i (take k xs) → 0 < k
take_some zero xs i h = absurd (omega arith)
take_some (suc k) xs i h = omega arith

module _ (credits : Credits) (pool total : ℕ) (accounts : List Text) (fits : pool < 2 ^ 63)
    (positive : 0 < total) (valid : All (IsHolder credits pool total) accounts)
    (whole : sum_by (weight credits) accounts ≡ total) where
  abbrev pub given : ℕ → ℕ
  given i = count i (
      take (pool - sum_by (share credits pool total) accounts)
        (by_remainder (map (remainder_of (pos pool) credits (pos total)) accounts)))

  entitle-Entitled :
      (i n : ℕ) (a : Text) (e : Entitlement)
      → get_elem? accounts i ≡ some a
      → raise n (entitle (pos pool) credits (pos total) a) ≡ e
      → Entitled credits pool total accounts n i e
  unfolding entitle
  entitle-Entitled i n a e h r = subst (Entitled credits pool total accounts n i) r (record {
    at_index = h;
    own_credits = (All-get_elem? (IsHolder credits pool total) accounts i valid h).has_credits;
    amount =
        ap (λ z. pos_part z + n)
          (amount_cents-entitle credits pool total a fits
            (All-get_elem? (IsHolder credits pool total) accounts i valid h));
  })

  pub result-Entitled :
      (es : List Entitlement) (i : ℕ) {e : Entitlement}
      → distribute (pos pool) credits (pos total) accounts ≡ ok es
      → get_elem? es i ≡ some e
      → Entitled credits pool total accounts (given i) i e
  result-Entitled es i {e} h at =
      let sum = sum_by-entitle credits pool total accounts fits valid in
      let bounds = leftover_bounds credits pool total accounts positive whole in
      let remainders = length-map (remainder_of (pos pool) credits (pos total)) accounts in
      let g =
        get_elem?-give (pool - sum_by (share credits pool total) accounts)
          (by_remainder (map (remainder_of (pos pool) credits (pos total)) accounts))
          (map (entitle (pos pool) credits (pos total)) accounts) es i
          (by_remainder-below _ _
            (remainders ∙ sym (length-map (entitle (pos pool) credits (pos total)) accounts)))
          (entitle-IsCents credits pool total accounts fits valid) (omega (arith, sum))
          (sym (distribute-eq credits pool total accounts fits positive valid whole) ∙ h) in
      let (d, from_shares, raised) = raise_at-some (given i) _ e (sym g ∙ at) in
      let (a, from_accounts, entitled) =
        get_elem?-map (entitle (pos pool) credits (pos total)) accounts i from_shares in
      entitle-Entitled i (given i) a e from_accounts (ap (raise (given i)) entitled ∙ raised)

  key_at :
      (i : ℕ) {a : Text}
      → get_elem? accounts i ≡ some a
      → pos_part (get_or (map (remainder_of (pos pool) credits (pos total)) accounts) i (pos 0))
        ≡ left credits pool total a
  key_at i {a} h = rw (map-remainder_of credits pool total accounts valid) (
      ap pos_part (
        get_or-get_elem? _ i (pos 0)
          (get_elem?-map-some (λ b. pos (left credits pool total b)) accounts i h)))

  remainders-nonneg :
      All (λ z. z ≡ pos (pos_part z)) (map (remainder_of (pos pool) credits (pos total)) accounts)
  remainders-nonneg =
      rw (map-remainder_of credits pool total accounts valid)
        (All-pos (left credits pool total) accounts)

  -- A cent goes to the larger remainder.
  given-left :
      (i j : ℕ) {a b : Text}
      → get_elem? accounts i ≡ some a
      → get_elem? accounts j ≡ some b
      → 1 ≤ given i
      → given j ≡ 0
      → left credits pool total b ≤ left credits pool total a
  given-left i j ha hb gi gj =
      let remainders = length-map (remainder_of (pos pool) credits (pos total)) accounts in
      let first =
        by_remainder-First (map (remainder_of (pos pool) credits (pos total)) accounts)
          (pool - sum_by (share credits pool total) accounts) i j remainders-nonneg
          (omega (arith, get_elem?-lt accounts j hb)) gi gj in
      omega (arith, first, key_at i ha, key_at j hb)

  pub given_le : (i : ℕ) → given i ≤ 1
  given_le i = count-by_remainder _ _ i

  -- The account with fewer credits got a cent, and the other none.
  winner :
      (i j : ℕ) {d e : Entitlement}
      → Entitled credits pool total accounts (given i) i d
      → Entitled credits pool total accounts (given j) j e
      → 0 < given i
      → given j ≡ 0
      → weight credits d.account < weight credits e.account
      → cents d ≤ cents e
  unfolding share left
  winner i j {d} {e} di ej gi gj lt =
      let loses = given-left i j di.at_index ej.at_index gi gj in
      let pool_left =
        take_some _ (by_remainder (map (remainder_of (pos pool) credits (pos total)) accounts)) i
          gi in
      elim (share_mono pool total (weight credits d.account) (weight credits e.account) positive
        (omega arith) lt) [
          | inl larger ↦ omega (arith, di.amount, ej.amount, given_le i)
          | inr (same, more) ↦ absurd (omega arith)
        ]

  pub distribute_monotone :
      (es : List Entitlement) (i j : ℕ) {d e : Entitlement}
      → distribute (pos pool) credits (pos total) accounts ≡ ok es
      → get_elem? es i ≡ some d
      → get_elem? es j ≡ some e
      → weight credits d.account < weight credits e.account
      → cents d ≤ cents e
  distribute_monotone es i j {d} {e} h hd he lt =
      let di = result-Entitled es i h hd in
      let ej = result-Entitled es j h he in
      elim (dec_lt 0 (given i)) [
        | no none_given ↦ omega (
          arith,
          di.amount,
          ej.amount,
          share_le_share credits pool total d.account e.account positive lt,
        )
        | yes some_given ↦ elim (dec_lt 0 (given j)) [
          | yes both ↦ omega (
            arith,
            di.amount,
            ej.amount,
            share_le_share credits pool total d.account e.account positive lt,
            given_le i,
          )
          | no other ↦ winner i j di ej some_given (omega arith) lt
        ]
      ]
