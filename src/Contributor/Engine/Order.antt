-- ===== src/Contributor/Engine/Order.antt =====
-- What the last loop of Allocate in contributor/engine.go gives to each entitlement.
use blue.Prelude.{
  ℕ, zero, suc, ◌+◌, ◌^◌, ◌<◌, ◌≡◌, refl, sym, ap, ◌∙◌, ℤ, pos, pos_part, add64-pos, ◌==◌,
  get_elem?, Option, none, some, List, [], ◌∷◌, length, All, sum_by, take, arith, if◌then◌else◌,
}
use blue.Contributor.Result.{ok}
use blue.Contributor.Round.{Entitlement}
use blue.Contributor.Engine.{increment, give}
use blue.Contributor.Engine.Shares.{cents, IsCents}
use blue.Contributor.Engine.Leftover.{length-increment, increment-IsCents, sum_by-increment}

-- How often an index stands in a list.
abbrev pub count : ℕ → List ℕ → ℕ
count i = sum_by (λ j. if j == i then 1 else 0)

-- An entitlement that was given n cents more.
abbrev pub raise : ℕ → Entitlement → Entitlement
raise n e = record e { amount_cents = pos (cents e + n) }

abbrev pub raise_at : ℕ → Option Entitlement → Option Entitlement
raise_at n none = none
raise_at n (some e) = some (raise n e)

raise_zero : (e : Entitlement) → IsCents e → raise 0 e ≡ e
raise_zero e h = ap (λ c. record e { amount_cents = c }) (same e.amount_cents h)
  where
    same : (z : ℤ) → z ≡ pos (pos_part z) → pos (pos_part z + 0) ≡ z
    same z q = ground arith

raise_at_zero :
    (j : ℕ) (es : List Entitlement) → All IsCents es → raise_at 0 (get_elem? es j) ≡ get_elem? es j
raise_at_zero j [] h = refl
raise_at_zero zero (e ∷ es) h = ap some (raise_zero e h.0)
raise_at_zero (suc j) (e ∷ es) h = raise_at_zero j es h.1

raise_at_add : (m n : ℕ) (o : Option Entitlement) → raise_at m (raise_at n o) ≡ raise_at (n + m) o
raise_at_add m n none = refl
raise_at_add m n (some e) = ap (λ k. some (record e { amount_cents = pos k })) (omega arith)

raise_at_cast : {m n : ℕ} (o : Option Entitlement) → m ≡ n → raise_at m o ≡ raise_at n o
raise_at_cast o q = ap (λ k. raise_at k o) q

get_elem?-increment :
    (i j : ℕ) (es : List Entitlement)
    → All IsCents es
    → sum_by cents es + 1 < 2 ^ 63
    → get_elem? (increment i es) j ≡ raise_at (if i == j then 1 else 0) (get_elem? es j)
unfolding increment
get_elem?-increment i j [] h lt = refl
get_elem?-increment zero zero (e ∷ es) h lt =
    ap (λ c. some (record e { amount_cents = c })) (rw h.0 (add64-pos (cents e) 1 (omega arith)))
get_elem?-increment zero (suc j) (e ∷ es) h lt =
    sym (raise_at_cast (get_elem? es j) (ground arith) ∙ raise_at_zero j es h.1)
get_elem?-increment (suc i) zero (e ∷ es) h lt =
    sym (raise_at_cast (some e) (ground arith) ∙ raise_at_zero zero (e ∷ es) h)
get_elem?-increment (suc i) (suc j) (e ∷ es) h lt =
    get_elem?-increment i j es h.1 (omega arith) ∙ raise_at_cast (get_elem? es j) (ground arith)

ok_get :
    (es result : List Entitlement) (j : ℕ) → ok es ≡ ok result → get_elem? result j ≡ get_elem? es j
ok_get es result j e = cc e

-- Each entitlement gets one cent for each time that its index is met.
pub get_elem?-give :
    (k : ℕ) (order : List ℕ) (es result : List Entitlement) (j : ℕ)
    → All (λ i. i < length es) order
    → All IsCents es
    → sum_by cents es + k < 2 ^ 63
    → give k order es ≡ ok result
    → get_elem? result j ≡ raise_at (count j (take k order)) (get_elem? es j)
unfolding give
get_elem?-give zero order es result j inside h lt e =
    ok_get es result j e ∙ sym (raise_at_zero j es h)
get_elem?-give (suc k) [] es result j inside h lt e = absurd (cc e)
get_elem?-give (suc k) (i ∷ order) es result j inside h lt e =
    get_elem?-give k order (increment i es) result j (rw (length-increment i es) inside.1)
      (increment-IsCents i es h (omega arith))
      (omega (arith, sum_by-increment i es h (omega arith) inside.0)) e
    ∙ (rw (get_elem?-increment i j es h (omega arith))
        (raise_at_add (count j (take k order)) (if i == j then 1 else 0) (get_elem? es j)))
