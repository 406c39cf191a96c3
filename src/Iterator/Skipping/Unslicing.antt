-- ===== src/Iterator/Skipping/Unslicing.antt =====
-- What Unslice of unslice.go produces.
use blue.Prelude.{
  ℕ, zero, suc, ◌≤◌, ◌≡◌, refl, sym, ap, ◌∙◌, Option, none, some, List, [], ◌∷◌, ◌++◌, length,
  arith,
}
use blue.Iterator.{Iterator}
use blue.Iterator.Streams.{Yields, ends, then, same_start}
use blue.Iterator.Skipping.{next_of_unslice, unslice}

abbrev pub concat : {T : Type 0} → List (List T) → List T
concat [] = []
concat (xs ∷ xss) = xs ++ concat xss

unslice-next :
    {T E : Type 0} (it : Iterator (List T) E) (calls : ℕ) {s s' : it.State} {next : List T}
    → it.next s ≡ (some next, s')
    → next_of_unslice it (suc calls) (s, []) ≡ next_of_unslice it calls (s', next)
unfolding next_of_unslice
unslice-next it calls e =
    ap
      (λ r. elim r.0 [
        | none ↦ (none, (r.1, []))
        | some next ↦ next_of_unslice it calls (r.1, next)
      ])
      e

unslice-end :
    {T E : Type 0} (it : Iterator (List T) E) (calls : ℕ) {s s' : it.State}
    → it.next s ≡ (none, s')
    → next_of_unslice it (suc calls) (s, []) ≡ (none, (s', []))
unfolding next_of_unslice
unslice-end it calls e = rw (next_of_unslice, e) (rw (ap (λ r. r.1) e) refl)

-- Enough calls are enough.
unslice_fuel :
    {T E : Type 0} (it : Iterator (List T) E) {s end : it.State} (xss : List (List T))
    {e : Option E} (left : List T) (m n : ℕ)
    → Yields (List T) E it s xss e end
    → suc (length xss) ≤ m
    → suc (length xss) ≤ n
    → next_of_unslice it m (s, left) ≡ next_of_unslice it n (s, left)
unfolding next_of_unslice
unslice_fuel it xss (x ∷ left) m n run h k = refl
unslice_fuel it xss [] zero n run h k = absurd (omega (arith, h))
unslice_fuel it xss [] (suc m) zero run h k = absurd (omega (arith, k))
unslice_fuel it [] [] (suc m) (suc n) (ends next) h k =
    unslice-end it m next ∙ sym (unslice-end it n next)
unslice_fuel it (xs ∷ xss) [] (suc m) (suc n) (then next rest) h k =
    unslice-next it m next
    ∙ unslice_fuel it xss xs m n rest (omega (arith, h)) (omega (arith, k))
    ∙ sym (unslice-next it n next)

-- Unslice produces the elements of the slices that the iterator produces, in order, after those that are left
-- of the last slice, and ends with its error; each of its calls may make as many calls of Next as there are
-- slices, and one more.
pub unslice-Yields :
    {T E : Type 0} (it : Iterator (List T) E) (calls : ℕ) {s end : it.State} (xss : List (List T))
    {e : Option E} (left : List T)
    → Yields (List T) E it s xss e end
    → suc (length xss) ≤ calls
    → Yields T E (unslice calls it) (s, left) (left ++ concat xss) e (end, [])
unfolding next_of_unslice
unslice-Yields it calls xss (x ∷ left) run h = then refl (unslice-Yields it calls xss left run h)
unslice-Yields it zero xss [] run h = absurd (omega (arith, h))
unslice-Yields it (suc calls) [] [] (ends next) h = ends (unslice-end it calls next)
unslice-Yields it (suc calls) (xs ∷ xss) [] (then next rest) h =
    same_start (unslice (suc calls) it)
      (unslice-next it calls next
        ∙ unslice_fuel it xss xs calls (suc calls) rest (omega (arith, h)) (omega (arith, h)))
      (unslice-Yields it (suc calls) xss xs rest (omega (arith, h)))
