-- ===== src/Iterator/Skipping/Filtering.antt =====
-- What Filter of filter.go produces.
use blue.Prelude.{
  ℕ, zero, suc, ◌≤◌, ◌≡◌, refl, sym, ap, ◌∙◌, Bool, true, false, Option, none, some, List, inl, inr,
  Bool-cases, Option-cases, [], ◌∷◌, length, arith,
}
use blue.Document.{select}
use blue.Iterator.{Iterator, add_error, next_of_fn}
use blue.Iterator.Streams.{Yields, ends, then, next_of_fn-eq, same_start}
use blue.Iterator.Skipping.{filter_step, filter_iter}

module _ {T E : Type 0} (it : Iterator T E) (fn : T → Bool) where
  filter-end :
      (calls : ℕ) {s s' : it.State}
      → it.next s ≡ (none, s')
      → filter_step it fn (suc calls) s ≡ ((none, it.err s'), s')
  unfolding filter_step
  filter-end calls next =
      ap
        (λ r. elim r.0 [
          | none ↦ ((none, it.err r.1), r.1)
          | some t ↦ elim (fn t) [
            | true ↦ ((some t, none), r.1)
            | false ↦ filter_step it fn calls r.1
          ]
        ])
        next

  filter-some :
      (calls : ℕ) {s s' : it.State} {t : T}
      → it.next s ≡ (some t, s')
      → filter_step it fn (suc calls) s
        ≡ elim (fn t) [ true ↦ ((some t, none), s') | false ↦ filter_step it fn calls s' ]
  unfolding filter_step
  filter-some calls next =
      ap
        (λ r. elim r.0 [
          | none ↦ ((none, it.err r.1), r.1)
          | some t ↦ elim (fn t) [
            | true ↦ ((some t, none), r.1)
            | false ↦ filter_step it fn calls r.1
          ]
        ])
        next

  filter-keep :
      (calls : ℕ) {s s' : it.State} {t : T}
      → it.next s ≡ (some t, s')
      → fn t ≡ true
      → filter_step it fn (suc calls) s ≡ ((some t, none), s')
  filter-keep calls next keep = filter-some calls next ∙ rw keep refl

  filter-drop :
      (calls : ℕ) {s s' : it.State} {t : T}
      → it.next s ≡ (some t, s')
      → fn t ≡ false
      → filter_step it fn (suc calls) s ≡ filter_step it fn calls s'
  filter-drop calls next drop = filter-some calls next ∙ rw drop refl

  filter_fuel :
      (ts : List T) (m n : ℕ) {s end : it.State} {e : Option E}
      → Yields T E it s ts e end
      → suc (length ts) ≤ m
      → suc (length ts) ≤ n
      → filter_step it fn m s ≡ filter_step it fn n s
  filter_fuel ts zero n run h k = absurd (omega (arith, h))
  filter_fuel ts (suc m) zero run h k = absurd (omega (arith, k))
  filter_fuel [] (suc m) (suc n) (ends next) h k = filter-end m next ∙ sym (filter-end n next)
  filter_fuel (t ∷ ts) (suc m) (suc n) (then next rest) h k = elim (Bool-cases (fn t)) [
    | inl keep ↦ filter-keep m next keep ∙ sym (filter-keep n next keep)
    | inr drop ↦
        filter-drop m next drop
        ∙ filter_fuel ts m n rest (omega (arith, h)) (omega (arith, k))
        ∙ sym (filter-drop n next drop)
  ]

  filter_ends :
      (append : Option E → E → E) (calls : ℕ) {s s' : it.State}
      → it.next s ≡ (none, s')
      → next_of_fn append (filter_step it fn (suc calls)) (s, none)
        ≡ (none, (s', add_error append none (it.err s')))
  filter_ends append calls {s' = s'} next = elim (Option-cases (it.err s')) [
    | inl e ↦
        next_of_fn-eq append (filter_step it fn (suc calls)) (filter-end calls next) ∙ rw e refl
    | inr (x, e) ↦
        next_of_fn-eq append (filter_step it fn (suc calls)) (filter-end calls next) ∙ rw e refl
  ]

  -- Filter produces the elements that the iterator produces and its function keeps, in order, and ends with the
  -- iterator's error, if it ends with one; each of its calls may make as many calls of Next as there are
  -- elements, and one more.
  pub filter-Yields :
      (append : Option E → E → E) (calls : ℕ) (ts : List T) {s end : it.State} {e : Option E}
      → Yields T E it s ts e end
      → suc (length ts) ≤ calls
      → Yields T E
          (filter_iter append calls it fn)
          (s, none)
          (select fn ts)
          (add_error append none e)
          (end, add_error append none e)
  unfolding select next_of_fn
  filter-Yields append zero ts run h = absurd (omega (arith, h))
  filter-Yields append (suc calls) [] (ends next) h = ends (filter_ends append calls next)
  filter-Yields append (suc calls) (t ∷ ts) (then {s' = s'} next rest) h =
      let later = filter-Yields append (suc calls) ts rest (omega (arith, h)) in
      elim (Bool-cases (fn t)) [
        | inl keep ↦ rw keep (
            then
              (next_of_fn-eq append (filter_step it fn (suc calls)) (filter-keep calls next keep))
              later)
        | inr drop ↦ rw drop (
            same_start (filter_iter append (suc calls) it fn)
              (ap
                (λ r. elim r.0.1 [
                  | none ↦ (r.0.0, (r.1, none))
                  | some e ↦ (none, (r.1, some (append none e)))
                ])
                (filter-drop calls next drop
                  ∙ filter_fuel ts calls (suc calls) rest (omega (arith, h)) (omega (arith, h))))
              later)
      ]
