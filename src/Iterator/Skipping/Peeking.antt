-- ===== src/Iterator/Skipping/Peeking.antt =====
-- What IsEmpty of utils.go answers with.
use blue.Prelude.{
  ◌≡◌, refl, ap, ◌∙◌, true, false, Option, none, some, List, inl, inr, Option-cases, ◌∷◌,
}
use blue.Iterator.{Iterator, add_error, next_of_fn}
use blue.Iterator.Streams.{Yields, ends, then, next_of_fn-eq}
use blue.Iterator.Skipping.{peeked_step, peeked_iter, is_empty_iter}

module _ {T E : Type 0} (append : Option E → E → E) (it : Iterator T E) where
  peeked-end :
      {s s' : it.State}
      → it.next s ≡ (none, s')
      → peeked_step it (none, s) ≡ ((none, it.err s'), (none, s'))
  unfolding peeked_step
  peeked-end next =
      ap
        (λ r. elim r.0 [
          | none ↦ ((none, it.err r.1), (none, r.1))
          | some t ↦ ((some t, none), (none, r.1))
        ])
        next

  peeked-some :
      {s s' : it.State} {t : T}
      → it.next s ≡ (some t, s')
      → peeked_step it (none, s) ≡ ((some t, none), (none, s'))
  unfolding peeked_step
  peeked-some next =
      ap
        (λ r. elim r.0 [
          | none ↦ ((none, it.err r.1), (none, r.1))
          | some t ↦ ((some t, none), (none, r.1))
        ])
        next

  peeked_ends :
      {s s' : it.State}
      → it.next s ≡ (none, s')
      → next_of_fn append (peeked_step it) ((none, s), none)
        ≡ (none, ((none, s'), add_error append none (it.err s')))
  peeked_ends {s' = s'} next = elim (Option-cases (it.err s')) [
    | inl e ↦ next_of_fn-eq append (peeked_step it) (peeked-end next) ∙ rw e refl
    | inr (x, e) ↦ next_of_fn-eq append (peeked_step it) (peeked-end next) ∙ rw e refl
  ]

  peeked-Yields :
      {s end : it.State} {ts : List T} {e : Option E}
      → Yields T E it s ts e end
      → Yields T E
          (peeked_iter append it)
          ((none, s), none)
          ts
          (add_error append none e)
          ((none, end), add_error append none e)
  peeked-Yields (ends next) = ends (peeked_ends next)
  peeked-Yields (then next rest) =
      then (next_of_fn-eq append (peeked_step it) (peeked-some next)) (peeked-Yields rest)

  -- IsEmpty of an iterator with an element answers false, with an iterator that produces what the given one
  -- does, the element that was taken included, and ends with its error.
  pub is_empty_iter-Yields :
      {s s' end : it.State} {t : T} {ts : List T} {e : Option E}
      → it.next s ≡ (some t, s')
      → Yields T E it s' ts e end
      → (is_empty_iter it s ≡ (false, (some t, s')))
        × Yields T E
            (peeked_iter append it)
            ((some t, s'), none)
            (t ∷ ts)
            (add_error append none e)
            ((none, end), add_error append none e)
  unfolding is_empty_iter next_of_fn peeked_step
  is_empty_iter-Yields next rest = (
    ap
        (λ r. elim r.0 [
          | none ↦ (true, (none, (it.close r.1).1))
          | some el ↦ (false, (some el, r.1))
        ])
        next,
    then refl (peeked-Yields rest),
  )
