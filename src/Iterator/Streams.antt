-- ===== src/Iterator/Streams.antt =====
-- What the iterators of the package iterator produce, as lists.
use blue.Prelude.{
  ℕ, suc, ◌≡◌, refl, ap, ◌∙◌, Option, none, some, List, inl, inr, Option-cases, [], ◌∷◌, ◌++◌, map,
  length,
}
use mathlib.Core.List.{append_assoc, append-nil}
use blue.Iterator.{
  Iterator, next_of_slice, slice_iter, add_error, next_of_fn, map_step, map_iter, next_of_all,
  aggregate, to_slice,
}

-- From a state, the iterator produces these elements and then ends with this error, in this state.
pub data Yields (T E : Type 0) (it : Iterator T E)
    : it.State → List T → Option E → it.State → Type 0 where
  ends : {s s' : it.State} → it.next s ≡ (none, s') → Yields T E it s [] (it.err s') s'
  then :
      {s s' end : it.State} {t : T} {ts : List T} {e : Option E}
      → it.next s ≡ (some t, s')
      → Yields T E it s' ts e end
      → Yields T E it s (t ∷ ts) e end

-- The outcome of ToSlice for these elements and this error.
abbrev pub slice_result : {T E : Type 0} → List T → Option E → List T × Option E
slice_result ts none = (ts, none)
slice_result ts (some e) = ([], some e)

to_slice-some :
    {T E : Type 0} (it : Iterator T E) (calls : ℕ) (ret : List T) {s s' : it.State} {t : T}
    → it.next s ≡ (some t, s')
    → to_slice it (suc calls) ret s ≡ to_slice it calls (ret ++ t ∷ []) s'
unfolding to_slice
to_slice-some it calls ret next =
    ap
      (λ r. elim r.0 [
        | some t ↦ to_slice it calls (ret ++ t ∷ []) r.1
        | none ↦ elim (it.err r.1) [ some e ↦ some ([], some e) | none ↦ some (ret, none) ]
      ])
      next

to_slice-none :
    {T E : Type 0} (it : Iterator T E) (calls : ℕ) (ret : List T) {s s' : it.State}
    → it.next s ≡ (none, s')
    → to_slice it (suc calls) ret s
      ≡ elim (it.err s') [ some e ↦ some ([], some e) | none ↦ some (ret, none) ]
unfolding to_slice
to_slice-none it calls ret next =
    ap
      (λ r. elim r.0 [
        | some t ↦ to_slice it calls (ret ++ t ∷ []) r.1
        | none ↦ elim (it.err r.1) [ some e ↦ some ([], some e) | none ↦ some (ret, none) ]
      ])
      next

to_slice-Yields-from :
    {T E : Type 0} (it : Iterator T E) {s end : it.State} {ts : List T} {e : Option E}
    (ret : List T)
    → Yields T E it s ts e end
    → to_slice it (suc (length ts)) ret s ≡ some (slice_result (ret ++ ts) e)
to_slice-Yields-from it ret (ends {s' = end} next) = elim (Option-cases (it.err end)) [
  | inl e ↦ rw (to_slice-none it 0 ret next, e, append-nil ret) refl
  | inr (x, e) ↦ rw (to_slice-none it 0 ret next, e) refl
]
to_slice-Yields-from it ret (then {t = t} {ts = ts} {e = e} next rest) =
    to_slice-some it (suc (length ts)) ret next
    ∙ to_slice-Yields-from it (ret ++ t ∷ []) rest
    ∙ ap (λ l. some (slice_result l e)) (append_assoc ret (t ∷ []) ts)

-- ToSlice on an iterator that produces some elements and then ends returns, with one call of Next more
-- than there are elements, all of them in order, or the error alone if the iterator ended with one.
pub to_slice-Yields :
    {T E : Type 0} (it : Iterator T E) (s end : it.State) (ts : List T) (e : Option E)
    → Yields T E it s ts e end
    → to_slice it (suc (length ts)) [] s ≡ some (slice_result ts e)
to_slice-Yields it s end ts e run = to_slice-Yields-from it [] run

map_step-some :
    {T V E : Type 0} (append : Option E → E → E) (it : Iterator T E) (fn : T → V) {s s' : it.State}
    {t : T}
    → it.next s ≡ (some t, s')
    → map_step append it fn s ≡ ((some (fn t), none), s')
unfolding map_step
map_step-some append it fn next =
    ap (λ r. elim r.0 [ none ↦ ((none, it.err r.1), r.1) | some t ↦ ((some (fn t), none), r.1) ])
      next

map_step-none :
    {T V E : Type 0} (append : Option E → E → E) (it : Iterator T E) (fn : T → V) {s s' : it.State}
    → it.next s ≡ (none, s')
    → map_step append it fn s ≡ ((none, it.err s'), s')
unfolding map_step
map_step-none append it fn next =
    ap (λ r. elim r.0 [ none ↦ ((none, it.err r.1), r.1) | some t ↦ ((some (fn t), none), r.1) ])
      next

pub next_of_fn-eq :
    {S T E : Type 0} (append : Option E → E → E) (fn : S → (Option T × Option E) × S) {s s' : S}
    {t : Option T} {e : Option E}
    → fn s ≡ ((t, e), s')
    → next_of_fn append fn (s, none)
      ≡ elim e [ none ↦ (t, (s', none)) | some x ↦ (none, (s', some (append none x))) ]
unfolding next_of_fn
next_of_fn-eq append fn h =
    ap
      (λ r. elim r.0.1 [
        | none ↦ (r.0.0, (r.1, none))
        | some e ↦ (none, (r.1, some (append none e)))
      ])
      h

map_ends :
    {T V E : Type 0} (append : Option E → E → E) (it : Iterator T E) (fn : T → V) {s s' : it.State}
    → it.next s ≡ (none, s')
    → next_of_fn append (map_step append it fn) (s, none)
      ≡ (none, (s', add_error append none (it.err s')))
map_ends append it fn {s' = s'} next = elim (Option-cases (it.err s')) [
  | inl e ↦
      next_of_fn-eq append (map_step append it fn) (map_step-none append it fn next) ∙ rw e refl
  | inr (x, e) ↦
      next_of_fn-eq append (map_step append it fn) (map_step-none append it fn next) ∙ rw e refl
]

-- Map produces the images of the elements that the iterator produces, in order, and ends with its
-- error, if it ends with one.
pub map-Yields :
    {T V E : Type 0} (append : Option E → E → E) (it : Iterator T E) (fn : T → V) {s end : it.State}
    {ts : List T} {e : Option E}
    → Yields T E it s ts e end
    → Yields V E
        (map_iter append it fn)
        (s, none)
        (map fn ts)
        (add_error append none e)
        (end, add_error append none e)
map-Yields append it fn (ends next) = ends (map_ends append it fn next)
map-Yields append it fn (then next rest) =
    then (next_of_fn-eq append (map_step append it fn) (map_step-some append it fn next))
      (map-Yields append it fn rest)

-- FromSlice produces the elements of its slice.
pub slice-Yields : (T E : Type 0) (els : List T) → Yields T E (slice_iter T E) els els none []
unfolding next_of_slice
slice-Yields T E [] = ends refl
slice-Yields T E (x ∷ els) = then refl (slice-Yields T E els)

next_of_all-some :
    {T E : Type 0} (append : Option E → E → E) (it : Iterator T E) (its : List it.State)
    (all : Option E) {s s' : it.State} {t : T}
    → it.next s ≡ (some t, s')
    → next_of_all append it (s ∷ its) all ≡ (some t, (s' ∷ its, all))
unfolding next_of_all
next_of_all-some append it its all next =
    ap
      (λ r. elim r.0 [
        | some t ↦ (some t, (r.1 ∷ its, all))
        | none ↦ elim (add_error append (add_error append all (it.err r.1)) (it.close r.1).0) [
          | some e ↦ (none, ((it.close r.1).1 ∷ its, some e))
          | none ↦ next_of_all append it its none
        ]
      ])
      next

next_of_all-none :
    {T E : Type 0} (append : Option E → E → E) (it : Iterator T E) (its : List it.State)
    {s s' : it.State}
    → it.next s ≡ (none, s')
    → it.err s' ≡ none
    → (it.close s').0 ≡ none
    → next_of_all append it (s ∷ its) none ≡ next_of_all append it its none
unfolding next_of_all
next_of_all-none append it its {s' = s'} next err closed =
    ap
      (λ r. elim r.0 [
        | some t ↦ (some t, (r.1 ∷ its, none))
        | none ↦ elim (add_error append (add_error append none (it.err r.1)) (it.close r.1).0) [
          | some e ↦ (none, ((it.close r.1).1 ∷ its, some e))
          | none ↦ next_of_all append it its none
        ]
      ])
      next
    ∙ rw (closed, err) refl

pub same_start :
    {T E : Type 0} (it : Iterator T E) {r s end : it.State} {ts : List T} {e : Option E}
    → it.next r ≡ it.next s
    → Yields T E it s ts e end
    → Yields T E it r ts e end
same_start it h (ends next) = ends (h ∙ next)
same_start it h (then next rest) = then (h ∙ next) rest

-- Where the first iterator produces some elements, ends without an error and is closed without one,
-- and Aggregate produces others from the iterators after it, Aggregate produces the former and then
-- the latter from all of them, and ends alike.
pub aggregate-Yields :
    {T E : Type 0} (append : Option E → E → E) (it : Iterator T E) (its : List it.State)
    {s end : it.State} {ts us : List T} {e f : Option E} {last : List it.State × Option E}
    → Yields T E it s ts e end
    → e ≡ none
    → (it.close end).0 ≡ none
    → Yields T E (aggregate append it) (its, none) us f last
    → Yields T E (aggregate append it) (s ∷ its, none) (ts ++ us) f last
aggregate-Yields append it its (ends next) err closed rest =
    same_start (aggregate append it) (next_of_all-none append it its next err closed) rest
aggregate-Yields append it its (then next first) err closed rest =
    then (next_of_all-some append it its none next)
      (aggregate-Yields append it its first err closed rest)
