-- ===== src/Iterator/Skipping.antt =====
-- The iterators that skip or look ahead: filter.go, unslice.go and IsEmpty of utils.go. The loops of Filter and
-- Unslice run on a number of calls of Next at most.
pub mod Unslicing
pub mod Filtering
pub mod Peeking
use blue.Prelude.{
  ℕ, zero, suc, ◌+◌, ◌≤◌, ◌≡◌, refl, sym, ap, ◌∙◌, Bool, true, false, Option, none, some, List, inl,
  inr, Bool-cases, Option-cases, [], ◌∷◌, ◌++◌, length, arith,
}
use blue.Document.{select}
use blue.Iterator.{Iterator, add_error, next_of_fn, fn_iter}
use blue.Iterator.Streams.{Yields, ends, then, next_of_fn-eq, same_start}

-- Unslice.Next, with the elements that are left of the last slice.
unfoldable pub next_of_unslice :
    {T E : Type 0}
    → (it : Iterator (List T) E) → ℕ
    → it.State × List T
    → Option T × (it.State × List T)
next_of_unslice it calls (s, x ∷ next) = (some x, (s, next))
next_of_unslice it zero (s, []) = (none, (s, []))
next_of_unslice it (suc calls) (s, []) = elim (it.next s).0 [
  | none ↦ (none, ((it.next s).1, []))
  | some next ↦ next_of_unslice it calls ((it.next s).1, next)
]

-- Unslice
abbrev pub unslice : {T E : Type 0} → ℕ → Iterator (List T) E → Iterator T E
unslice {T = T} calls it = record {
  State = it.State × List T;
  next = next_of_unslice it calls;
  err = λ (s, next). it.err s;
  close = λ (s, next). let (e, s') = it.close s in (e, (s', next));
}

-- The function of Filter.
unfoldable pub filter_step :
    {T E : Type 0}
    → (it : Iterator T E) → (T → Bool)
    → ℕ
    → it.State
    → (Option T × Option E) × it.State
filter_step it fn zero s = ((none, none), s)
filter_step it fn (suc calls) s = elim (it.next s).0 [
  | none ↦ ((none, it.err (it.next s).1), (it.next s).1)
  | some t ↦ elim (fn t) [
    | true ↦ ((some t, none), (it.next s).1)
    | false ↦ filter_step it fn calls (it.next s).1
  ]
]

-- Filter
abbrev pub filter_iter :
    {T E : Type 0} → (Option E → E → E) → ℕ → Iterator T E → (T → Bool) → Iterator T E
filter_iter append calls it fn = fn_iter append it.State _ (filter_step it fn calls) it.close

-- The function of the iterator that IsEmpty answers with: first the element that it took.
unfoldable pub peeked_step :
    {T E : Type 0}
    → (it : Iterator T E) → Option T × it.State
    → (Option T × Option E) × (Option T × it.State)
peeked_step it (some el, s) = ((some el, none), (none, s))
peeked_step it (none, s) = elim (it.next s).0 [
  | none ↦ ((none, it.err (it.next s).1), (none, (it.next s).1))
  | some t ↦ ((some t, none), (none, (it.next s).1))
]

abbrev pub peeked_iter : {T E : Type 0} → (Option E → E → E) → Iterator T E → Iterator T E
peeked_iter {T = T} append it =
    fn_iter append (Option T × it.State) _ (peeked_step it)
      (λ (el, s). let (e, s') = it.close s in (e, (el, s')))

-- IsEmpty: whether the iterator is empty, which closes it, and the state that goes on otherwise.
unfoldable pub is_empty_iter :
    {T E : Type 0} → (it : Iterator T E) → it.State → Bool × (Option T × it.State)
is_empty_iter it s = elim (it.next s).0 [
  | none ↦ (true, (none, (it.close (it.next s).1).1))
  | some el ↦ (false, (some el, (it.next s).1))
]
