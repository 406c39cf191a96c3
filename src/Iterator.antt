-- ===== src/Iterator.antt =====
-- The package iterator, in the files iterator, utils, map, reduce, aggregate and error. An iterator is
-- its state and its methods; the context that every Next takes is not looked at in these files.
pub mod Streams
pub mod Skipping
mod Examples
use blue.Prelude.{ℕ, zero, suc, Option, none, some, List, [], ◌∷◌, ◌++◌}

-- Iterator: Next and Close also change the state.
pub record Iterator (T E : Type 0) : Type 1 where
  pub State : Type 0
  pub next : State → Option T × State
  pub err : State → Option E
  pub close : State → Option E × State

-- sliceIter, with the elements that are left.
unfoldable pub next_of_slice : {T : Type 0} → List T → Option T × List T
next_of_slice [] = (none, [])
next_of_slice (x ∷ els) = (some x, els)

abbrev pub slice_iter : (T E : Type 0) → Iterator T E
slice_iter T E = record {
  State = List T;
  next = next_of_slice;
  err = λ els. none;
  close = λ els. (none, els);
}

-- errorIt, with its error.
abbrev pub error_it : (T E : Type 0) → Iterator T E
error_it T E = record {
  State = Option E;
  next = λ e. (none, e);
  err = λ e. e;
  close = λ e. (none, e);
}

-- The iterators that keep errors; multierror.Append is a parameter.
module _ {E : Type 0} (append : Option E → E → E) where
  -- `if err != nil { all = multierror.Append(all, err) }`
  abbrev pub add_error : Option E → Option E → Option E
  add_error all none = all
  add_error all (some e) = some (append all e)

  -- fnIter, with the state of its function and its error.
  unfoldable pub next_of_fn :
      {S T : Type 0} → (S → (Option T × Option E) × S) → S × Option E → Option T × (S × Option E)
  next_of_fn fn (s, all) =
      let r = fn s in
      elim r.0.1 [ none ↦ (r.0.0, (r.1, all)) | some e ↦ (none, (r.1, some (append all e))) ]

  abbrev pub fn_iter :
      (S T : Type 0) → (S → (Option T × Option E) × S) → (S → Option E × S) → Iterator T E
  fn_iter S T fn close = record {
    State = S × Option E;
    next = next_of_fn fn;
    err = λ (s, all). all;
    close = λ (s, all). let (e, s') = close s in (e, (s', all));
  }

  -- The function of Map.
  unfoldable pub map_step :
      {T V : Type 0} → (it : Iterator T E) → (T → V) → it.State → (Option V × Option E) × it.State
  map_step it fn s =
      let r = it.next s in
      elim r.0 [ none ↦ ((none, it.err r.1), r.1) | some t ↦ ((some (fn t), none), r.1) ]

  -- Map
  abbrev pub map_iter : {T V : Type 0} → Iterator T E → (T → V) → Iterator V E
  map_iter it fn = fn_iter it.State _ (map_step it fn) it.close

  -- aggregate.Next, on the iterators that are left.
  unfoldable pub next_of_all :
      {T : Type 0}
      → (it : Iterator T E) → List it.State
      → Option E
      → Option T × (List it.State × Option E)
  next_of_all it [] all = (none, ([], all))
  next_of_all it (s ∷ its) all =
      let r = it.next s in
      let closed = it.close r.1 in
      elim r.0 [
        | some t ↦ (some t, (r.1 ∷ its, all))
        | none ↦ elim (add_error (add_error all (it.err r.1)) closed.0) [
          | some e ↦ (none, (closed.1 ∷ its, some e))
          | none ↦ next_of_all it its none
        ]
      ]

  -- aggregate.Close
  unfoldable pub close_all :
      {T : Type 0} → (it : Iterator T E) → List it.State → Option E → Option E × List it.State
  close_all it [] all = (all, [])
  close_all it (s ∷ its) all =
      let (e, s') = it.close s in
      let (result, its') = close_all it its (add_error all e) in (result, s' ∷ its')

  -- Aggregate, of iterators of one kind.
  abbrev pub aggregate : {T : Type 0} → Iterator T E → Iterator T E
  aggregate it = record {
    State = List it.State × Option E;
    next = λ (its, all). next_of_all it its all;
    err = λ (its, all). all;
    close = λ (its, all). let (e, its') = close_all it its none in (e, (its', all));
  }

-- ToSlice, for a number of calls of Next at most: the slice, or the error.
unfoldable pub to_slice :
    {T E : Type 0} → (it : Iterator T E) → ℕ → List T → it.State → Option (List T × Option E)
to_slice it zero ret s = none
to_slice it (suc calls) ret s =
    let r = it.next s in
    elim r.0 [
      | some t ↦ to_slice it calls (ret ++ t ∷ []) r.1
      | none ↦ elim (it.err r.1) [ some e ↦ some ([], some e) | none ↦ some (ret, none) ]
    ]

-- Reduce, for a number of calls of Next at most: the last value, and the error.
unfoldable pub reduce :
    {T V E : Type 0}
    → (it : Iterator T E) → (V → T → V × Option E)
    → ℕ
    → V
    → it.State
    → Option (V × Option E)
reduce it reducer zero ret s = none
reduce it reducer (suc calls) ret s =
    let r = it.next s in
    elim r.0 [
      | none ↦ some (ret, it.err r.1)
      | some t ↦ elim (reducer ret t).1 [
        | some e ↦ some ((reducer ret t).0, some e)
        | none ↦ reduce it reducer calls (reducer ret t).0 r.1
      ]
    ]
