-- ===== src/Document/InMemory/Listing.antt =====
-- What a listing of the in-memory service holds, and what a client reads from it.
use blue.Prelude.{
  Text, ◌≡◌, refl, sym, ap, Bool, true, false, List, [], ◌∷◌, ◌++◌, some, length, if◌then◌else◌,
}
use mathlib.Core.List.{append_assoc, append-nil}
use mathlib.Core.Path.{subst}
use blue.Document.Outcome.{Outcome, done, failed, crashed, ◌>>=◌}
use blue.Document.Fields.{Fields, Filter, Comparisons}
use blue.Document.Service.{Given, Marshaler}
use blue.Document.InMemory.{Storage, extend, extend_all, next_to}
use blue.Document.InMemory.Filtered.{matches_all-passes}
use blue.Document.InMemory.Promised.{passes}
use blue.Document.InMemory.Related.{Related}
use blue.Document.InMemory.Specified.{Documents, Holds, drain, matching}

-- Encoded documents and what they decode to, in order.
abbrev pub AllRead : Marshaler → List Text → List Fields → Type 0
AllRead m [] [] = Unit
AllRead m (raw ∷ raws) (doc ∷ docs) = (m.unmarshal raw ≡ some doc) × AllRead m raws docs
AllRead m _ _ = ⊥

AllRead-snoc :
    (m : Marshaler) (raws : List Text) (docs : List Fields) (raw : Text) (doc : Fields)
    → AllRead m raws docs
    → m.unmarshal raw ≡ some doc
    → AllRead m (raws ++ raw ∷ []) (docs ++ doc ∷ [])
AllRead-snoc m [] [] raw doc h e = (e, tt)
AllRead-snoc m [] (d ∷ docs) raw doc h e = absurd h
AllRead-snoc m (r ∷ raws) [] raw doc h e = absurd h
AllRead-snoc m (r ∷ raws) (d ∷ docs) raw doc (f, h) e = (f, AllRead-snoc m raws docs raw doc h e)

-- A client that takes every document gets what they decode to.
pub drain-AllRead :
    (m : Marshaler) (raws : List Text) (docs : List Fields)
    → AllRead m raws docs
    → drain m (length raws) raws ≡ done docs
unfolding drain next_to
drain-AllRead m [] [] h = refl
drain-AllRead m [] (d ∷ docs) h = absurd h
drain-AllRead m (r ∷ raws) [] h = absurd h
drain-AllRead m (r ∷ raws) (d ∷ docs) (e, h) = rw (e, drain-AllRead m raws docs h) refl

-- Documents put before those that a listing finds.
abbrev after : List Fields → Outcome (List Fields) → Outcome (List Fields)
after docs r = r >>= λ rest. done (docs ++ rest)

after-cons :
    (docs : List Fields) (doc : Fields) (r : Outcome (List Fields))
    → after (docs ++ doc ∷ []) r ≡ after docs (r >>= λ rest. done (doc ∷ rest))
after-cons docs doc (done rest) = ap done (append_assoc docs (doc ∷ []) rest)
after-cons docs doc (failed e) = refl
after-cons docs doc crashed = refl

after-same :
    (docs : List Fields) (r : Outcome (List Fields)) → after docs r ≡ after docs (r >>= done)
after-same docs (done rest) = refl
after-same docs (failed e) = refl
after-same docs crashed = refl

after-none : (r : Outcome (List Fields)) → after [] r ≡ r
after-none (done rest) = refl
after-none (failed e) = refl
after-none crashed = refl

module _ (m : Marshaler) (stored : Given → Fields) (c : Comparisons) (filters : List Filter) where
  -- One more document, by whether it matches.
  one_more :
      (x : Outcome Bool) (db : Storage) (ds : Documents m stored) (raws : List Text)
      (docs : List Fields) (raw : Text) (doc : Fields)
      → Related
          (AllRead m)
          (extend_all m c filters (raws ++ raw ∷ []) db)
          (after (docs ++ doc ∷ []) (matching m stored c filters ds))
      → Related
          (AllRead m)
          (extend_all m c filters raws db)
          (after docs (matching m stored c filters ds))
      → Related
          (AllRead m)
          (x >>= (λ matches. done (if matches then raws ++ raw ∷ [] else raws)) >>= λ docs'.
            extend_all m c filters docs' db)
          (after docs (
            x >>= λ matches.
            matching m stored c filters ds >>= λ rest. done (if matches then doc ∷ rest else rest)))
  one_more (done true) db ds raws docs raw doc kept left =
      subst (Related (AllRead m) (extend_all m c filters (raws ++ raw ∷ []) db))
        (after-cons docs doc (matching m stored c filters ds)) kept
  one_more (done false) db ds raws docs raw doc kept left =
      subst (Related (AllRead m) (extend_all m c filters raws db))
        (after-same docs (matching m stored c filters ds)) left
  one_more (failed e) db ds raws docs raw doc kept left = refl
  one_more crashed db ds raws docs raw doc kept left = tt

  extend_from-AllRead :
      (db : Storage) (ds : Documents m stored) (raws : List Text) (docs : List Fields)
      → AllRead m raws docs
      → Holds m stored db ds
      → Related
          (AllRead m)
          (extend_all m c filters raws db)
          (after docs (matching m stored c filters ds))
  unfolding extend_all extend
  extend_from-AllRead [] [] raws docs r h = subst (AllRead m raws) (sym (append-nil docs)) r
  extend_from-AllRead [] (d ∷ ds) raws docs r h = absurd h
  extend_from-AllRead (b ∷ db) [] raws docs r h = absurd h
  extend_from-AllRead ((k, raw) ∷ db) ((j, doc) ∷ ds) raws docs r (e, f, h) =
      rw (extend, f, matches_all-passes c m.lower_case doc filters)
        (one_more (passes c m.lower_case doc filters) db ds raws docs raw doc
          (extend_from-AllRead db ds (raws ++ raw ∷ []) (docs ++ doc ∷ [])
            (AllRead-snoc m raws docs raw doc r f) h)
          (extend_from-AllRead db ds raws docs r h))

  pub extend_all-AllRead :
      (db : Storage) (ds : Documents m stored)
      → Holds m stored db ds
      → Related (AllRead m) (extend_all m c filters [] db) (matching m stored c filters ds)
  extend_all-AllRead db ds h =
      subst (Related (AllRead m) (extend_all m c filters [] db))
        (after-none (matching m stored c filters ds)) (extend_from-AllRead db ds [] [] tt h)
