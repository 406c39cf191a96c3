-- ===== src/Document/InMemory.antt =====
-- The service of document/inmemory.go: encoded documents in a map. A call holds the lock throughout, so
-- that calls follow one another.
pub mod Promised
pub mod Specified
pub mod Related
pub mod Kept
pub mod Filtered
pub mod Updated
pub mod Listing
pub mod Refines
use blue.Prelude.{
  ℕ, Text, Bool, true, false, List, [], ◌∷◌, ◌++◌, Option, none, some, if◌then◌else◌,
}
use blue.Document.{Collection, find, put, remove}
use blue.Document.Outcome.{
  Outcome, done, failed, crashed, ◌>>=◌, answer_or, not_found, already_exists, bad_value,
}
use blue.Document.Fields.{Fields, FieldValue, Filter, Comparisons, update_proto, matches_all}
use blue.Document.Service.{
  Given, nothing, map_of, Marshaler, deref_create_value, encode, decode, Service,
}

abbrev pub Storage : Type 0
Storage = Collection Text

-- The test that the ID is free, of a Create.
abbrev pub when_free {ℓ κ} : {A : Type ℓ} {B : Type κ} → Option A → Bool → Outcome B → Outcome B
when_free none err_already_exists next = next
when_free (some a) err_already_exists next =
    if err_already_exists then failed already_exists else next

module _ (m : Marshaler) where
  -- set
  unfoldable pub set_value : ℕ → Storage → Text → Given → Bool → Outcome Storage
  set_value now db id nothing err_already_exists = crashed
  set_value now db id doc err_already_exists =
      answer_or (failed bad_value)
        (λ d.
          when_free (find db id) err_already_exists
            (encode m now d true >>= λ raw. done (put db id raw)))
        (deref_create_value doc)

  -- getValue and Get, with a pointer to a map as the receiver.
  unfoldable pub get_value : Storage → Text → Outcome Fields
  get_value db id = answer_or (failed not_found) (decode m) (find db id)

  -- Update
  unfoldable pub update_value :
      ℕ → Storage → Text → List FieldValue → List FieldValue → Outcome Storage
  update_value now db id [] preconds = crashed
  update_value now db id (u ∷ updates) preconds = get_value db id >>= λ proto.
      update_proto m.lower_case now proto (u ∷ updates) preconds >>= λ proto'.
      encode m now (map_of proto') false >>= λ raw. done (put db id raw)

  -- ListIterator.Extend, of the documents so far.
  unfoldable pub extend : Comparisons → List Filter → List Text → Text → Outcome (List Text)
  extend c filters docs v =
      answer_or (done docs)
        (λ proto. matches_all c m.lower_case proto filters >>= λ matches.
          done (if matches then docs ++ v ∷ [] else docs))
        (m.unmarshal v)

  -- The loop of List.
  unfoldable pub extend_all : Comparisons → List Filter → List Text → Storage → Outcome (List Text)
  extend_all c filters docs [] = done docs
  extend_all c filters docs ((id, v) ∷ storage) =
      extend c filters docs v >>= λ docs'. extend_all c filters docs' storage

  -- ListIterator.NextTo, which leaves the documents as they are if it fails to decode the first.
  unfoldable pub next_to : List Text → Outcome (Fields × List Text)
  next_to [] = crashed
  next_to (v ∷ docs) = decode m v >>= λ doc. done (doc, docs)

-- A call that failed leaves the map as it was.
abbrev pub kept {ℓ} : {S : Type ℓ} → S → Outcome S → S × Outcome (Unit {0})
kept db (done db') = (db', done tt)
kept db (failed e) = (db, failed e)
kept db crashed = (db, crashed)

abbrev pub in_memory : Marshaler → Service Storage
in_memory m = record {
  create = λ now db id doc. kept db (set_value m now db id doc true);
  set = λ now db id doc. kept db (set_value m now db id doc false);
  update = λ now db id updates preconds. kept db (update_value m now db id updates preconds);
  get = get_value m;
  delete = λ db id. (remove db id, done tt);
}

-- Drop
abbrev pub drop_all : Storage → Storage
drop_all db = []
