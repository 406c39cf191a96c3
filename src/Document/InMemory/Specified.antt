-- ===== src/Document/InMemory/Specified.antt =====
-- What the service of document/inmemory.go is to do: a map of decoded documents, under the same calls.
use blue.Prelude.{
  not, ◌&&◌, ℕ, Text, ◌≡◌, zero, suc, length, if◌then◌else◌, Bool, true, false, List, [], ◌∷◌, some,
}
use blue.Document.{Collection, find, put, remove}
use blue.Document.Outcome.{
  Outcome, done, failed, crashed, ◌>>=◌, answer_or, not_found, bad_value, already_exists,
}
use blue.Document.Fields.{
  Fields, FieldValue, Comparisons, Filter, time, put_value, updated_at_field,
}
use blue.Document.Service.{Given, map_of, Marshaler}
use blue.Document.InMemory.{Storage, set_value, get_value, update_value, extend_all, next_to}
use blue.Document.InMemory.Promised.{
  below, is_document, is_nil, kept_value, change_of, passes, is_there,
}

-- The calls of a client.
pub data Command : Type 0 where
  create_doc set_doc : ℕ → Text → Given → Command
  get_doc delete_doc : Text → Command
  update_doc : ℕ → Text → List FieldValue → List FieldValue → Command
  list_docs : List Filter → Command
  drop_docs : Command

-- What a call answers with.
pub data Answer : Type 0 where
  no_document : Answer
  document : Fields → Answer
  documents_listed : List Fields → Answer

-- What a call changes, and its answer.
abbrev pub Step : Type 0 → Type 0
Step S = Outcome (S × Answer)

-- The answer to a call, then what follows; a panic ends the run.
abbrev pub follow {ℓ} :
    {S : Type ℓ} → Outcome (S × Answer) → S → (S → List (Outcome Answer)) → List (Outcome Answer)
follow (done (s', doc)) s next = done doc ∷ next s'
follow (failed e) s next = failed e ∷ next s
follow crashed s next = crashed ∷ []

-- The answers to a sequence of calls.
abbrev pub answers :
    {S : Type 0} → (S → Command → Step S) → S → List Command → List (Outcome Answer)
answers step s [] = []
answers step s (c ∷ cs) = follow (step s c) s (λ s'. answers step s' cs)

abbrev pub changes : {S : Type 0} → Outcome S → Step S
changes r = r >>= λ s. done (s, no_document)

-- A client that takes as many documents from an iterator as it holds.
unfoldable pub drain : Marshaler → ℕ → List Text → Outcome (List Fields)
drain m zero docs = done []
drain m (suc n) docs = next_to m docs >>= λ (doc, rest). drain m n rest >>= λ ds. done (doc ∷ ds)

module _ (m : Marshaler) (cmp : Comparisons) where
  -- A call of the service; a listing is read to its end.
  abbrev pub serve : Storage → Command → Step Storage
  serve db (create_doc now id doc) = changes (set_value m now db id doc true)
  serve db (set_doc now id doc) = changes (set_value m now db id doc false)
  serve db (get_doc id) = get_value m db id >>= λ doc. done (db, document doc)
  serve db (delete_doc id) = done (remove db id, no_document)
  serve db (update_doc now id updates preconds) =
      changes (update_value m now db id updates preconds)
  serve db (list_docs filters) = extend_all m cmp filters [] db >>= λ raws.
      drain m (length raws) raws >>= λ ds. done (db, documents_listed ds)
  serve db drop_docs = done ([], no_document)

module _ (m : Marshaler) (stored : Given → Fields) where
  abbrev pub Documents : Type 0
  Documents = Collection Fields

  -- The document that a value is read back as, if the value can be marshalled.
  abbrev pub readable : Given → Outcome Fields
  readable g = answer_or crashed (λ raw. done (stored g)) (m.marshal g)

  -- Of a value that is a document, which is new if it has to be: the value is kept under the ID.
  abbrev pub create_or_set : ℕ → Documents → Text → Given → Bool → Outcome Documents
  create_or_set now db id g new =
      if is_nil g
      then crashed
      else if not (is_document (below g))
      then failed bad_value
      else if new && is_there (find db id)
      then failed already_exists
      else (kept_value now (below g) >>= readable >>= λ d. done (put db id d))

  abbrev pub get_or_fail : Documents → Text → Outcome Fields
  get_or_fail db id = answer_or (failed not_found) done (find db id)

  abbrev pub change : ℕ → Documents → Text → List FieldValue → List FieldValue → Outcome Documents
  change now db id [] preconds = crashed
  change now db id (u ∷ updates) preconds = get_or_fail db id >>= λ doc.
      change_of m.lower_case doc (u ∷ updates) preconds >>= λ doc'.
      readable (map_of (put_value doc' (updated_at_field m.lower_case) (time now))) >>= λ d.
      done (put db id d)

  -- The documents that match, in their order.
  abbrev pub matching : Comparisons → List Filter → Documents → Outcome (List Fields)
  matching cmp filters [] = done []
  matching cmp filters ((id, doc) ∷ ds) = passes cmp m.lower_case doc filters >>= λ matches.
      matching cmp filters ds >>= λ rest. done (if matches then doc ∷ rest else rest)

  -- The same calls on a map of documents.
  abbrev pub specified : Comparisons → Documents → Command → Step Documents
  specified cmp db (create_doc now id g) = changes (create_or_set now db id g true)
  specified cmp db (set_doc now id g) = changes (create_or_set now db id g false)
  specified cmp db (get_doc id) = get_or_fail db id >>= λ doc. done (db, document doc)
  specified cmp db (delete_doc id) = done (remove db id, no_document)
  specified cmp db (update_doc now id updates preconds) =
      changes (change now db id updates preconds)
  specified cmp db (list_docs filters) =
      matching cmp filters db >>= λ ds. done (db, documents_listed ds)
  specified cmp db drop_docs = done ([], no_document)

  -- The storage holds the documents, encoded, in their order.
  abbrev pub Holds : Storage → Documents → Type 0
  Holds [] [] = Unit
  Holds ((k, raw) ∷ db) ((j, doc) ∷ ds) = (k ≡ j) × (m.unmarshal raw ≡ some doc) × Holds db ds
  Holds _ _ = ⊥
