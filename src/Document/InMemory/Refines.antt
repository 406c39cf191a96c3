-- ===== src/Document/InMemory/Refines.antt =====
-- The service of document/inmemory.go, compared call by call with a map of decoded documents.
use blue.Prelude.{
  ℕ, Text, text_eq, ◌≡◌, refl, sym, not, ◌&&◌, if◌then◌else◌, Bool, true, false, List, [], ◌∷◌,
  Option, none, some, Bool-cases, Option-cases, inl, inr,
}
use blue.Document.{find, put, remove}
use blue.Document.Outcome.{
  Outcome, done, failed, crashed, ◌>>=◌, answer_or, not_found, bad_value, already_exists,
}
use blue.Document.Fields.{Fields, FieldValue, Comparisons, time, put_value, updated_at_field}
use blue.Document.Service.{
  stamp_updated, Given, nothing, scalar, map_of, typed_map, struct_of, pointer, Marshaler,
  deref_create_value, encode, decode, marshalled,
}
use blue.Document.InMemory.{Storage, when_free, set_value, get_value, update_value, extend_all}
use blue.Document.InMemory.Updated.{update_proto-change_of, put_value-again, bind_assoc}
use blue.Document.InMemory.Kept.{deref_create_value-below, stamp_created-kept_value}
use blue.Document.InMemory.Promised.{change_of, below, is_document, is_there, kept_value}
use blue.Document.InMemory.Related.{Related, Related->>=, Related->>=-same}
use blue.Document.InMemory.Listing.{AllRead, extend_all-AllRead, drain-AllRead}
use blue.Document.InMemory.Specified.{
  Answer, list_docs, matching, Command, create_doc, set_doc, get_doc, delete_doc, update_doc,
  drop_docs, Step, follow, answers, changes, serve, Documents, readable, create_or_set, get_or_fail,
  change, specified, Holds,
}

module _ (m : Marshaler) (stored : Given → Fields) where
  -- An encoded document and what it decodes to.
  abbrev Reads : Text → Fields → Type 0
  Reads raw doc = m.unmarshal raw ≡ some doc

  abbrev Finds : Option Text → Option Fields → Type 0
  Finds none none = Unit
  Finds (some raw) (some doc) = Reads raw doc
  Finds _ _ = ⊥

  find-Holds :
      (db : Storage) (ds : Documents m stored) (id : Text)
      → Holds m stored db ds
      → Finds (find db id) (find ds id)
  unfolding find
  find-Holds [] [] id h = tt
  find-Holds [] (d ∷ ds) id h = absurd h
  find-Holds (r ∷ db) [] id h = absurd h
  find-Holds ((k, raw) ∷ db) ((j, doc) ∷ ds) id (e, r, h) =
      rw (sym e)
        (elim (Bool-cases (text_eq k id)) [ inl s ↦ rw s r | inr s ↦ rw s (find-Holds db ds id h) ])

  put-Holds :
      (db : Storage) (ds : Documents m stored) (id raw : Text) (doc : Fields)
      → Holds m stored db ds
      → Reads raw doc
      → Holds m stored (put db id raw) (put ds id doc)
  unfolding put
  put-Holds [] [] id raw doc h r = (refl, r, tt)
  put-Holds [] (d ∷ ds) id raw doc h r = absurd h
  put-Holds (b ∷ db) [] id raw doc h r = absurd h
  put-Holds ((k, b) ∷ db) ((j, d) ∷ ds) id raw doc (e, o, h) r =
      rw (sym e) (elim (Bool-cases (text_eq k id)) [
        | inl s ↦ rw s (refl, r, h)
        | inr s ↦ rw s (refl, o, put-Holds db ds id raw doc h r)
      ])

  remove-Holds :
      (db : Storage) (ds : Documents m stored) (id : Text)
      → Holds m stored db ds
      → Holds m stored (remove db id) (remove ds id)
  unfolding remove
  remove-Holds [] [] id h = tt
  remove-Holds [] (d ∷ ds) id h = absurd h
  remove-Holds (b ∷ db) [] id h = absurd h
  remove-Holds ((k, b) ∷ db) ((j, d) ∷ ds) id (e, o, h) =
      rw (sym e) (elim (Bool-cases (text_eq k id)) [
        | inl s ↦ rw s (remove-Holds db ds id h)
        | inr s ↦ rw s (refl, o, remove-Holds db ds id h)
      ])

  -- The marshaler's codec: what it writes is read back as the document stored.
  module _
      (codec : (g : Given) (raw : Text)
        → m.marshal g ≡ some raw
        → m.unmarshal raw ≡ some (stored g)) where
    marshalled-Reads : (g : Given) → Related Reads (marshalled m g) (readable m stored g)
    marshalled-Reads g = elim (Option-cases (m.marshal g)) [
      | inl e ↦ rw e tt
      | inr (raw, e) ↦ rw e (codec g raw e)
    ]

    -- What is written into the storage, from the same value.
    written-Holds :
        (db : Storage) (ds : Documents m stored) (id : Text) (r : Outcome Given)
        → Holds m stored db ds
        → Related
            (Holds m stored)
            (r >>= marshalled m >>= λ raw. done (put db id raw))
            (r >>= readable m stored >>= λ d. done (put ds id d))
    written-Holds db ds id r h =
        Related->>= Reads (Holds m stored) (r >>= marshalled m) (r >>= readable m stored) _ _
          (Related->>=-same Reads r (marshalled m) (readable m stored) marshalled-Reads)
          (λ raw d e. put-Holds db ds id raw d h e)

    -- The test that the ID is free, if it has to be.
    when_free-Holds :
        (o : Option Text) (p : Option Fields) (new : Bool) (x : Outcome Storage)
        (y : Outcome (Documents m stored))
        → Finds o p
        → Related (Holds m stored) x y
        → Related
            (Holds m stored)
            (when_free o new x)
            (if new && is_there p then failed already_exists else y)
    when_free-Holds none none true x y f r = r
    when_free-Holds none none false x y f r = r
    when_free-Holds (some a) (some b) true x y f r = refl
    when_free-Holds (some a) (some b) false x y f r = r
    when_free-Holds none (some b) new x y f r = absurd f
    when_free-Holds (some a) none new x y f r = absurd f

    module _ (now : ℕ) (db : Storage) (ds : Documents m stored) (id : Text)
        (h : Holds m stored db ds) where
      stored-Holds :
          (g : Given) (new : Bool)
          → is_document g ≡ true
          → Related
              (Holds m stored)
              (when_free (find db id) new (encode m now g true >>= λ raw. done (put db id raw)))
              (if new && is_there (find ds id)
                then failed already_exists
                else (kept_value now g >>= readable m stored >>= λ d. done (put ds id d)))
      unfolding encode
      stored-Holds g new d =
          when_free-Holds (find db id) (find ds id) new _ _ (find-Holds db ds id h)
            (rw (stamp_created-kept_value now g d) (written-Holds db ds id (kept_value now g) h))

      document-Holds :
          (g : Given) (new : Bool)
          → Related
              (Holds m stored)
              (answer_or
                (failed bad_value)
                (λ d.
                  when_free (find db id) new (encode m now d true >>= λ raw. done (put db id raw)))
                (deref_create_value g))
              (if not (is_document (below g))
                then failed bad_value
                else if new && is_there (find ds id)
                then failed already_exists
                else (kept_value now (below g) >>= readable m stored >>= λ d. done (put ds id d)))
      document-Holds g new = elim (Bool-cases (is_document (below g))) [
        | inl d ↦ rw (Related, deref_create_value-below g, d) (stored-Holds (below g) new d)
        | inr d ↦ rw (Related, deref_create_value-below g, d) refl
      ]

      set_value-Holds :
          (g : Given) (new : Bool)
          → Related
              (Holds m stored)
              (set_value m now db id g new)
              (create_or_set m stored now ds id g new)
      unfolding set_value
      set_value-Holds nothing new = tt
      set_value-Holds scalar new = document-Holds scalar new
      set_value-Holds (map_of f) new = document-Holds (map_of f) new
      set_value-Holds (typed_map f) new = document-Holds (typed_map f) new
      set_value-Holds (struct_of f) new = document-Holds (struct_of f) new
      set_value-Holds (pointer g) new = document-Holds (pointer g) new

    get_value-Finds :
        (o : Option Text) (p : Option Fields)
        → Finds o p
        → answer_or (failed not_found) (decode m) o ≡ answer_or (failed not_found) done p
    get_value-Finds none none f = refl
    get_value-Finds (some raw) (some doc) f = rw f refl
    get_value-Finds none (some doc) f = absurd f
    get_value-Finds (some raw) none f = absurd f

    get_value-Holds :
        (db : Storage) (ds : Documents m stored) (id : Text)
        → Holds m stored db ds
        → get_value m db id ≡ get_or_fail m stored ds id
    unfolding get_value
    get_value-Holds db ds id h = get_value-Finds (find db id) (find ds id) (find-Holds db ds id h)

    abbrev with_time : ℕ → Fields → Outcome Fields
    with_time now p = done (put_value p (updated_at_field m.lower_case) (time now))

    update_value-Holds :
        (now : ℕ) (db : Storage) (ds : Documents m stored) (id : Text)
        (updates preconds : List FieldValue)
        → Holds m stored db ds
        → Related
            (Holds m stored)
            (update_value m now db id updates preconds)
            (change m stored now ds id updates preconds)
    unfolding update_value encode
    update_value-Holds now db ds id [] preconds h = tt
    update_value-Holds now db ds id (u ∷ updates) preconds h = rw (get_value-Holds db ds id h) (
        Related->>=-same (Holds m stored) (get_or_fail m stored ds id) _ _ (λ doc.
          rw
            (
              update_proto-change_of m.lower_case now doc (u ∷ updates) preconds,
              bind_assoc (change_of m.lower_case doc (u ∷ updates) preconds) (with_time now) (λ p.
                  stamp_updated m.lower_case now (map_of p) >>= marshalled m >>= λ raw.
                  done (put db id raw)),
            )
            (Related->>=-same (Holds m stored) (change_of m.lower_case doc (u ∷ updates) preconds) _
              _
              (λ doc'. rw (put_value-again doc' (updated_at_field m.lower_case) (time now)) (
                written-Holds db ds id
                  (done (map_of (put_value doc' (updated_at_field m.lower_case) (time now)))) h)))))

    abbrev Agrees : Storage × Answer → Documents m stored × Answer → Type 0
    Agrees (db, a) (ds, b) = Holds m stored db ds × (a ≡ b)

    changes-Agrees :
        (x : Outcome Storage) (y : Outcome (Documents m stored))
        → Related (Holds m stored) x y
        → Related Agrees (changes x) (changes y)
    changes-Agrees x y r = Related->>= (Holds m stored) Agrees x y _ _ r (λ db ds h. (h, refl))

    follow-Agrees :
        (x : Step Storage) (y : Step (Documents m stored)) (db : Storage) (ds : Documents m stored)
        (f : Storage → List (Outcome Answer)) (g : Documents m stored → List (Outcome Answer))
        → Holds m stored db ds
        → ((b : Storage) (s : Documents m stored) → Holds m stored b s → f b ≡ g s)
        → Related Agrees x y
        → follow x db f ≡ follow y ds g
    follow-Agrees (done (b, o)) (done (s, p)) db ds f g h k (j, e) = rw (e, k b s j) refl
    follow-Agrees (failed e) (failed d) db ds f g h k r = rw (r, k db ds h) refl
    follow-Agrees crashed crashed db ds f g h k r = refl
    follow-Agrees (done x) (failed d) db ds f g h k r = absurd r
    follow-Agrees (done x) crashed db ds f g h k r = absurd r
    follow-Agrees (failed e) (done y) db ds f g h k r = absurd r
    follow-Agrees (failed e) crashed db ds f g h k r = absurd r
    follow-Agrees crashed (done y) db ds f g h k r = absurd r
    follow-Agrees crashed (failed d) db ds f g h k r = absurd r

    module _ (cmp : Comparisons) where
      serve-Agrees :
          (db : Storage) (ds : Documents m stored) (c : Command)
          → Holds m stored db ds
          → Related Agrees (serve m cmp db c) (specified m stored cmp ds c)
      serve-Agrees db ds (create_doc now id g) h =
          changes-Agrees _ _ (set_value-Holds now db ds id h g true)
      serve-Agrees db ds (set_doc now id g) h =
          changes-Agrees _ _ (set_value-Holds now db ds id h g false)
      serve-Agrees db ds (get_doc id) h =
          rw (get_value-Holds db ds id h)
            (Related->>=-same Agrees (get_or_fail m stored ds id) _ _ (λ doc. (h, refl)))
      serve-Agrees db ds (delete_doc id) h = (remove-Holds db ds id h, refl)
      serve-Agrees db ds (update_doc now id updates preconds) h =
          changes-Agrees _ _ (update_value-Holds now db ds id updates preconds h)
      serve-Agrees db ds drop_docs h = (tt, refl)
      serve-Agrees db ds (list_docs filters) h =
          Related->>= (AllRead m) Agrees (extend_all m cmp filters [] db)
            (matching m stored cmp filters ds) _ _ (extend_all-AllRead m stored cmp filters db ds h)
            (λ raws docs r. rw (drain-AllRead m raws docs r) (h, refl))

      -- From a storage that holds the given documents, the in-memory service answers every sequence of
      -- creates, sets, gets, updates, deletes, lists and drops, its errors and panics included, as a
      -- map of decoded documents is to: Create refuses an ID that is taken; Create and Set keep a
      -- struct or a map below pointers, a struct with its times set; an update needs the values that it
      -- expects and writes its values and its time; a listing holds the documents that pass its
      -- filters. The codec reads back what it wrote.
      pub serve-refines :
          (cs : List Command) (db : Storage) (ds : Documents m stored)
          → Holds m stored db ds
          → answers (serve m cmp) db cs ≡ answers (specified m stored cmp) ds cs
      serve-refines [] db ds h = refl
      serve-refines (c ∷ cs) db ds h =
          follow-Agrees (serve m cmp db c) (specified m stored cmp ds c) db ds _ _ h
            (serve-refines cs) (serve-Agrees db ds c h)
