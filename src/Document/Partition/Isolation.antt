-- ===== src/Document/Partition/Isolation.antt =====
-- What the partitions of document/partition.go see of one another, over a service whose calls on one ID
-- leave the documents under the others.
use blue.Prelude.{
  has_byte, joined-separate, ℕ, Text, text_eq, ◌≡◌, refl, ap, Option, none, some, ◌∙◌, Bool, true,
  false, List, [], ◌∷◌,
}
use mathlib.Core.List.{append_assoc}
use blue.Document.{find, put}
use blue.Document.Laws.{find-put, find-remove}
use blue.Document.Outcome.{Outcome, done, failed, crashed, ◌>>=◌, answer_or, bad_value}
use blue.Document.Fields.{FieldValue, update_proto}
use blue.Document.Service.{
  Given, nothing, scalar, map_of, typed_map, struct_of, pointer, Service, Marshaler,
  deref_create_value, encode,
}
use blue.Document.InMemory.{Storage, kept, in_memory, when_free, set_value, get_value, update_value}
use blue.Document.Partition.{
  make_partition_id, or_delete, and_then, set_partition_field, with_partition,
}

-- What a partition relies on: a call on one ID leaves the documents under the others.
pub record Separate {ℓ} {S : Type ℓ} (sv : Service S) : Type ℓ where
  pub create_other :
      (now : ℕ) (s : S) (id : Text) (doc : Given) (other : Text)
      → text_eq id other ≡ false
      → sv.get (sv.create now s id doc).0 other ≡ sv.get s other
  pub set_other :
      (now : ℕ) (s : S) (id : Text) (doc : Given) (other : Text)
      → text_eq id other ≡ false
      → sv.get (sv.set now s id doc).0 other ≡ sv.get s other
  pub update_other :
      (now : ℕ) (s : S) (id : Text) (updates preconds : List FieldValue) (other : Text)
      → text_eq id other ≡ false
      → sv.get (sv.update now s id updates preconds).0 other ≡ sv.get s other
  pub delete_other :
      (s : S) (id other : Text)
      → text_eq id other ≡ false
      → sv.get (sv.delete s id).0 other ≡ sv.get s other

-- The calls that change a service.
pub data Call : Type 0 where
  create_call set_call : ℕ → Text → Given → Call
  update_call : ℕ → Text → List FieldValue → List FieldValue → Call
  delete_call : Text → Call

abbrev pub perform {ℓ} : {S : Type ℓ} → Service S → S → Call → S
perform sv s (create_call now id doc) = (sv.create now s id doc).0
perform sv s (set_call now id doc) = (sv.set now s id doc).0
perform sv s (update_call now id updates preconds) = (sv.update now s id updates preconds).0
perform sv s (delete_call id) = (sv.delete s id).0

abbrev pub perform_all {ℓ} : {S : Type ℓ} → Service S → S → List Call → S
perform_all sv s [] = s
perform_all sv s (c ∷ cs) = perform_all sv (perform sv s c) cs

-- Partitions without a dot in their names share no ID.
make_partition_id-separate :
    (p q a b : Text)
    → has_byte 46 p ≡ false
    → has_byte 46 q ≡ false
    → text_eq p q ≡ false
    → text_eq (make_partition_id p a) (make_partition_id q b) ≡ false
unfolding make_partition_id
make_partition_id-separate p q a b f g d = joined-separate 46 p q a b f g d

module _ {ℓ} {S : Type ℓ} (sv : Service S) (laws : Separate sv) (p : Text) where
  or_delete-other :
      (r : S × Outcome (Unit {0})) (id : Text) (s : S) (other : Text)
      → text_eq id other ≡ false
      → sv.get r.0 other ≡ sv.get s other
      → sv.get (or_delete (λ s'. sv.delete s' id) r).0 other ≡ sv.get s other
  or_delete-other (s', done x) id s other d h = h
  or_delete-other (s', failed e) id s other d h = laws.delete_other s' id other d ∙ h
  or_delete-other (s', crashed) id s other d h = h

  and_then-other :
      (r : S × Outcome (Unit {0})) (now : ℕ) (id : Text) (s : S) (other : Text)
      → text_eq id other ≡ false
      → sv.get r.0 other ≡ sv.get s other
      → sv.get (and_then r (set_partition_field sv p now id)).0 other ≡ sv.get s other
  unfolding set_partition_field
  and_then-other (s', failed e) now id s other d h = h
  and_then-other (s', crashed) now id s other d h = h
  and_then-other (s', done x) now id s other d h =
      or_delete-other _ id s other d (laws.update_other now s' id _ [] other d ∙ h)

  perform-other :
      (s : S) (c : Call) (q id : Text)
      → has_byte 46 p ≡ false
      → has_byte 46 q ≡ false
      → text_eq p q ≡ false
      → (with_partition sv q).get (perform (with_partition sv p) s c) id
        ≡ (with_partition sv q).get s id
  unfolding with_partition
  perform-other s (create_call now i doc) q id f g d =
      let apart = make_partition_id-separate p q i id f g d in
      and_then-other _ now (make_partition_id p i) s (make_partition_id q id) apart
        (laws.create_other now s (make_partition_id p i) doc (make_partition_id q id) apart)
  perform-other s (set_call now i doc) q id f g d =
      let apart = make_partition_id-separate p q i id f g d in
      and_then-other _ now (make_partition_id p i) s (make_partition_id q id) apart
        (laws.set_other now s (make_partition_id p i) doc (make_partition_id q id) apart)
  perform-other s (update_call now i updates preconds) q id f g d =
      laws.update_other now s (make_partition_id p i) updates preconds (make_partition_id q id)
        (make_partition_id-separate p q i id f g d)
  perform-other s (delete_call i) q id f g d =
      laws.delete_other s (make_partition_id p i) (make_partition_id q id)
        (make_partition_id-separate p q i id f g d)

  -- Whatever calls one partition takes, every document of another partition reads as before, if neither
  -- partition has a dot in its name and the names differ, over a service whose calls on one ID leave the
  -- documents under the others.
  pub partitions_isolated :
      (cs : List Call) (s : S) (q id : Text)
      → has_byte 46 p ≡ false
      → has_byte 46 q ≡ false
      → text_eq p q ≡ false
      → (with_partition sv q).get (perform_all (with_partition sv p) s cs) id
        ≡ (with_partition sv q).get s id
  partitions_isolated [] s q id f g d = refl
  partitions_isolated (c ∷ cs) s q id f g d =
      partitions_isolated cs (perform (with_partition sv p) s c) q id f g d
      ∙ perform-other s c q id f g d

-- A partition whose name holds a dot shares its documents: the partition p.r reads under an ID what the
-- partition p reads under the ID r.ID, over any service.
pub dotted_partition_shares {ℓ} :
    {S : Type ℓ} (sv : Service S) (p r id : Text) (s : S)
    → (with_partition sv (make_partition_id p r)).get s id
      ≡ (with_partition sv p).get s (make_partition_id r id)
unfolding with_partition make_partition_id
dotted_partition_shares sv p r id s = ap (λ t. sv.get s t) (append_assoc p (46 ∷ r) (46 ∷ id))

-- A result that leaves the entry of an ID as it was.
abbrev Leaves : Text → Storage → Outcome Storage → Type 0
Leaves o db (done db') = find db' o ≡ find db o
Leaves o db (failed e) = Unit
Leaves o db crashed = Unit

Leaves->>= :
    {A : Type 0} (o : Text) (db : Storage) (x : Outcome A) (f : A → Outcome Storage)
    → ((a : A) → Leaves o db (f a))
    → Leaves o db (x >>= f)
Leaves->>= o db (done a) f k = k a
Leaves->>= o db (failed e) f k = tt
Leaves->>= o db crashed f k = tt

-- The in-memory service is one that a partition can rely on.
module _ (m : Marshaler) (o : Text) where
  kept-Leaves :
      (db : Storage) (x : Outcome Storage)
      → Leaves o db x
      → get_value m (kept db x).0 o ≡ get_value m db o
  unfolding get_value
  kept-Leaves db (done db') h = rw h refl
  kept-Leaves db (failed e) h = refl
  kept-Leaves db crashed h = refl

  put-Leaves :
      (db : Storage) (id raw : Text) → text_eq id o ≡ false → find (put db id raw) o ≡ find db o
  put-Leaves db id raw d = rw (find-put db id raw o, d) refl

  when_free-Leaves :
      (db : Storage) (old : Option Text) (new : Bool) (x : Outcome Storage)
      → Leaves o db x
      → Leaves o db (when_free old new x)
  when_free-Leaves db none new x h = h
  when_free-Leaves db (some a) true x h = tt
  when_free-Leaves db (some a) false x h = h

  stored-Leaves :
      (now : ℕ) (db : Storage) (id : Text) (g : Option Given) (new : Bool)
      → text_eq id o ≡ false
      → Leaves o db (
          answer_or
            (failed bad_value)
            (λ d. when_free (find db id) new (encode m now d true >>= λ raw. done (put db id raw)))
            g)
  stored-Leaves now db id none new d = tt
  stored-Leaves now db id (some g) new d =
      when_free-Leaves db (find db id) new _
        (Leaves->>= o db (encode m now g true) _ (λ raw. put-Leaves db id raw d))

  set_value-Leaves :
      (now : ℕ) (db : Storage) (id : Text) (g : Given) (new : Bool)
      → text_eq id o ≡ false
      → Leaves o db (set_value m now db id g new)
  unfolding set_value
  set_value-Leaves now db id nothing new d = tt
  set_value-Leaves now db id scalar new d = tt
  set_value-Leaves now db id (map_of f) new d = stored-Leaves now db id (some (map_of f)) new d
  set_value-Leaves now db id (typed_map f) new d =
      stored-Leaves now db id (some (typed_map f)) new d
  set_value-Leaves now db id (struct_of f) new d =
      stored-Leaves now db id (some (struct_of f)) new d
  set_value-Leaves now db id (pointer g) new d =
      stored-Leaves now db id (deref_create_value g) new d

  update_value-Leaves :
      (now : ℕ) (db : Storage) (id : Text) (updates preconds : List FieldValue)
      → text_eq id o ≡ false
      → Leaves o db (update_value m now db id updates preconds)
  unfolding update_value
  update_value-Leaves now db id [] preconds d = tt
  update_value-Leaves now db id (u ∷ updates) preconds d =
      Leaves->>= o db (get_value m db id) _ (λ proto.
        Leaves->>= o db (update_proto m.lower_case now proto (u ∷ updates) preconds) _ (λ proto'.
          Leaves->>= o db (encode m now (map_of proto') false) _ (λ raw. put-Leaves db id raw d)))

pub in_memory-Separate : (m : Marshaler) → Separate (in_memory m)
unfolding get_value
in_memory-Separate m = record {
  create_other = λ now s id doc other d.
      kept-Leaves m other s _ (set_value-Leaves m other now s id doc true d);
  set_other = λ now s id doc other d.
      kept-Leaves m other s _ (set_value-Leaves m other now s id doc false d);
  update_other = λ now s id updates preconds other d.
      kept-Leaves m other s _ (update_value-Leaves m other now s id updates preconds d);
  delete_other = λ s id other d. rw (find-remove s id other, d) refl;
}
