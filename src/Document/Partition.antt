-- ===== src/Document/Partition.antt =====
-- document/partition.go: a service that keeps its documents under IDs of their own in another service.
pub mod Isolation
use blue.Prelude.{ℕ, Text, text, List, [], ◌∷◌, ◌++◌}
use blue.Document.Outcome.{Outcome, done, failed, crashed}
use blue.Document.Fields.{words, FieldValue, Filter, equal}
use blue.Document.Service.{Given, Service}

-- makePartitionID
unfoldable pub make_partition_id : Text → Text → Text
make_partition_id partition id = partition ++ (46 ∷ id)

-- The partitionField of WithPartition.
abbrev pub partition_field : Text → Text
partition_field partition = text "__partition_" ++ partition

-- A result whose error is followed by a best-effort Delete.
abbrev pub or_delete {ℓ} :
    {S : Type ℓ} → (S → S × Outcome (Unit {0})) → S × Outcome (Unit {0}) → S × Outcome (Unit {0})
or_delete delete (s, done x) = (s, done x)
or_delete delete (s, failed e) = ((delete s).0, failed e)
or_delete delete (s, crashed) = (s, crashed)

-- A call that goes on if it succeeded.
abbrev pub and_then {ℓ} :
    {S : Type ℓ} → S × Outcome (Unit {0}) → (S → S × Outcome (Unit {0})) → S × Outcome (Unit {0})
and_then (s, done x) next = next s
and_then (s, failed e) next = (s, failed e)
and_then (s, crashed) next = (s, crashed)

module _ {ℓ} {S : Type ℓ} (other : Service S) (partition : Text) where
  -- setPartitionField
  unfoldable pub set_partition_field : ℕ → Text → S → S × Outcome (Unit {0})
  set_partition_field now id s =
      or_delete (λ s'. other.delete s' id)
        (other.update now s id ((partition_field partition ∷ [], words partition) ∷ []) [])

  -- WithPartition
  unfoldable pub with_partition : Service S
  with_partition = record {
    create = λ now s id doc.
        and_then (other.create now s (make_partition_id partition id) doc)
          (set_partition_field now (make_partition_id partition id));
    set = λ now s id doc.
        and_then (other.set now s (make_partition_id partition id) doc)
          (set_partition_field now (make_partition_id partition id));
    update = λ now s id updates preconds.
        other.update now s (make_partition_id partition id) updates preconds;
    get = λ s id. other.get s (make_partition_id partition id);
    delete = λ s id. other.delete s (make_partition_id partition id);
  }

-- The filters that List passes on.
unfoldable pub partition_filters : Text → List Filter → List Filter
partition_filters partition filters =
    filters
    ++ (record { path = partition_field partition ∷ []; value = words partition; op = equal } ∷ [])
