-- ===== src/Document.antt =====
-- The contract of document/service.go: a collection of documents by ID. A collection is the list of
-- its documents with their IDs; the order in which List meets them is its order.
pub mod Laws
pub mod Outcome
pub mod Fields
pub mod Service
pub mod InMemory
pub mod Partition
mod Examples
use blue.Prelude.{
  Text, text_eq, Bool, true, false, List, [], ◌∷◌, map, Option, none, some, if◌then◌else◌,
}

abbrev pub Collection {ℓ} : Type ℓ → Type ℓ
Collection D = List (Text × D)

module _ {ℓ} {D : Type ℓ} where
  -- Get
  unfoldable pub find : Collection D → Text → Option D
  find [] id = none
  find ((k, d) ∷ db) id = if text_eq k id then some d else find db id

  -- Set: an existing document is replaced.
  unfoldable pub put : Collection D → Text → D → Collection D
  put [] id d = (id, d) ∷ []
  put ((k, e) ∷ db) id d =
      let rest = put db id d in if text_eq k id then (k, d) ∷ db else (k, e) ∷ rest

  -- Delete
  unfoldable pub remove : Collection D → Text → Collection D
  remove [] id = []
  remove ((k, d) ∷ db) id = let rest = remove db id in if text_eq k id then rest else (k, d) ∷ rest

  abbrev pub documents : Collection D → List D
  documents = map (λ e. e.1)

  -- List, of the documents that its filters keep.
  unfoldable pub select : (D → Bool) → List D → List D
  select keep [] = []
  select keep (d ∷ ds) = let rest = select keep ds in if keep d then d ∷ rest else rest
