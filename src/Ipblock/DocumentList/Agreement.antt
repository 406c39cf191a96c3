-- ===== src/Ipblock/DocumentList/Agreement.antt =====
-- The list of ipblock/document.go does what the one of ipblock/memory.go does, where no call fails.
use blue.Prelude.{Text, ◌≡◌, false, List, [], ◌∷◌, map, Option, none, some}
use blue.Document.{Collection}
use blue.Ipblock.{Result, ok, err}
use blue.Ipblock.Address.{Prefix, canonical}
use blue.Ipblock.BlockSet.{Block}
use blue.Ipblock.Memory.Refinement.{Command, block_at, unblock_at}
use blue.Ipblock.DocumentList.{
  BlockDocument, DocumentCall, to_document, document_id, set_block, lift_block,
}
use blue.Ipblock.DocumentList.Canonical.{has_underscore}

-- No call fails.
abbrev pub sound : DocumentCall → Option Text
sound call = none

abbrev pub IsFixed : Block → Type 0
IsFixed b = canonical b.prefix ≡ ok b.prefix

module _ (print : Prefix → Text) (parse : Text → Option Prefix) where
  -- The documents after a change; one that is refused changes nothing.
  abbrev stored :
      Collection BlockDocument → Result (Collection BlockDocument) → Collection BlockDocument
  stored db (ok next) = next
  stored db (err e) = db

  unfoldable pub obey_documents : Collection BlockDocument → Command → Collection BlockDocument
  obey_documents db (block_at now b) = stored db (set_block print parse sound now db b)
  obey_documents db (unblock_at now p) = (lift_block print parse sound now db p).1

  unfoldable pub obey_all_documents :
      Collection BlockDocument → List Command → Collection BlockDocument
  obey_all_documents db [] = db
  obey_all_documents db (c ∷ cs) = obey_all_documents (obey_documents db c) cs

-- The texts of prefixes: a canonical prefix is read back, and no text holds an underscore.
module _ (print : Prefix → Text) (parse : Text → Option Prefix)
    (reads : (p : Prefix) → canonical p ≡ ok p → parse (print p) ≡ some p)
    (plain : (p : Prefix) → has_underscore (print p) ≡ false) where
  abbrev id_of : Prefix → Text
  id_of p = document_id print parse p

  -- The documents of blocks.
  abbrev encode : List Block → Collection BlockDocument
  encode bs = map (λ b. (id_of b.prefix, to_document print parse b)) bs

  abbrev document_of : Option Block → Option BlockDocument
  document_of none = none
  document_of (some b) = some (to_document print parse b)
