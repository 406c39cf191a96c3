-- ===== src/Ipblock/DocumentList.antt =====
-- ipblock/document.go. The texts of prefixes are parameters: what netip.Prefix.String prints and what
-- netip.ParsePrefix reads. So are the calls of the document service that fail; one that fails changes
-- nothing.
pub mod Canonical
pub mod Agreement
mod Examples
use blue.Prelude.{
  ℕ, ◌==◌, ltb, Text, Bool, true, false, not, List, [], ◌∷◌, Option, none, some, if◌then◌else◌,
}
use blue.Document.{Collection, find, put, remove, documents}
use blue.Ipblock.{Result, ok, err, ◌>>=◌, ◌>>◌, refuse, invalid_prefix, not_blocked, service_error}
use blue.Ipblock.Address.{Addr, Prefix, canonical, canonical_addr}
use blue.Ipblock.BlockSet.{Block, BlockSet, prepare, new_block_set, lookup, list}

-- blockDocument
pub record BlockDocument : Type 0 where
  pub prefix : Text
  pub reason : Text
  pub blocked_by : Text
  pub blocked_at : ℕ
  pub expires_at : Option ℕ

-- A call of the document service.
pub data DocumentCall : Type 0 where
  setting getting deleting : Text → DocumentCall
  listing : DocumentCall

-- strings.Replace of the first "/" by "_"
unfoldable pub replace_slash : Text → Text
replace_slash [] = []
replace_slash (c ∷ cs) = let rest = replace_slash cs in if c == 47 then 95 ∷ cs else c ∷ rest

-- Whether a document is of a block that has lapsed.
abbrev pub has_lapsed : ℕ → Option ℕ → Bool
has_lapsed now none = false
has_lapsed now (some at) = not (ltb now at)

module _ (print : Prefix → Text) (parse : Text → Option Prefix) where
  -- toDocument
  abbrev pub to_document : Block → BlockDocument
  to_document b = record {
    prefix = print b.prefix;
    reason = b.reason;
    blocked_by = b.blocked_by;
    blocked_at = b.blocked_at;
    expires_at = (if b.expires_at == 0 then none else some b.expires_at);
  }

  abbrev pub parsed : Option Prefix → Result Prefix
  parsed none = err invalid_prefix
  parsed (some p) = ok p

  abbrev pub lapses_at : Option ℕ → ℕ
  lapses_at none = 0
  lapses_at (some at) = at

  -- fromDocument
  unfoldable pub from_document : BlockDocument → Result Block
  from_document d = do
    read ← parsed (parse d.prefix)
    p ← canonical read
    ok (record {
      prefix = p;
      reason = d.reason;
      blocked_by = d.blocked_by;
      blocked_at = d.blocked_at;
      expires_at = lapses_at d.expires_at;
    })

  -- documentID
  abbrev pub document_id : Prefix → Text
  document_id p = replace_slash (print p)

  -- The loop of load: a document that holds no valid block is skipped.
  unfoldable pub blocks_of : List BlockDocument → List Block
  blocks_of [] = []
  blocks_of (d ∷ ds) =
      let rest = blocks_of ds in elim (from_document d) [ ok b ↦ b ∷ rest | err e ↦ rest ]

  module _ (faults : DocumentCall → Option Text) where
    abbrev pub reach : DocumentCall → Result (Unit {0})
    reach call = elim (faults call) [ none ↦ ok tt | some e ↦ err (service_error e) ]

    -- documentList.Block
    unfoldable pub set_block :
        ℕ → Collection BlockDocument → Block → Result (Collection BlockDocument)
    set_block now db b = do
      c ← prepare b now
      reach (setting (document_id c.prefix))
      ok (put db (document_id c.prefix) (to_document c))

    abbrev pub lift_found :
        ℕ
        → Collection BlockDocument
        → Text
        → Option BlockDocument
        → Result (Unit {0}) × Collection BlockDocument
    lift_found now db id none = (err not_blocked, db)
    lift_found now db id (some d) = elim (reach (deleting id)) [
      | err e ↦ (err e, db)
      | ok done ↦ (refuse (has_lapsed now d.expires_at) not_blocked, remove db id)
    ]

    -- documentList.Unblock, of a canonical prefix
    abbrev pub lift_canonical :
        ℕ → Collection BlockDocument → Prefix → Result (Unit {0}) × Collection BlockDocument
    lift_canonical now db p = elim (reach (getting (document_id p))) [
      | err e ↦ (err e, db)
      | ok done ↦ lift_found now db (document_id p) (find db (document_id p))
    ]

    -- documentList.Unblock
    unfoldable pub lift_block :
        ℕ → Collection BlockDocument → Prefix → Result (Unit {0}) × Collection BlockDocument
    lift_block now db p = elim (canonical p) [
      | err e ↦ (err e, db)
      | ok q ↦ lift_canonical now db q
    ]

    -- documentList.load
    unfoldable pub load_set : Collection BlockDocument → Result BlockSet
    load_set db = reach listing >> ok (new_block_set (blocks_of (documents db)))

    -- documentList.Check
    unfoldable pub check_address : ℕ → Collection BlockDocument → Addr → Result (Option Block)
    check_address now db addr = do a ← canonical_addr addr; set ← load_set db; ok (lookup set a now)

    -- documentList.List
    unfoldable pub list_in_force : ℕ → Collection BlockDocument → Result (List Block)
    list_in_force now db = load_set db >>= λ set. ok (list set now)
