-- ===== src/Contributor/Store.antt =====
-- The document-backed stores of contributor/document_store.go, which keep each type in a collection of
-- its own. Any call of the document service may fail: the calls that do, and how, are a parameter. A
-- call that fails leaves its collection as it was.
pub mod Effective
use blue.Prelude.{
  Text, text_eq, is_empty, Bool, true, false, not, List, [], ◌∷◌, ◌++◌, Option, none, some,
  if◌then◌else◌,
}
use blue.Document.{Collection, find, put, documents, select}
use blue.Contributor.Result.{
  Result, ok, err, ◌>>=◌, ◌>>◌, refuse, wrap_error, not_found, already_exists, service_failed,
  list_failed, invalid_round, invalid_obligation, award_has_id, award_missing_id,
  obligation_missing_account,
}
use blue.Contributor.Month.{validate_month, before}
use blue.Contributor.Program.{Program, validate_program}
use blue.Contributor.Participant.{Participant, validate_participant}
use blue.Contributor.Award.{Award, AwardStatus, proposed, approved, rejected, validate_award}
use blue.Contributor.Receipt.{Receipt, validate_receipt}
use blue.Contributor.Round.{Round}
use blue.Contributor.Obligation.{ObligationState, Obligation, obligation_id, id_of, state_eq}

-- The collections of a ledger, one for each store.
pub record Books : Type 0 where
  pub programs : Collection Program
  pub participants : Collection Participant
  pub awards : Collection Award
  pub receipts : Collection Receipt
  pub rounds : Collection Round
  pub obligations : Collection Obligation

pub data Kind : Type 0 where
  programs participants awards receipts rounds obligations : Kind

-- A call of a document service.
pub data Call : Type 0 where
  create_in set_in get_in : Kind → Text → Call
  list_in : Kind → Call

-- The string constants of AwardStatus, and the others, as listDocuments compares them; the empty
-- string is no status.
abbrev pub has_status : AwardStatus → Award → Bool
has_status proposed a = elim a.status [ proposed ↦ true | _ ↦ false ]
has_status approved a = elim a.status [ approved ↦ true | _ ↦ false ]
has_status rejected a = elim a.status [ rejected ↦ true | _ ↦ false ]
has_status (AwardStatus.other_status s) a =
    if is_empty s
    then true
    else elim a.status [ AwardStatus.other_status t ↦ text_eq s t | _ ↦ false ]

-- The loop of ProgramFor: the latest program that is effective in a month.
unfoldable pub latest : Text → Option Program → List Program → Option Program
latest m best [] = best
latest m best (p ∷ ps) =
    latest m
      (if before m p.effective_from then best else elim best [
        | none ↦ some p
        | some b ↦ if before b.effective_from p.effective_from then some p else some b
      ])
      ps

-- The calls that fail, each with what its error says.
module _ (faults : Call → Option Text) where
  abbrev pub reach : Call → Result (Unit {0})
  reach call = elim (faults call) [ none ↦ ok tt | some e ↦ err (service_failed e) ]

  abbrev pub created : {D : Type 0} → Text → D → Collection D → Option D → Result (Collection D)
  created id d db none = ok ((id, d) ∷ db)
  created id d db (some e) = err already_exists

  unfoldable pub create : {D : Type 0} → Kind → Collection D → Text → D → Result (Collection D)
  create kind db id d = reach (create_in kind id) >> created id d db (find db id)

  unfoldable pub set : {D : Type 0} → Kind → Collection D → Text → D → Result (Collection D)
  set kind db id d = reach (set_in kind id) >> ok (put db id d)

  abbrev pub found : {D : Type 0} → Option D → Result D
  found none = err not_found
  found (some d) = ok d

  unfoldable pub get : {D : Type 0} → Kind → Collection D → Text → Result D
  get kind db id = reach (get_in kind id) >> found (find db id)

  -- listDocuments, and the slice of its iterator
  unfoldable pub list_documents : {D : Type 0} → Kind → (D → Bool) → Collection D → Result (List D)
  list_documents kind keep db =
      wrap_error list_failed (reach (list_in kind)) >> ok (select keep (documents db))

  -- documentProgramStore
  unfoldable pub put_program : Collection Program → Program → Result (Collection Program)
  put_program db p = validate_program p >> set programs db p.version p

  unfoldable pub get_program : Collection Program → Text → Result Program
  get_program db version = get programs db version

  unfoldable pub list_programs : Collection Program → Result (List Program)
  list_programs db = list_documents programs (λ p. true) db

  unfoldable pub program_effective : Collection Program → Text → Result Program
  program_effective db m = list_programs db >>= λ ps. found (latest m none ps)

  -- documentParticipantStore
  unfoldable pub create_participant :
      Collection Participant → Participant → Result (Collection Participant)
  create_participant db p = validate_participant p >> create participants db p.account p

  unfoldable pub get_participant : Collection Participant → Text → Result Participant
  get_participant db account = get participants db account

  unfoldable pub set_participant :
      Collection Participant → Participant → Result (Collection Participant)
  set_participant db p = validate_participant p >> set participants db p.account p

  unfoldable pub list_participants : Collection Participant → Result (List Participant)
  list_participants db = list_documents participants (λ p. true) db

  -- documentAwardStore; the ID that uuid.NewString answers is an argument
  unfoldable pub create_award : Text → Collection Award → Award → Result (Collection Award × Text)
  create_award fresh db a = do
    refuse (not (is_empty a.id)) award_has_id
    validate_award (record a { id = fresh })
    next ← create awards db fresh (record a { id = fresh })
    ok (next, fresh)

  unfoldable pub get_award : Collection Award → Text → Result Award
  get_award db id = get awards db id

  unfoldable pub set_award : Collection Award → Award → Result (Collection Award)
  set_award db a = do
    refuse (is_empty a.id) award_missing_id
    validate_award a
    set awards db a.id a

  unfoldable pub list_awards : Collection Award → AwardStatus → Result (List Award)
  list_awards db status = list_documents awards (has_status status) db

  -- documentReceiptStore
  unfoldable pub create_receipt : Collection Receipt → Receipt → Result (Collection Receipt)
  create_receipt db r = validate_receipt r >> create receipts db r.source r

  unfoldable pub get_receipt : Collection Receipt → Text → Result Receipt
  get_receipt db source = get receipts db source

  unfoldable pub list_month_receipts : Collection Receipt → Text → Result (List Receipt)
  list_month_receipts db m = list_documents receipts (λ r. text_eq r.month m) db

  -- documentRoundStore
  unfoldable pub create_round : Collection Round → Round → Result (Collection Round)
  create_round db r =
      wrap_error invalid_round (validate_month r.month) >> create rounds db r.month r

  unfoldable pub get_round : Collection Round → Text → Result Round
  get_round db m = get rounds db m

  unfoldable pub list_rounds : Collection Round → Result (List Round)
  list_rounds db = list_documents rounds (λ r. true) db

  -- documentObligationStore
  unfoldable pub create_obligation :
      Collection Obligation → Obligation → Result (Collection Obligation)
  create_obligation db o = do
    wrap_error invalid_obligation (validate_month o.month)
    refuse (is_empty o.account) obligation_missing_account
    create obligations db (id_of o) o

  unfoldable pub get_obligation : Collection Obligation → Text → Text → Result Obligation
  get_obligation db m account = get obligations db (obligation_id m account)

  unfoldable pub set_obligation :
      Collection Obligation → Obligation → Result (Collection Obligation)
  set_obligation db o =
      refuse (is_empty o.account) obligation_missing_account >> set obligations db (id_of o) o

  unfoldable pub list_account_obligations : Collection Obligation → Text → Result (List Obligation)
  list_account_obligations db account =
      list_documents obligations (λ o. text_eq o.account account) db

  unfoldable pub list_state_obligations :
      Collection Obligation → ObligationState → Result (List Obligation)
  list_state_obligations db state = list_documents obligations (λ o. state_eq o.state state) db
