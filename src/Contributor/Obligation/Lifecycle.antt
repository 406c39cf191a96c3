-- ===== src/Contributor/Obligation/Lifecycle.antt =====
-- The life of an obligation of contributor/obligation.go: the legal steps and the history they leave.
use blue.Prelude.{
  not, ◌&&◌, ◌||◌, ℕ, ◌≡◌, refl, sym, ap, ◌∙◌, Text, text_eq→eq, ℤ, Bool, true, false, List, [],
  ◌∷◌, ◌++◌, Bool-cases, inl, inr, arith, ◌⊎◌, ◌+◌, if◌then◌else◌,
}
use mathlib.Core.Path.{subst}
use blue.Contributor.Result.{◌>>=◌, >>=-eq-ok, Result, ok, err, illegal_transition}
use blue.Contributor.Obligation.{
  ObligationState, estimated, earned, owed, initiated, settled, other_state, ObligationEvent,
  Obligation, transitions, id_of, state_eq, is_legal, transition,
}

-- The moves of the settlement state machine, as the documentation of the package lists them.
pub data Step : ObligationState → ObligationState → Type 0 where
  earn : Step estimated earned
  owe : Step earned owed
  initiate : Step owed initiated
  settle : Step initiated settled
  fail : Step initiated owed
  bounce : Step settled owed

-- A history that leads from one state to another by legal moves, oldest first.
pub data Trail : ObligationState → List ObligationEvent → ObligationState → Type 0 where
  start : {s : ObligationState} → Trail s [] s
  move :
      {s t : ObligationState}
      → (e : ObligationEvent) → {rest : List ObligationEvent} → e.from_state ≡ s
      → Step s e.to_state
      → Trail e.to_state rest t
      → Trail s (e ∷ rest) t

state_eq→eq : (s t : ObligationState) → state_eq s t ≡ true → s ≡ t
state_eq→eq (other_state s) (other_state t) h = ap other_state (text_eq→eq s t h)
state_eq→eq s t h = ground arith

one_legal :
    {s a : ObligationState}
    → (t : ObligationState) → Step s a
    → is_legal t (a ∷ []) ≡ true
    → Step s t
unfolding is_legal
one_legal {s} {a} t step h = subst (Step s) (state_eq→eq a t (ground arith)) step

two_legal :
    {s a b : ObligationState}
    → (t : ObligationState) → Step s a
    → Step s b
    → is_legal t (a ∷ b ∷ []) ≡ true
    → Step s t
unfolding is_legal
two_legal {s} {a} {b} t first second h = elim (Bool-cases (state_eq a t)) [
  | inl e ↦ subst (Step s) (state_eq→eq a t e) first
  | inr e ↦ one_legal t second (rw e at h)
]

legal-Step : (s t : ObligationState) → is_legal t (transitions s) ≡ true → Step s t
unfolding transitions is_legal
legal-Step estimated t h = one_legal t earn h
legal-Step earned t h = one_legal t owe h
legal-Step owed t h = one_legal t initiate h
legal-Step initiated t h = two_legal t settle fail h
legal-Step settled t h = one_legal t bounce h
legal-Step (other_state s) t h = absurd (ground (arith, h))

Step-legal : {s t : ObligationState} → Step s t → is_legal t (transitions s) ≡ true
unfolding is_legal transitions
Step-legal earn = refl
Step-legal owe = refl
Step-legal initiate = refl
Step-legal settle = refl
Step-legal fail = refl
Step-legal bounce = refl

Trail-extend :
    {s t : ObligationState}
    → {history : List ObligationEvent} → (e : ObligationEvent) → Trail s history t
    → e.from_state ≡ t
    → Step t e.to_state
    → Trail s (history ++ e ∷ []) e.to_state
Trail-extend e start from step = move e from step start
Trail-extend e (move d at first rest) from step = move d at first (Trail-extend e rest from step)

-- A transition succeeds exactly on the moves of the machine, and then sets the state, appends the
-- move to the history and keeps every other field; every other transition is refused.
pub transition_exact :
    (o : Obligation) (to : ObligationState) (at : ℤ) (note : Text)
    → (Step o.state to
        × transition o to at note
          ≡ ok (record o {
            history =
                o.history
                ++ record { from_state = o.state; to_state = to; at = at; note = note } ∷ [];
            state = to;
          }))
      ⊎ (¬ (Step o.state to) × transition o to at note ≡ err illegal_transition)
unfolding transition
transition_exact o to at note = elim (Bool-cases (is_legal to (transitions o.state))) [
  | inl e ↦ inl (legal-Step o.state to e, rw e refl)
  | inr e ↦ inr (λ step. cc (e, Step-legal step), rw e refl)
]

-- A run of transitions, each given its target state, time and note; it ends at the first refusal.
unfoldable pub run : Obligation → List (ObligationState × ℤ × Text) → Result Obligation
run o [] = ok o
run o ((to, at, note) ∷ moves) = transition o to at note >>= λ next. run next moves

-- The history explains the state: it leads from the state the obligation had at first to the
-- present one.
abbrev pub IsAudited : ObligationState → Obligation → Type 0
IsAudited s o = Trail s o.history o.state

ok_injective : {o next : Obligation} → ◌≡◌ {A = Result Obligation} (ok o) (ok next) → o ≡ next
ok_injective h = cc h

transition-IsAudited :
    (s : ObligationState) (o : Obligation) (to : ObligationState) (at : ℤ) (note : Text)
    {next : Obligation}
    → IsAudited s o
    → transition o to at note ≡ ok next
    → IsAudited s next × id_of next ≡ id_of o × next.amount_cents ≡ o.amount_cents
unfolding id_of
transition-IsAudited s o to at note audited h = elim (transition_exact o to at note) [
  | inl (step, e) ↦
      subst
        (λ (n : Obligation). IsAudited s n × id_of n ≡ id_of o × n.amount_cents ≡ o.amount_cents)
        (ok_injective (sym e ∙ h)) (Trail-extend _ audited refl step, refl, refl)
  | inr (bad, e) ↦ absurd (cc (h, e))
]

-- How many moves of a history have the given ends.
abbrev pub moved : (ObligationEvent → Bool) → List ObligationEvent → ℕ
moved f [] = 0
moved f (e ∷ history) = (if f e then 1 else 0) + moved f history

-- A payment that was made, one that failed, one that was begun, and one that came back.
abbrev pub is_settlement : ObligationEvent → Bool
is_settlement e = state_eq e.to_state settled

abbrev pub is_failure : ObligationEvent → Bool
is_failure e = state_eq e.from_state initiated && state_eq e.to_state owed

abbrev pub is_initiation : ObligationEvent → Bool
is_initiation e = state_eq e.to_state initiated

abbrev pub is_bounce : ObligationEvent → Bool
is_bounce e = state_eq e.from_state settled && state_eq e.to_state owed

-- No payment is made, nor begun, while an earlier one stands: read with whether one stands at first.
abbrev pub pays_once : Bool → List ObligationEvent → Bool
pays_once paid [] = true
pays_once paid (e ∷ history) =
    not (paid && (is_settlement e || is_initiation e))
    && pays_once (is_settlement e || (paid && not (is_bounce e))) history

abbrev pub one_if : Bool → ℕ
one_if b = if b then 1 else 0

-- What a move of the machine does to the payments.
abbrev StepFacts : ObligationState → ObligationState → Type 0
StepFacts s t =
    ((state_eq s settled && (state_eq t settled || state_eq t initiated)) ≡ false)
    × ((state_eq t settled || (state_eq s settled && not (state_eq s settled && state_eq t owed)))
        ≡ state_eq t settled)
    × (one_if (state_eq s settled) + one_if (state_eq t settled)
        ≡ one_if (state_eq s settled && state_eq t owed) + one_if (state_eq t settled))
    × (one_if (state_eq s initiated) + one_if (state_eq t initiated)
        ≡ one_if (state_eq t settled)
          + one_if (state_eq s initiated && state_eq t owed)
          + one_if (state_eq t initiated))

Step-facts : {s t : ObligationState} → Step s t → StepFacts s t
Step-facts earn = (refl, refl, refl, refl)
Step-facts owe = (refl, refl, refl, refl)
Step-facts initiate = (refl, refl, refl, refl)
Step-facts settle = (refl, refl, refl, refl)
Step-facts fail = (refl, refl, refl, refl)
Step-facts bounce = (refl, refl, refl, refl)

-- What the payments of a history come to.
abbrev pub IsAccounted : ObligationState → List ObligationEvent → ObligationState → Type 0
IsAccounted s history t =
    (pays_once (state_eq s settled) history ≡ true)
    × (one_if (state_eq s settled) + moved is_settlement history
        ≡ moved is_bounce history + one_if (state_eq t settled))
    × (one_if (state_eq s initiated) + moved is_initiation history
        ≡ moved is_settlement history + moved is_failure history + one_if (state_eq t initiated))

Trail-IsAccounted :
    {s t : ObligationState} {history : List ObligationEvent}
    → Trail s history t
    → IsAccounted s history t
Trail-IsAccounted start = (refl, omega arith, omega arith)
Trail-IsAccounted {s} {t} (move d {rest} at step later) =
    let (idle, paid, settling, paying) =
      subst (λ x. StepFacts x d.to_state) (sym at) (Step-facts step) in
    let (once, settlements, payments) = Trail-IsAccounted later in
    rw (sym at)
      (rw (idle, paid) once, omega (arith, settlements, settling), omega (arith, payments, paying))

-- A run of transitions that succeeds keeps the history an account of the state by legal moves, and
-- keeps the obligation's identifier and its amount.
pub run-IsAudited :
    (s : ObligationState) (o : Obligation) (moves : List (ObligationState × ℤ × Text))
    (next : Obligation)
    → IsAudited s o
    → run o moves ≡ ok next
    → IsAudited s next × id_of next ≡ id_of o × next.amount_cents ≡ o.amount_cents
unfolding run
run-IsAudited s o [] next audited h =
    subst (λ (n : Obligation). IsAudited s n × id_of n ≡ id_of o × n.amount_cents ≡ o.amount_cents)
      (ok_injective h) (audited, refl, refl)
run-IsAudited s o ((to, at, note) ∷ moves) next audited h =
    let (mid, moved, rest) = >>=-eq-ok (transition o to at note) (λ m. run m moves) h in
    let (kept, id, amount) = transition-IsAudited s o to at note audited moved in
    let (end, ids, amounts) = run-IsAudited s mid moves next kept rest in
    (end, ids ∙ id, amounts ∙ amount)

-- An obligation that starts with an empty history, neither settled nor initiated, is never paid twice,
-- whatever transitions are run: no payment is made or begun while an earlier one stands, which only a
-- bounce to owed ends; it is settled as many times as it bounced, once more if it is settled now; and every
-- payment begun was made or failed, but for one under way.
pub run_settles_once :
    (o : Obligation) (moves : List (ObligationState × ℤ × Text)) (next : Obligation)
    → o.history ≡ []
    → state_eq o.state settled ≡ false
    → state_eq o.state initiated ≡ false
    → run o moves ≡ ok next
    → (pays_once false next.history ≡ true)
      × (moved is_settlement next.history
          ≡ moved is_bounce next.history + one_if (state_eq next.state settled))
      × (moved is_initiation next.history
          ≡ moved is_settlement next.history
            + moved is_failure next.history
            + one_if (state_eq next.state initiated))
run_settles_once o moves next fresh unsettled idle h =
    let audited : IsAudited o.state o = subst (λ hs. Trail o.state hs o.state) (sym fresh) start in
    let (end, _, _) = run-IsAudited o.state o moves next audited h in
    let (once, settlements, payments) = Trail-IsAccounted end in
    (
      rw (sym unsettled) once,
      omega (arith, settlements, ap one_if unsettled),
      omega (arith, payments, ap one_if idle),
    )
