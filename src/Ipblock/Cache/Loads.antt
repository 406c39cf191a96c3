-- ===== src/Ipblock/Cache/Loads.antt =====
-- The loads of ipblock/cache.go, as a step relation.
use blue.Prelude.{
  ℕ, ◌≤◌, leb, ◌==◌, ◌≡◌, refl, Bool, true, false, not, ◌||◌, List, Option, none, some, Bool-cases,
  inl, inr, arith,
}
use blue.Ipblock.{Error, Result, ok, err}
use blue.Ipblock.BlockSet.{Block, BlockSet}
use blue.Ipblock.Cache.{
  Cache, new_cache, max_duration, sub, Current, copy, failure, waits, is_due, begun, answer,
  current, awaited, load,
}

-- What a cache does between two moments: a call, at a time of at least its lifetime since the zero time,
-- or the end of the load in flight.
pub data Step (ttl : ℕ) : Cache → Cache → Type 0 where
  call : {c : Cache} (now later : ℕ) → ttl ≤ now → Step ttl c (current ttl now later c).1
  loaded :
      {c : Cache} (result : Result (List Block)) → c.loading ≡ true → Step ttl c (load result c)

pub data Steps (ttl : ℕ) : Cache → Cache → Type 0 where
  stays : {c : Cache} → Steps ttl c c
  moves : {c d e : Cache} → Steps ttl c d → Step ttl d e → Steps ttl c e

abbrev has_set : Option BlockSet → Bool
has_set none = false
has_set (some s) = true

abbrev has_error : Option Error → Bool
has_error none = false
has_error (some e) = true

-- A load has ended: there is a copy, or an error.
abbrev pub is_settled : Cache → Bool
is_settled c = has_set c.set || has_error c.error

-- A copy or an error is there once a load has ended.
abbrev is_consistent : Cache → Bool
is_consistent c = is_settled c || c.loading || (c.attempted == 0)

abbrev pub is_answered : Current → Bool
is_answered (copy s) = true
is_answered (failure none) = false
is_answered (failure (some e)) = true
is_answered waits = true

begun-settled :
    (ttl now later : ℕ) (c : Cache)
    → is_settled c ≡ true
    → is_settled (begun ttl now later c) ≡ true
begun-settled ttl now later c h = elim (Bool-cases (is_due ttl now c)) [
  | inl due ↦ rw due h
  | inr early ↦ rw early h
]

load-settled : (result : Result (List Block)) (c : Cache) → is_settled (load result c) ≡ true
unfolding load
load-settled (ok blocks) c = refl
load-settled (err e) c = ground arith

Step-settled : (ttl : ℕ) {c d : Cache} → Step ttl c d → is_settled c ≡ true → is_settled d ≡ true
unfolding current
Step-settled ttl {c} (call now later old) h = begun-settled ttl now later c h
Step-settled ttl {c} (loaded result busy) h = load-settled result c

Steps-settled : (ttl : ℕ) {c d : Cache} → Steps ttl c d → is_settled c ≡ true → is_settled d ≡ true
Steps-settled ttl stays h = h
Steps-settled ttl (moves s t) h = Step-settled ttl t (Steps-settled ttl s h)

begun-consistent :
    (ttl now later : ℕ) (c : Cache)
    → is_consistent c ≡ true
    → is_consistent (begun ttl now later c) ≡ true
begun-consistent ttl now later c h = elim (Bool-cases (is_due ttl now c)) [
  | inl due ↦ rw due (ground arith)
  | inr early ↦ rw early h
]

Step-consistent :
    (ttl : ℕ) {c d : Cache} → Step ttl c d → is_consistent c ≡ true → is_consistent d ≡ true
unfolding current
Step-consistent ttl {c} (call now later old) h = begun-consistent ttl now later c h
Step-consistent ttl {c} (loaded result busy) h = rw (load-settled result c) refl

Steps-consistent :
    (ttl : ℕ) {c d : Cache} → Steps ttl c d → is_consistent c ≡ true → is_consistent d ≡ true
Steps-consistent ttl stays h = h
Steps-consistent ttl (moves s t) h = Step-consistent ttl t (Steps-consistent ttl s h)

answer-settled :
    (s : Option BlockSet) (loading : Bool) (e : Option Error)
    → ((has_set s || has_error e) || loading) ≡ true
    → is_answered (answer s loading e) ≡ true
answer-settled (some s) loading e h = refl
answer-settled none true e h = refl
answer-settled none false (some e) h = refl
answer-settled none false none h = absurd (cc h)

-- The first call is due.
first_due :
    (ttl now : ℕ) (c : Cache)
    → ttl ≤ max_duration
    → ttl ≤ now
    → (not (c.attempted == 0) || leb ttl (sub now c.attempted)) ≡ true
first_due ttl now c short old = ground arith

begun-answers :
    (ttl now later : ℕ) (c : Cache)
    → ttl ≤ max_duration
    → ttl ≤ now
    → is_consistent c ≡ true
    → (is_settled (begun ttl now later c) || (begun ttl now later c).loading) ≡ true
begun-answers ttl now later c short old h = elim (Bool-cases (is_due ttl now c)) [
  | inl due ↦ rw due (ground arith)
  | inr early ↦ rw early (ground (arith, early, h, first_due ttl now c short old))
]

awaited_answers :
    (done : Bool) (e : Cache) → is_settled e ≡ true → is_answered (awaited done e) ≡ true
unfolding awaited
awaited_answers true e h = refl
awaited_answers false e h = answer-settled e.set false e.error (ground (arith, h))

-- A cache whose lifetime is a Duration never answers that it has neither a copy nor an error: not a call
-- of current in any state that calls and loads lead to, at a time of at least its lifetime since the zero
-- time, and not a call that waited for a load, in any state that calls and loads lead to after its end.
pub current_answers :
    (ttl now later : ℕ) (c d e : Cache) (result : Result (List Block)) (done : Bool)
    → ttl ≤ max_duration
    → ttl ≤ now
    → Steps ttl new_cache c
    → Steps ttl (load result d) e
    → (is_answered (current ttl now later c).0 ≡ true) × (is_answered (awaited done e) ≡ true)
unfolding current
current_answers ttl now later c d e result done short old cs ds =
    let b = begun ttl now later c in
    (
      answer-settled b.set b.loading b.error
          (begun-answers ttl now later c short old (Steps-consistent ttl cs refl)),
      awaited_answers done e (Steps-settled ttl ds (load-settled result d)),
    )
