-- ===== src/Document/InMemory/Related.antt =====
-- Results of calls on two states, compared.
use blue.Prelude.{◌≡◌, refl}
use blue.Document.Outcome.{Outcome, done, failed, crashed, ◌>>=◌}

-- Two results of the same kind, with related values or the same failure.
abbrev pub Related : {A B : Type 0} → (A → B → Type 0) → Outcome A → Outcome B → Type 0
Related R (done a) (done b) = R a b
Related R (failed e) (failed d) = e ≡ d
Related R crashed crashed = Unit
Related R _ _ = ⊥

pub Related->>= :
    {A B C D : Type 0} (R : A → B → Type 0) (Q : C → D → Type 0) (x : Outcome A) (y : Outcome B)
    (f : A → Outcome C) (g : B → Outcome D)
    → Related R x y
    → ((a : A) (b : B) → R a b → Related Q (f a) (g b))
    → Related Q (x >>= f) (y >>= g)
Related->>= R Q (done a) (done b) f g h k = k a b h
Related->>= R Q (failed e) (failed d) f g h k = h
Related->>= R Q crashed crashed f g h k = tt
Related->>= R Q (done a) (failed d) f g h k = absurd h
Related->>= R Q (done a) crashed f g h k = absurd h
Related->>= R Q (failed e) (done b) f g h k = absurd h
Related->>= R Q (failed e) crashed f g h k = absurd h
Related->>= R Q crashed (done b) f g h k = absurd h
Related->>= R Q crashed (failed d) f g h k = absurd h

-- The same call on both sides.
pub Related->>=-same :
    {A C D : Type 0} (Q : C → D → Type 0) (x : Outcome A) (f : A → Outcome C) (g : A → Outcome D)
    → ((a : A) → Related Q (f a) (g a))
    → Related Q (x >>= f) (x >>= g)
Related->>=-same Q (done a) f g k = k a
Related->>=-same Q (failed e) f g k = refl
Related->>=-same Q crashed f g k = tt
