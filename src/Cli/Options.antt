-- ===== src/Cli/Options.antt =====
-- Command lines that are written as options before arguments, and how Parse reads them back.
use blue.Prelude.{
  ℕ, suc, ◌+◌, Text, text, ltb, leb, ◌==◌, length, length-append, take, drop, has_byte, Bool, true,
  false, not, ◌&&◌, ◌≡◌, refl, sym, ap, ◌∙◌, List, [], ◌∷◌, ◌++◌, Option, none, some, if◌then◌else◌,
  arith,
}
use mathlib.Core.List.{append_assoc, append-nil}
use blue.Document.{find}
use blue.Cli.{
  answered, FlagSet, is_bool_flag, options_length, flag_of, at_equals, token_of, Settings,
  wants_help, checked_help, setting, parse_flags, parse_at, parse,
}

-- An option as it is meant to be written: -name, or -name value.
pub data Written : Type 0 where
  switch : Text → Written
  valued : Text → Text → Written

abbrev pub render : List Written → List Text
render [] = []
render (switch name ∷ os) = (b'-' ∷ name) ∷ render os
render (valued name v ∷ os) = (b'-' ∷ name) ∷ v ∷ render os

-- What the options set.
abbrev pub meaning : List Written → Settings
meaning [] = []
meaning (switch name ∷ os) = (name, text "true") ∷ meaning os
meaning (valued name v ∷ os) = (name, v) ∷ meaning os

-- A text that is not empty and does not begin with a dash.
abbrev pub undashed : Text → Bool
undashed [] = false
undashed (c ∷ s) = not (c == b'-')

-- A name that can be written: not empty, without a dash before it and without an equals sign.
abbrev pub is_name : Text → Bool
is_name name = undashed name && not (has_byte b'=' name)

-- Whether the flag of the name is declared, and boolean or not.
abbrev pub declared : Option Bool → Bool → Bool
declared none b = false
declared (some true) b = b
declared (some false) b = not b

module _ (accepts : Text → Text → Bool) (fs : FlagSet) where
  -- Options whose flags are declared and take their values, which do not look like options.
  abbrev pub are_valid : List Written → Bool
  are_valid [] = true
  are_valid (switch name ∷ os) =
      is_name name && declared (find fs name) true && accepts name (text "true") && are_valid os
  are_valid (valued name v ∷ os) =
      is_name name && declared (find fs name) false && undashed v && accepts name v && are_valid os

-- Arguments of which the first does not look like an option.
abbrev pub begin_plain : List Text → Bool
begin_plain [] = true
begin_plain (a ∷ args) = undashed a

at_equals-name :
    (name s : Text) → has_byte b'=' s ≡ false → at_equals name s ≡ flag_of (name ++ s) none
at_equals-name name [] h = ap (λ x. flag_of x none) (sym (append-nil name))
at_equals-name name (c ∷ s) h =
    let other : (c == 61) ≡ false = ground (arith, h) in
    rw other (
      at_equals-name (name ++ c ∷ []) s (ground (arith, h))
      ∙ ap (λ x. flag_of x none) (append_assoc name (c ∷ []) s))

token_of-name : (name : Text) → is_name name ≡ true → token_of (b'-' ∷ name) ≡ flag_of name none
unfolding token_of
token_of-name [] h = absurd (cc h)
token_of-name (c ∷ s) h =
    let nd : (c == 45) ≡ false = ground (arith, h) in
    let ne : (c == 61) ≡ false = ground (arith, h) in
    rw (nd, ne) (at_equals-name (c ∷ []) s (ground (arith, h)))

declared-switch : (o : Option Bool) → declared o true ≡ true → o ≡ some true
declared-switch none h = absurd (cc h)
declared-switch (some true) h = refl
declared-switch (some false) h = absurd (cc h)

declared-valued : (o : Option Bool) → declared o false ≡ true → o ≡ some false
declared-valued none h = absurd (cc h)
declared-valued (some true) h = absurd (cc h)
declared-valued (some false) h = refl

module _ (accepts : Text → Text → Bool) (fs : FlagSet) where
  options_length-render :
      (os : List Written) (args : List Text)
      → are_valid accepts fs os ≡ true
      → begin_plain args ≡ true
      → options_length fs true (render os ++ args) ≡ answered (length (render os))
  unfolding options_length is_bool_flag
  options_length-render [] [] v h = refl
  options_length-render [] ([] ∷ args) v h = absurd (cc h)
  options_length-render [] ((c ∷ s) ∷ args) v h =
      let nd : (c == 45) ≡ false = ground (arith, h) in rw nd refl
  options_length-render (switch name ∷ os) args v h =
      let d : find fs name ≡ some true = declared-switch (find fs name) (ground (arith, v)) in
      rw (d, options_length-render os args (ground (arith, v)) h) refl
  options_length-render (valued name [] ∷ os) args v h = absurd (ground (arith, v))
  options_length-render (valued name (c ∷ s) ∷ os) args v h =
      let d : find fs name ≡ some false = declared-valued (find fs name) (ground (arith, v)) in
      let nd : (c == 45) ≡ false = ground (arith, v) in
      rw (d, nd, options_length-render os args (ground (arith, v)) h) refl

  parse_flags-switch :
      (name : Text) (rest : List Text)
      → is_name name ≡ true
      → find fs name ≡ some true
      → parse_flags accepts fs ((b'-' ∷ name) ∷ rest)
        ≡ setting accepts fs name (text "true") (parse_flags accepts fs rest)
  unfolding parse_flags
  parse_flags-switch name [] n d = rw (parse_flags, token_of-name name n, d) refl
  parse_flags-switch name (next ∷ rest) n d = rw (parse_flags, token_of-name name n, d) refl

  parse_flags-render :
      (os : List Written)
      → are_valid accepts fs os ≡ true
      → parse_flags accepts fs (render os) ≡ (meaning os, none)
  unfolding parse_flags
  parse_flags-render [] v = refl
  parse_flags-render (switch name ∷ os) v =
      let n : is_name name ≡ true = ground (arith, v) in
      let d : find fs name ≡ some true = declared-switch (find fs name) (ground (arith, v)) in
      let a : accepts name (text "true") ≡ true = ground (arith, v) in
      parse_flags-switch name (render os) n d
      ∙ rw (parse_flags-render os (ground (arith, v)), a) refl
  parse_flags-render (valued name w ∷ os) v =
      let n : is_name name ≡ true = ground (arith, v) in
      let d : find fs name ≡ some false = declared-valued (find fs name) (ground (arith, v)) in
      let a : accepts name w ≡ true = ground (arith, v) in
      rw (parse_flags, token_of-name name n, d, parse_flags-render os (ground (arith, v)), a) refl

  settings-render :
      (os : List Written)
      → are_valid accepts fs os ≡ true
      → wants_help false (meaning os) ≡ false
      → (if length (render os) == 0
          then answered []
          else checked_help (parse_flags accepts fs (render os)))
        ≡ answered (meaning os)
  settings-render [] v h = refl
  settings-render (switch name ∷ os) v h =
      rw (parse_flags-render (switch name ∷ os) v, h) (ground arith)
  settings-render (valued name w ∷ os) v h =
      rw (parse_flags-render (valued name w ∷ os) v, h) (ground arith)

take-append : (xs ys : List Text) → take (length xs) (xs ++ ys) ≡ xs
take-append [] ys = refl
take-append (x ∷ xs) ys = ap (λ r. x ∷ r) (take-append xs ys)

drop-append : (xs ys : List Text) (n : ℕ) → drop (length xs + n) (xs ++ ys) ≡ drop n ys
drop-append [] ys n = ap (λ k. drop k ys) (omega arith)
drop-append (x ∷ xs) ys n =
    let e : (suc (length xs) + n) ≡ suc (length xs + n) = omega arith in
    ap (λ k. drop k (x ∷ (xs ++ ys))) e ∙ drop-append xs ys n

-- Parse reads a command line back: options whose flags are declared and take their values, none of them
-- asking for help, then at least the arguments that are expected, of which the first does not look like an
-- option. It answers with what the options set, the arguments expected and those after them.
pub parse-render :
    (accepts : Text → Text → Bool) (fs : FlagSet) (os : List Written) (args : List Text)
    (expected : ℕ)
    → are_valid accepts fs os ≡ true
    → begin_plain args ≡ true
    → wants_help false (meaning os) ≡ false
    → leb expected (length args) ≡ true
    → parse accepts fs expected (render os ++ args)
      ≡ answered (meaning os, (take expected args, drop expected args))
unfolding parse parse_at
parse-render accepts fs os args expected v p h l =
    let counted = options_length-render accepts fs os args v p in
    let enough : ltb (length (render os ++ args)) (length (render os) + expected) ≡ false =
      grind (arith, length-append (render os) args, l) in
    let start : drop (length (render os)) (render os ++ args) ≡ args =
      ap (λ k. drop k (render os ++ args)) (omega arith) ∙ drop-append (render os) args 0 in
    rw
      (
        counted,
        take-append (render os) args,
        settings-render accepts fs os v h,
        enough,
        start,
        drop-append (render os) args expected,
      )
      refl
