-- ===== src/Cli.antt =====
-- cli/parse.go: options before arguments. The flag sets of the package flag are their flags with the values
-- that each takes; what flag.FlagSet.Parse does with them is written out.
pub mod Options
mod Examples
use blue.Prelude.{
  ℕ, zero, suc, ◌+◌, ◌-◌, Text, text, text_eq, ltb, ◌==◌, length, take, drop, Bool, true, false,
  ◌||◌, List, [], ◌∷◌, ◌++◌, Option, none, some, if◌then◌else◌,
}
use blue.Document.{Collection, find}

-- ErrInvalidArgs, flag.ErrHelp and ErrHelp, and the errors of flag.
pub data Refusal : Type 0 where
  invalid_args help_requested : Refusal
  bad_syntax undefined_flag bad_value missing_value : Text → Refusal

pub data Result {ℓ} (A : Type ℓ) : Type ℓ where
  answered : A → Result A
  refused : Refusal → Result A
  panicked : Result A

infixl 5 ◌>>=◌
abbrev pub ◌>>=◌ {ℓ κ} : {A : Type ℓ} {B : Type κ} → Result A → (A → Result B) → Result B
answered x >>= next = next x
refused e >>= next = refused e
panicked >>= next = panicked

-- FlagSet: its flags by name, each boolean or not. NewFlagSet declares h.
abbrev pub FlagSet : Type 0
FlagSet = Collection Bool

abbrev pub new_flag_set : FlagSet
new_flag_set = (text "h", true) ∷ []

abbrev pub is_set : Option Bool → Bool
is_set none = false
is_set (some b) = b

-- isBoolFlag
unfoldable pub is_bool_flag : FlagSet → Text → Bool
is_bool_flag fs name = is_set (find fs name)

-- The number of options, of findLastOptionIdx.
unfoldable pub options_length : FlagSet → Bool → List Text → Result ℕ
options_length fs is_not_flag_arg [] = answered 0
options_length fs is_not_flag_arg ([] ∷ args) = panicked
options_length fs is_not_flag_arg ((c ∷ s) ∷ args) =
    let after_option = options_length fs (is_bool_flag fs s) args >>= λ n. answered (suc n) in
    let after_value = options_length fs true args >>= λ n. answered (suc n) in
    if c == b'-' then after_option else if is_not_flag_arg then answered 0 else after_value

-- What an argument is to flag.FlagSet.Parse.
pub data Token : Type 0 where
  no_flag terminator : Token
  ill_formed : Text → Token
  flag_of : Text → Option Text → Token

-- A name and its value, cut at the first equals sign that does not begin it.
abbrev pub at_equals : Text → Text → Token
at_equals name [] = flag_of name none
at_equals name (c ∷ s) = if c == b'=' then flag_of name (some s) else at_equals (name ++ c ∷ []) s

abbrev pub named_token : Text → Text → Token
named_token arg [] = ill_formed arg
named_token arg (c ∷ s) = if c == b'-' || c == b'=' then ill_formed arg else at_equals (c ∷ []) s

abbrev pub dashed_token : Text → Text → Token
dashed_token arg [] = no_flag
dashed_token arg (c ∷ s) =
    if c == b'-'
    then (elim s [ [] ↦ terminator | d ∷ t ↦ named_token arg (d ∷ t) ])
    else named_token arg (c ∷ s)

unfoldable pub token_of : Text → Token
token_of [] = no_flag
token_of (c ∷ s) = if c == b'-' then dashed_token (c ∷ s) s else no_flag

abbrev pub Settings : Type 0
Settings = List (Text × Text)

abbrev pub unknown_flag : Text → Settings × Option Refusal
unknown_flag name = (
  [],
  some (
      if text_eq name (text "help") || text_eq name (text "h")
      then help_requested
      else undefined_flag name),
)

-- The words that strconv.ParseBool reads as true.
abbrev pub is_true : Text → Bool
is_true v =
    text_eq v (text "1")
    || text_eq v (text "t")
    || text_eq v (text "T")
    || text_eq v (text "TRUE")
    || text_eq v (text "true")
    || text_eq v (text "True")

-- The help of the flag set: the last value of its flag h.
abbrev pub wants_help : Bool → Settings → Bool
wants_help h [] = h
wants_help h ((name, v) ∷ settings) =
    wants_help (if text_eq name (text "h") then is_true v else h) settings

-- The error of Parse, which is ErrHelp where help was asked for.
abbrev pub checked_help : Settings × Option Refusal → Result Settings
checked_help (settings, some help_requested) = refused help_requested
checked_help (settings, some e) =
    if wants_help false settings then refused help_requested else refused e
checked_help (settings, none) =
    if wants_help false settings then refused help_requested else answered settings

-- Whether the flag of the name takes the value.
module _ (accepts : Text → Text → Bool) (fs : FlagSet) where
  -- A flag that is set, then the rest.
  abbrev pub setting : Text → Text → Settings × Option Refusal → Settings × Option Refusal
  setting name value (settings, e) =
      if accepts name value then ((name, value) ∷ settings, e) else ([], some (bad_value name))

  -- A flag without an argument after it.
  abbrev pub last_flag : Text → Option Text → Option Bool → Settings × Option Refusal
  last_flag name value none = unknown_flag name
  last_flag name (some v) (some is_bool) = setting name v ([], none)
  last_flag name none (some true) = setting name (text "true") ([], none)
  last_flag name none (some false) = ([], some (missing_value name))

  -- A flag, with the argument after it, what follows the flag and what follows that argument.
  abbrev pub inner_flag :
      Text
      → Option Text
      → Text
      → Settings × Option Refusal
      → Settings × Option Refusal
      → Option Bool
      → Settings × Option Refusal
  inner_flag name value next from_next after_next none = unknown_flag name
  inner_flag name (some v) next from_next after_next (some is_bool) = setting name v from_next
  inner_flag name none next from_next after_next (some true) = setting name (text "true") from_next
  inner_flag name none next from_next after_next (some false) = setting name next after_next

  -- flag.FlagSet.Parse: the values that are set, in their order, and the error.
  unfoldable pub parse_flags : List Text → Settings × Option Refusal
  parse_flags [] = ([], none)
  parse_flags (arg ∷ []) = elim (token_of arg) [
    | no_flag ↦ ([], none)
    | terminator ↦ ([], none)
    | ill_formed a ↦ ([], some (bad_syntax a))
    | flag_of name value ↦ last_flag name value (find fs name)
  ]
  parse_flags (arg ∷ next ∷ args) =
      let from_next = parse_flags (next ∷ args) in
      let after_next = parse_flags args in
      elim (token_of arg) [
        | no_flag ↦ ([], none)
        | terminator ↦ ([], none)
        | ill_formed a ↦ ([], some (bad_syntax a))
        | flag_of name value ↦ inner_flag name value next from_next after_next (find fs name)
      ]

  -- Parse, once the options are counted: the values of the options, the arguments and the rest.
  unfoldable pub parse_at : ℕ → List Text → ℕ → Result (Settings × (List Text × List Text))
  parse_at expected args opts_len =
      (if opts_len == 0 then answered [] else checked_help (parse_flags (take opts_len args)))
      >>= λ settings.
          if ltb (length args) (opts_len + expected)
          then refused invalid_args
          else answered
              (settings, (take expected (drop opts_len args), drop (opts_len + expected) args))

  -- Parse, with a flag set and arguments that are not nil, and of a number of arguments that is not negative
  unfoldable pub parse : ℕ → List Text → Result (Settings × (List Text × List Text))
  parse expected args = options_length fs true args >>= parse_at expected args

-- handleCommonErrors, whose usage texts are left out.
abbrev pub handled : Result (Unit {0}) → Result (Unit {0})
handled (refused help_requested) = answered tt
handled (refused e) = refused e
handled (answered x) = answered x
handled panicked = panicked

-- A sub-command, which is run with the names that led to it and its arguments.
abbrev pub Command : Type 0
Command = List Text → List Text → Result (Unit {0})

-- RunCommand, where `path` holds the names dispatched to so far.
unfoldable pub run_command : Collection Command → List Text → List Text → Result (Unit {0})
run_command cmds path [] = refused invalid_args
run_command cmds path (name ∷ args) = elim (find cmds name) [
  | some cmd ↦ cmd (path ++ name ∷ []) args
  | none ↦ refused invalid_args
]

-- ParseAndRunCommand
unfoldable pub parse_and_run_command :
    (Text → Text → Bool) → FlagSet → Collection Command → List Text → List Text → Result (Unit {0})
parse_and_run_command accepts fs cmds path args =
    handled
      (parse accepts fs 0 args >>= λ (settings, (none_expected, rest)). run_command cmds path rest)
