-- ===== src/Cli/Examples.antt =====
-- Parse at concrete command lines.
use blue.Prelude.{Text, text, text_eq, Bool, true, false, ◌≡◌, refl, List, [], ◌∷◌}
use blue.Document.{find}
use blue.Cli.{
  answered, refused, panicked, invalid_args, FlagSet, is_bool_flag, options_length, token_of,
  parse_flags, parse_at, parse,
}
use blue.Cli.Options.{Written, switch, valued, parse-render}

abbrev any_value : Text → Text → Bool
any_value name v = true

abbrev flags : FlagSet
flags = (text "h", true) ∷ (text "force", true) ∷ (text "n", false) ∷ []

abbrev written : List Written
written = switch (text "force") ∷ valued (text "n") (text "5") ∷ []

parse-render_example :
    parse any_value flags 1 (text "-force" ∷ text "-n" ∷ text "5" ∷ text "pkg" ∷ text "rest" ∷ [])
    ≡ answered (
      (text "force", text "true") ∷ (text "n", text "5") ∷ [],
      (text "pkg" ∷ [], text "rest" ∷ []),
    )
unfolding text_eq find
parse-render_example =
    parse-render any_value flags written (text "pkg" ∷ text "rest" ∷ []) 1 refl refl refl refl

-- With two dashes, an option that is no boolean flag by that name takes the argument after it.
two_dashes : parse any_value flags 1 (text "--force" ∷ text "pkg" ∷ []) ≡ refused invalid_args
unfolding text_eq find is_bool_flag options_length token_of parse_flags parse_at parse
two_dashes = refl

-- A value that begins with a dash makes the argument after it an option.
negative_value :
    parse any_value flags 1 (text "-n" ∷ text "-5" ∷ text "pkg" ∷ []) ≡ refused invalid_args
unfolding text_eq find is_bool_flag options_length token_of parse_flags parse_at parse
negative_value = refl

empty_argument : parse any_value flags 1 ([] ∷ []) ≡ panicked
unfolding options_length parse
empty_argument = refl
