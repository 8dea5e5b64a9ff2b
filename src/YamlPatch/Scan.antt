-- ===== src/YamlPatch/Scan.antt =====
-- The scanners of one line of a YAML text (src/yaml_patch.rs): `scan_yaml_line`, which blanks what is
-- quoted and finds a comment, and `top_level_colon`.
use cc_switch_core.Base.{
  nat_eq, list_eq, option_eq, string_eq, ℕ, suc, Bool, true, false, ◌&&◌, ◌||◌, Option, none, some,
  [], ◌∷◌, ◌==◌, if◌then◌else◌, nat_beq,
}
use cc_switch_core.Base.{head?}
use cc_switch_core.Text.{Text, is_whitespace}

-- The variables of the loop of `scan_yaml_line`. `doubled` says that the next character is the second
-- quote of a doubled one, which the loop consumes together with the first.
pub record ScanState : Type 0 where
  pub quote : Option ℕ
  pub escaped : Bool
  pub doubled : Bool
  pub previous : Option ℕ
  pub last_non_whitespace : Option ℕ

abbrev pub scan_start : ScanState
scan_start = record {
  quote = none;
  escaped = false;
  doubled = false;
  previous = none;
  last_non_whitespace = none;
}

abbrev pub starts_scalar : ℕ → Bool
starts_scalar c =
    nat_beq c b':'
    || nat_beq c b'-'
    || nat_beq c b'?'
    || nat_beq c b'['
    || nat_beq c b'{'
    || nat_beq c b','

unfoldable pub quoted_scalar_can_start : Option ℕ → Bool
quoted_scalar_can_start none = true
quoted_scalar_can_start (some character) = starts_scalar character

abbrev pub none_or_whitespace : Option ℕ → Bool
none_or_whitespace none = true
none_or_whitespace (some character) = is_whitespace character

abbrev pub is_quote : ℕ → Bool
is_quote c = nat_beq c b'\'' || nat_beq c b'"'

-- A character inside of quotes
abbrev pub scan_quoted : ScanState → ℕ → ℕ → Option ℕ → ScanState
scan_quoted state active character next =
    if state.escaped
    then record {
      quote = some active;
      escaped = false;
      doubled = false;
      previous = some character;
      last_non_whitespace = state.last_non_whitespace;
    }
    else if nat_beq active b'"' && nat_beq character b'\\'
    then record {
      quote = some active;
      escaped = true;
      doubled = false;
      previous = some character;
      last_non_whitespace = state.last_non_whitespace;
    }
    else if nat_beq character active
    then (if nat_beq active b'\'' && next == some b'\''
        then record {
          quote = some active;
          escaped = false;
          doubled = true;
          previous = some character;
          last_non_whitespace = state.last_non_whitespace;
        }
        else record {
          quote = none;
          escaped = false;
          doubled = false;
          previous = some character;
          last_non_whitespace = some character;
        })
    else record {
      quote = some active;
      escaped = false;
      doubled = false;
      previous = some character;
      last_non_whitespace = state.last_non_whitespace;
    }

-- A round of the loop: the character of the output and the next state, or none at a comment.
unfoldable pub scan_character : ScanState → ℕ → Option ℕ → Option (ℕ × ScanState)
unfolding quoted_scalar_can_start
scan_character state character next =
    if state.doubled
    then some (
      b' ',
      record {
        quote = state.quote;
        escaped = false;
        doubled = false;
        previous = state.previous;
        last_non_whitespace = state.last_non_whitespace;
      },
    )
    else elim state.quote [
      | some active ↦ some (b' ', scan_quoted state active character next)
      | none ↦
          if is_quote character && quoted_scalar_can_start state.last_non_whitespace
          then some (
            b' ',
            record {
              quote = some character;
              escaped = state.escaped;
              doubled = false;
              previous = some character;
              last_non_whitespace = state.last_non_whitespace;
            },
          )
          else if nat_beq character b'#' && none_or_whitespace state.previous
          then none
          else some (
            character,
            record {
              quote = none;
              escaped = state.escaped;
              doubled = false;
              previous = some character;
              last_non_whitespace =
                  if is_whitespace character then state.last_non_whitespace else some character;
            },
          )
    ]

unfoldable pub scan_from : ScanState → Text → Text × Bool
unfolding scan_character
scan_from state [] = ([], false)
scan_from state (character ∷ rest) = elim (scan_character state character (head? rest)) [
  | none ↦ ([], true)
  | some (out, next) ↦ let (output, comment) = scan_from next rest in (out ∷ output, comment)
]

unfoldable pub scan_yaml_line : Text → Text × Bool
unfolding scan_from
scan_yaml_line line = scan_from scan_start line

-- The loop of `top_level_colon`: the active quote, whether the character is escaped, whether it is
-- the second of a doubled quote, and its index.
unfoldable pub colon_from : Option ℕ → Bool → Bool → ℕ → Text → Option ℕ
colon_from quote escaped doubled index [] = none
colon_from quote escaped true index (character ∷ rest) =
    colon_from quote escaped false (suc index) rest
colon_from none escaped false index (character ∷ rest) = elim (is_quote character) [
  | true ↦ colon_from (some character) escaped false (suc index) rest
  | false ↦ elim (nat_beq character b':') [
    | true ↦ some index
    | false ↦ colon_from none escaped false (suc index) rest
  ]
]
colon_from (some active) true false index (character ∷ rest) =
    colon_from (some active) false false (suc index) rest
colon_from (some active) false false index (character ∷ rest) =
    elim (nat_beq active b'"' && nat_beq character b'\\') [
      | true ↦ colon_from (some active) true false (suc index) rest
      | false ↦ elim (nat_beq character active) [
        | false ↦ colon_from (some active) false false (suc index) rest
        | true ↦ elim (nat_beq active b'\'' && head? rest == some b'\'') [
          | true ↦ colon_from (some active) false true (suc index) rest
          | false ↦ colon_from none false false (suc index) rest
        ]
      ]
    ]

unfoldable pub top_level_colon : Text → Option ℕ
unfolding colon_from
top_level_colon line = colon_from none false false 0 line
