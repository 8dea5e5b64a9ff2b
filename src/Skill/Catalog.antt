-- ===== src/Skill/Catalog.antt =====
-- The rows of the shared skill catalog (src/skill/catalog.rs). A text is the list of its code points;
-- its size is that of its UTF-8 bytes.
use cc_switch_core.Base.{
  nat_eq, list_eq, option_eq, string_eq, ℕ, ◌+◌, ◌-◌, ◌*◌, Bool, true, false, not, ◌&&◌, ◌||◌,
  Option, none, some, List, [], ◌∷◌, map, Result, ok, err, ◌>>=◌, ◌==◌, if◌then◌else◌, ltb, leb,
  nat_beq, ◌>>◌,
}
use cc_switch_core.Base.{contains}
use cc_switch_core.Text.{Text, codes, trim}
use cc_switch_core.Text.Search.{starts_with, ends_with, strip_prefix}
use cc_switch_core.App.{AppType}
use cc_switch_core.Registry.Catalog.{all_apps}

abbrev pub max_skill_id_bytes : ℕ
max_skill_id_bytes = 1024

abbrev pub max_skill_name_bytes : ℕ
max_skill_name_bytes = 256

abbrev pub max_skill_directory_bytes : ℕ
max_skill_directory_bytes = 255

abbrev pub max_skill_description_bytes : ℕ
max_skill_description_bytes = 16 * 1024

-- `SkillCatalogColumn`: the name of the column
abbrev pub Column : Type 0
Column = Text

-- The column that each application's `INTEGRATION` names in its skill contract
abbrev claude_skill_column : Column
claude_skill_column = codes "enabled_claude"

abbrev codex_skill_column : Column
codex_skill_column = codes "enabled_codex"

abbrev gemini_skill_column : Column
gemini_skill_column = codes "enabled_gemini"

abbrev grok_build_skill_column : Column
grok_build_skill_column = codes "enabled_grokbuild"

abbrev open_code_skill_column : Column
open_code_skill_column = codes "enabled_opencode"

abbrev hermes_skill_column : Column
hermes_skill_column = codes "enabled_hermes"

abbrev pi_skill_column : Column
pi_skill_column = codes "enabled_pi"

-- The column of the skill contract that an application's descriptor has, if it has one
unfoldable pub catalog_column : AppType → Option Column
catalog_column AppType.claude_desktop = none
catalog_column AppType.open_claw = none
catalog_column AppType.claude = some claude_skill_column
catalog_column AppType.codex = some codex_skill_column
catalog_column AppType.gemini = some gemini_skill_column
catalog_column AppType.grok_build = some grok_build_skill_column
catalog_column AppType.open_code = some open_code_skill_column
catalog_column AppType.hermes = some hermes_skill_column
catalog_column AppType.pi = some pi_skill_column

abbrev cons_some : Option Column → List Column → List Column
cons_some none columns = columns
cons_some (some column) columns = column ∷ columns

unfoldable pub columns_of : List AppType → List Column
unfolding catalog_column
columns_of [] = []
columns_of (app ∷ apps) = cons_some (catalog_column app) (columns_of apps)

-- `skill_catalog_columns`
unfoldable pub skill_catalog_columns : List Column
unfolding columns_of
skill_catalog_columns = columns_of all_apps

-- The texts of the field, the directory and the column in an error are those of the values.
pub data SkillCatalogEntryError : Type 0 where
  invalid_text : Text → SkillCatalogEntryError
  invalid_directory : Text → SkillCatalogEntryError
  duplicate_column : Column → SkillCatalogEntryError
  missing_column : Column → SkillCatalogEntryError
  description_too_large : ℕ → SkillCatalogEntryError

pub record SkillCatalogEntry : Type 0 where
  pub id : Text
  pub name : Text
  pub description : Option Text
  pub directory : Text
  pub selections : List (Column × Bool)

-- `char::len_utf8`
abbrev pub len_utf8 : ℕ → ℕ
len_utf8 c = if ltb c 0x80 then 1 else if ltb c 0x800 then 2 else if ltb c 0x10000 then 3 else 4

-- `str::len`
unfoldable pub byte_length : Text → ℕ
byte_length [] = 0
byte_length (c ∷ s) = len_utf8 c + byte_length s

-- `char::is_control`
abbrev pub is_control : ℕ → Bool
is_control c = ltb c 0x20 || (leb 0x7f c && leb c 0x9f)

abbrev pub any_char : (ℕ → Bool) → Text → Bool
any_char test [] = false
any_char test (c ∷ s) = test c || any_char test s

unfoldable pub validate_text : Text → Text → ℕ → Result SkillCatalogEntryError (Unit {0})
unfolding byte_length trim
validate_text field value max_bytes =
    if value == []
      || not (trim value == value)
      || ltb max_bytes (byte_length value)
      || any_char is_control value
    then err (SkillCatalogEntryError.invalid_text field)
    else ok tt

abbrev pub is_ok {ℓ} : {A : Type ℓ} → Result SkillCatalogEntryError A → Bool
is_ok (ok a) = true
is_ok (err e) = false

unfoldable pub valid_skill_id : Text → Bool
unfolding validate_text
valid_skill_id value = is_ok (validate_text (codes "id") value max_skill_id_bytes)

-- `Path::components` of a Unix path gives one normal component, the path itself.
unfoldable pub is_single_component : Text → Bool
is_single_component directory =
    not (directory == [])
    && not (contains directory b'/')
    && not (directory == codes ".")
    && not (directory == codes "..")

-- The text before the first dot: `directory.split('.').next()`
abbrev pub before_dot : Text → Text
before_dot [] = []
before_dot (c ∷ s) = if nat_beq c b'.' then [] else c ∷ before_dot s

abbrev pub ascii_upper : ℕ → ℕ
ascii_upper c = if leb b'a' c && leb c b'z' then c - 32 else c

abbrev pub is_device_number : Option Text → Bool
is_device_number none = false
is_device_number (some []) = false
is_device_number (some (c ∷ d ∷ s)) = false
is_device_number (some (c ∷ [])) =
    (leb b'1' c && leb c b'9') || nat_beq c 0xb9 || nat_beq c 0xb2 || nat_beq c 0xb3

unfoldable pub is_windows_reserved_directory : Text → Bool
is_windows_reserved_directory directory =
    let upper = map ascii_upper (before_dot directory) in
    contains
      (codes "CON"
        ∷ codes "PRN"
        ∷ codes "AUX"
        ∷ codes "NUL"
        ∷ codes "CONIN$"
        ∷ codes "CONOUT$"
        ∷ [])
      upper
    || is_device_number (strip_prefix (codes "COM") upper)
    || is_device_number (strip_prefix (codes "LPT") upper)

-- The characters that no directory may have
abbrev pub forbidden : Text
forbidden = codes "/\\<>:\"|?*"

unfoldable pub is_refused_directory : Text → Bool
unfolding is_single_component trim byte_length is_windows_reserved_directory
is_refused_directory directory =
    not (is_single_component directory)
    || not (trim directory == directory)
    || starts_with (codes ".") directory
    || ends_with (codes ".") directory
    || any_char (contains forbidden) directory
    || ltb max_skill_directory_bytes (byte_length directory)
    || any_char is_control directory
    || is_windows_reserved_directory directory

unfoldable pub validate_directory : Text → Result SkillCatalogEntryError (Unit {0})
unfolding is_refused_directory
validate_directory directory =
    if is_refused_directory directory
    then err (SkillCatalogEntryError.invalid_directory directory)
    else ok tt

-- `selections.iter().find_map(…)`: the first selection of the column
abbrev pub selected_column : List (Column × Bool) → Column → Option Bool
selected_column [] column = none
selected_column ((candidate, selected) ∷ selections) column =
    if candidate == column then some selected else selected_column selections column

abbrev pub has_column : List (Column × Bool) → Column → Bool
has_column [] column = false
has_column ((candidate, selected) ∷ supplied) column =
    candidate == column || has_column supplied column

-- The loop that fills the map `supplied`, the last selection first.
unfoldable pub supply_columns :
    List (Column × Bool)
    → List (Column × Bool)
    → Result SkillCatalogEntryError (List (Column × Bool))
supply_columns supplied [] = ok supplied
supply_columns supplied ((column, selected) ∷ selections) =
    let rest = supply_columns ((column, selected) ∷ supplied) selections in
    if has_column supplied column
    then err (SkillCatalogEntryError.duplicate_column column)
    else rest

abbrev pub remove_column : Column → List (Column × Bool) → List (Column × Bool)
remove_column column [] = []
remove_column column ((candidate, selected) ∷ supplied) =
    if candidate == column then supplied else (candidate, selected) ∷ remove_column column supplied

-- The loop over the registry's columns
unfoldable pub order_columns :
    List Column → List (Column × Bool) → Result SkillCatalogEntryError (List (Column × Bool))
order_columns [] supplied = ok []
order_columns (column ∷ columns) supplied = elim (selected_column supplied column) [
  | none ↦ err (SkillCatalogEntryError.missing_column column)
  | some selected ↦ order_columns columns (remove_column column supplied) >>= λ ordered.
      ok ((column, selected) ∷ ordered)
]

abbrev pub description_fits : Option Text → Result SkillCatalogEntryError (Unit {0})
description_fits none = ok tt
description_fits (some description) =
    if ltb max_skill_description_bytes (byte_length description)
    then err (SkillCatalogEntryError.description_too_large max_skill_description_bytes)
    else ok tt

-- `SkillCatalogEntry::try_new`
unfoldable pub try_new_entry :
    Text
    → Text
    → Option Text
    → Text
    → List (Column × Bool)
    → Result SkillCatalogEntryError SkillCatalogEntry
unfolding validate_text validate_directory supply_columns order_columns skill_catalog_columns
    byte_length
try_new_entry id name description directory selections =
    validate_text (codes "id") id max_skill_id_bytes
    >> (validate_text (codes "name") name max_skill_name_bytes
        >> (description_fits description
            >> (validate_directory directory
                >> (supply_columns [] selections >>= λ supplied.
                    order_columns skill_catalog_columns supplied >>= λ ordered. ok (record {
                      id = id;
                      name = name;
                      description = description;
                      directory = directory;
                      selections = ordered;
                    })))))

abbrev pub find_selected : SkillCatalogEntry → Option Column → Option Bool
find_selected entry none = none
find_selected entry (some column) = selected_column entry.selections column

-- `SkillCatalogEntry::selected_for`
unfoldable pub selected_for : SkillCatalogEntry → AppType → Option Bool
unfolding catalog_column
selected_for entry app = find_selected entry (catalog_column app)
