-- ===== src/YamlPatch/Duplicates.antt =====
-- `has_duplicate_top_level_key` (src/yaml_patch.rs), told of the lines that spell the key.
use cc_switch_core.Base.{
  nat_eq, list_eq, option_eq, string_eq, ◌≡◌, refl, sym, ◌∙◌, inl, inr, Bool, true, false, not,
  ◌||◌, Option, some, List, [], ◌∷◌, ◌==◌, if◌then◌else◌, Bool-cases,
}
use cc_switch_core.Text.{Text}
use cc_switch_core.YamlPatch.Lines.{lines_of}
use cc_switch_core.YamlPatch.Keys.{
  decoded_top_level_key, is_canonical, duplicate_in, has_duplicate_top_level_key,
}

module _ (string_of : Text → Option Text) (key : Text) where
  -- The lines whose key of the top level is this one, however it is spelled
  abbrev pub lines_with_key : List Text → List Text
  lines_with_key [] = []
  lines_with_key (line ∷ lines) =
      if decoded_top_level_key string_of line == some key
      then line ∷ lines_with_key lines
      else lines_with_key lines

  -- Whether the key is there more than once, or other than as it is, given whether it was before.
  abbrev pub is_repeated : Bool → List Text → Bool
  is_repeated found [] = false
  is_repeated found (line ∷ []) = found || not (is_canonical key line)
  is_repeated found (line ∷ next ∷ lines) = true

  is_repeated-first :
      (found : Bool) (line : Text) (lines : List Text)
      → (found || not (is_canonical key line)) ≡ true
      → is_repeated found (line ∷ lines) ≡ true
  is_repeated-first found line [] h = h
  is_repeated-first found line (next ∷ lines) h = refl

  is_repeated-later :
      (found : Bool) (line : Text) (lines : List Text)
      → (found || not (is_canonical key line)) ≡ false
      → is_repeated found (line ∷ lines) ≡ is_repeated true lines
  is_repeated-later found line [] h = h
  is_repeated-later found line (next ∷ []) h = refl
  is_repeated-later found line (next ∷ more ∷ lines) h = refl

  duplicate_in-is_repeated :
      (found : Bool) (lines : List Text)
      → duplicate_in string_of key found lines ≡ is_repeated found (lines_with_key lines)
  unfolding duplicate_in
  duplicate_in-is_repeated found [] = refl
  duplicate_in-is_repeated found (line ∷ lines) =
      elim (Bool-cases (decoded_top_level_key string_of line == some key)) [
        | inr other ↦ rw (other, duplicate_in) (duplicate_in-is_repeated found lines)
        | inl same ↦ elim (Bool-cases (found || not (is_canonical key line))) [
          | inl twice ↦
              rw (same, twice, duplicate_in)
                (sym (is_repeated-first found line (lines_with_key lines) twice))
          | inr once ↦
              rw (same, once, duplicate_in)
                (duplicate_in-is_repeated true lines
                  ∙ sym (is_repeated-later found line (lines_with_key lines) once))
        ]
      ]

  -- A text has a duplicate key of the top level if several lines spell it, or one does other than
  -- as it is with a colon after it.
  pub has_duplicate_top_level_key-is_repeated :
      (raw : Text)
      → has_duplicate_top_level_key string_of raw key
        ≡ is_repeated false (lines_with_key (lines_of raw))
  unfolding has_duplicate_top_level_key
  has_duplicate_top_level_key-is_repeated raw = duplicate_in-is_repeated false (lines_of raw)
