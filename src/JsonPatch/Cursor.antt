-- ===== src/JsonPatch/Cursor.antt =====
-- The text left at a cursor (src/mcp/json_patch.rs), and how reading moves it.
use cc_switch_core.Base.{
  nat_eq, list_eq, option_eq, string_eq, ℕ, suc, ◌+◌, ◌-◌, ◌≡◌, subst, ◌∙◌, [], ◌∷◌, ◌++◌, arith,
  length, take, ap,
}
use cc_switch_core.Base.{drop, slice, drop-drop, take_add, drop-append, take-append}
use cc_switch_core.Text.{Bytes}

-- At the cursor, the rest of the bytes is this.
abbrev pub At : Bytes → ℕ → Bytes → Type 0
At bytes cursor rest = drop cursor bytes ≡ rest

pub At-advance :
    (bytes : Bytes) (cursor : ℕ) (read rest : Bytes)
    → At bytes cursor (read ++ rest)
    → At bytes (cursor + length read) rest
At-advance bytes cursor read rest h =
    drop-drop cursor (length read) bytes ∙ rw h (drop-append read rest)

pub At-suc :
    (bytes : Bytes) (cursor b : ℕ) (rest : Bytes)
    → At bytes cursor (b ∷ rest)
    → At bytes (suc cursor) rest
At-suc bytes cursor b rest h =
    let one : cursor + 1 ≡ suc cursor = omega arith in
    subst (λ c. At bytes c rest) one (At-advance bytes cursor (b ∷ []) rest h)

-- At the end of a prefix, the rest is what follows it.
pub At-prefix : (before rest : Bytes) → At (before ++ rest) (length before) rest
At-prefix before rest = drop-append before rest

pub slice-At :
    (bytes : Bytes) (cursor : ℕ) (read rest : Bytes)
    → At bytes cursor (read ++ rest)
    → slice cursor (cursor + length read) bytes ≡ read
slice-At bytes cursor read rest h =
    let size : cursor + length read - cursor ≡ length read = omega arith in
    rw (size, h) (take-append read rest)

pub take-At :
    (bytes : Bytes) (cursor : ℕ) (read rest : Bytes)
    → At bytes cursor (read ++ rest)
    → take (cursor + length read) bytes ≡ take cursor bytes ++ read
take-At bytes cursor read rest h =
    take_add cursor (length read) bytes
    ∙ rw h (ap (λ l. take cursor bytes ++ l) (take-append read rest))
