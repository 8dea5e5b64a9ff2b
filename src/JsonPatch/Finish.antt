-- ===== src/JsonPatch/Finish.antt =====
-- The end of the loop of `root_entries` (src/mcp/json_patch.rs).
use cc_switch_core.Base.{
  nat_eq, list_eq, option_eq, string_eq, option_beq_iff, ℕ, zero, suc, ◌+◌, ◌≤◌, ◌<◌, ◌≡◌, refl,
  subst, ◌≢◌, inl, inr, false, Option, some, arith, err, ◌==◌, length, Bool-cases, Option-cases,
  nat_beq,
}
use cc_switch_core.Base.{drop, head?, slice, head?-drop-lt}
use cc_switch_core.Base.{drop, head?, slice, head?-drop-lt}
use cc_switch_core.Text.{Text, Bytes}
use cc_switch_core.JsonPatch.JsonPatchError.{unfinished}
use cc_switch_core.JsonPatch.Scan.{skip_whitespace, is_ascii_whitespace, string_end, value_end}
use cc_switch_core.JsonPatch.Entries.{
  RootStep, after_value, value_step, colon_step, member_step, root_step, root_loop, root_entries,
}
use cc_switch_core.JsonPatch.ScanFinish.{
  Finishes, Finishes-bind, Finishes-cases, Between, string_end-Between, skip_whitespace-bounds,
  value_end-Between,
}

-- A round that has an entry moves the cursor on.
abbrev Advances : Bytes → ℕ → RootStep → Type 0
Advances bytes cursor (RootStep.root_close close) = Unit
Advances bytes cursor (RootStep.entry found next) = Between cursor (length bytes) next

Anything : {A : Type 0} → A → Type 0
Anything a = Unit

after_value-Between :
    (bytes : Bytes) (cursor : ℕ)
    → Finishes
        (λ next. (cursor ≤ next) × (next ≤ length bytes))
        (after_value (head? (drop cursor bytes)) cursor)
after_value-Between bytes cursor = elim (Option-cases (head? (drop cursor bytes))) [
  | inl end ↦ rw end refl
  | inr (b, e) ↦
      let inside = head?-drop-lt cursor bytes e in
      elim (Bool-cases (nat_beq b b',')) [
        | inl comma ↦ rw (e, comma) (omega arith, omega (arith, inside))
        | inr other ↦ elim (Bool-cases (nat_beq b b'}')) [
          | inl brace ↦ rw (e, other, brace) (omega arith, omega (arith, inside))
          | inr third ↦ rw (e, other, third) refl
        ]
      ]
]

module _ (bytes : Bytes) (from : ℕ) where
  value_step-Advances :
      (key : Text) (k start b : ℕ)
      → from ≤ k
      → k < start
      → head? (drop k bytes) ≡ some b
      → is_ascii_whitespace b ≡ false
      → Finishes (Advances bytes from) (value_step bytes key start)
  unfolding value_step
  value_step-Advances key k start b later before at ink =
      Finishes-bind (Between k (length bytes)) (Advances bytes from) (value_end bytes start) _
        (value_end-Between bytes k start b before at ink)
        (λ end h.
          let (low, high) = skip_whitespace-bounds bytes end h.1 in
          Finishes-bind _ (Advances bytes from)
            (after_value (head? (drop (skip_whitespace bytes end) bytes))
              (skip_whitespace bytes end))
            _ (after_value-Between bytes (skip_whitespace bytes end))
            (λ next n. (omega (arith, later, h, low, n), n.1)))

  colon_step-Advances :
      (key : Text) (key_end : ℕ)
      → from ≤ key_end
      → key_end ≤ length bytes
      → Finishes (Advances bytes from) (colon_step bytes key key_end)
  unfolding colon_step
  colon_step-Advances key key_end later h =
      let colon = skip_whitespace bytes key_end in
      let (low, high) = skip_whitespace-bounds bytes key_end h in
      elim (Bool-cases (head? (drop colon bytes) == some b':')) [
        | inl here ↦
            let at : head? (drop colon bytes) ≡ some b':' =
              (option_beq_iff (head? (drop colon bytes)) (some b':')).0 here in
            let (past, inside) =
              skip_whitespace-bounds bytes (suc colon) (head?-drop-lt colon bytes at) in
            rw here (
              value_step-Advances key colon (skip_whitespace bytes (suc colon)) b':'
                (omega (arith, later, low)) (omega (arith, past)) at
                (unfold is_ascii_whitespace in refl))
        | inr other ↦ rw other refl
      ]

  module _ (decode_key : Bytes → Option Text) where
    member_step-Advances :
        (key_start : ℕ)
        → from ≤ key_start
        → Finishes (Advances bytes from) (member_step decode_key bytes key_start)
    unfolding member_step
    member_step-Advances key_start later =
        Finishes-bind (Between key_start (length bytes)) (Advances bytes from)
          (string_end bytes key_start) _ (string_end-Between bytes key_start)
          (λ key_end h. elim (Option-cases (decode_key (slice key_start key_end bytes))) [
            | inl e ↦ rw e refl
            | inr (key, e) ↦ rw e (colon_step-Advances key key_end (omega (arith, later, h)) h.1)
          ])

    root_step-Advances :
        from ≤ length bytes → Finishes (Advances bytes from) (root_step decode_key bytes from)
    unfolding root_step
    root_step-Advances h =
        let here = skip_whitespace bytes from in
        let (low, high) = skip_whitespace-bounds bytes from h in
        elim (Bool-cases (head? (drop here bytes) == some b'}')) [
          | inl close ↦
              elim (Bool-cases (nat_beq (skip_whitespace bytes (suc here)) (length bytes))) [
                | inl whole ↦ rw (close, whole) tt
                | inr trailing ↦ rw (close, trailing) refl
              ]
          | inr other ↦ rw other (member_step-Advances here low)
        ]

module _ (decode_key : Bytes → Option Text) (bytes : Bytes) where
  root_loop-Finishes :
      (fuel cursor : ℕ)
      → length bytes < fuel + cursor
      → cursor ≤ length bytes
      → Finishes (λ result. Unit) (root_loop decode_key fuel bytes cursor)
  unfolding root_loop
  root_loop-Finishes zero cursor f c = absurd (omega arith)
  root_loop-Finishes (suc fuel) cursor f c =
      elim (Finishes-cases (Advances bytes cursor) (root_step decode_key bytes cursor)
        (root_step-Advances bytes cursor decode_key c)) [
          | inr (e, stop, finished) ↦ rw (stop, root_loop) finished
          | inl (RootStep.root_close close, step, h) ↦ rw (step, root_loop) tt
          | inl (RootStep.entry found next, step, h) ↦
              rw (step, root_loop)
                (Finishes-bind (λ result. Unit) (λ result. Unit)
                  (root_loop decode_key fuel bytes next) _
                  (root_loop-Finishes fuel next (omega (arith, f, h)) h.1) (λ result u. tt))
        ]

  root_entries-Finishes : Finishes (λ result. Unit) (root_entries decode_key bytes)
  unfolding root_entries
  root_entries-Finishes =
      let cursor = skip_whitespace bytes 0 in
      elim (Bool-cases (head? (drop cursor bytes) == some b'{')) [
        | inl brace ↦
            let inside = head?-drop-lt cursor bytes ((option_beq_iff _ _).0 brace) in
            rw brace (
              root_loop-Finishes (suc (length bytes)) (suc cursor) (omega arith)
                (omega (arith, inside)))
        | inr other ↦ rw other refl
      ]

  -- On every text, `root_entries` ends: the length of the text is fuel enough for its loop and for
  -- that over a container's bytes.
  pub root_entries-ends : root_entries decode_key bytes ≢ err unfinished
  root_entries-ends h =
      let finished = subst (Finishes (λ result. Unit)) h root_entries-Finishes in cc finished
