-- ===== src/JsonPatch/ScanFinish.antt =====
-- The ends of the scanners' loops (src/mcp/json_patch.rs).
use cc_switch_core.Base.{
  nat_eq, list_eq, option_eq, string_eq, option_beq_iff, ℕ, zero, suc, ◌+◌, ◌≤◌, ◌<◌, ◌≡◌, refl,
  ◌⊎◌, inl, inr, Bool, true, false, not, ◌||◌, some, List, [], ◌∷◌, arith, Result, ok, err, ◌>>=◌,
  ◌==◌, length, Bool-cases, Option-cases, nat_beq,
}
use cc_switch_core.Base.{some-injective}
use cc_switch_core.Base.{drop, take, head?, head?-drop-lt, length-drop, length-take-le}
use cc_switch_core.Text.{Bytes}
use cc_switch_core.JsonPatch.{JsonPatchError}
use cc_switch_core.JsonPatch.Scan.{
  is_ascii_whitespace, skip_from, skip_whitespace, string_end_from, string_end, rposition,
  scalar_from, scalar_end, CompositeStep, composite_step, composite_from, composite_end, value_end,
  pop_closing, ends_scalar, popped,
}

abbrev pub is_unfinished : JsonPatchError → Bool
is_unfinished JsonPatchError.unfinished = true
is_unfinished _ = false

-- The result is not that of a loop without fuel, and if it is a success then this holds of it.
abbrev pub Finishes {ℓ} : {A : Type ℓ} → (A → Type 0) → Result JsonPatchError A → Type 0
Finishes P (ok a) = P a
Finishes P (err e) = is_unfinished e ≡ false

module _ {ℓ μ} {A : Type ℓ} {B : Type μ} where
  pub Finishes-bind :
      (P : A → Type 0) (Q : B → Type 0) (r : Result JsonPatchError A)
      (f : A → Result JsonPatchError B)
      → Finishes P r
      → ((a : A) → P a → Finishes Q (f a))
      → Finishes Q (r >>= f)
  Finishes-bind P Q (ok a) f h k = k a h
  Finishes-bind P Q (err e) f h k = h

module _ {ℓ} {A : Type ℓ} where
  pub Finishes-cases :
      (P : A → Type 0) (r : Result JsonPatchError A)
      → Finishes P r
      → ((a : A) × (r ≡ ok a) × P a)
        ⊎ ((e : JsonPatchError) × (r ≡ err e) × (is_unfinished e ≡ false))
  Finishes-cases P (ok a) h = inl (a, refl, h)
  Finishes-cases P (err e) h = inr (e, refl, h)

-- The end lies between the positions.
abbrev pub Between : ℕ → ℕ → ℕ → Type 0
Between low high end = (low < end) × (end ≤ high)

Finishes-mono :
    (low low' high high' : ℕ) (r : Result JsonPatchError ℕ)
    → low' ≤ low
    → high ≤ high'
    → Finishes (Between low high) r
    → Finishes (Between low' high') r
Finishes-mono low low' high high' (ok end) l h k = omega (arith, l, h, k)
Finishes-mono low low' high high' (err e) l h k = k

string_end_from-Between :
    (rest : Bytes) (skipped : Bool) (cursor : ℕ)
    → Finishes (Between cursor (cursor + length rest)) (string_end_from rest skipped cursor)
unfolding string_end_from
string_end_from-Between [] skipped cursor = refl
string_end_from-Between (b ∷ rest) true cursor =
    Finishes-mono (suc cursor) cursor _ _ (string_end_from rest false (suc cursor)) (omega arith)
      (omega arith) (string_end_from-Between rest false (suc cursor))
string_end_from-Between (b ∷ rest) false cursor = elim (Bool-cases (nat_beq b b'\\')) [
  | inl slash ↦
      rw (slash, string_end_from)
        (Finishes-mono (suc cursor) cursor _ _ (string_end_from rest true (suc cursor))
          (omega arith) (omega arith) (string_end_from-Between rest true (suc cursor)))
  | inr other ↦ elim (Bool-cases (nat_beq b b'"')) [
    | inl quote ↦ rw (other, quote, string_end_from) (omega arith)
    | inr byte ↦
        rw (other, byte, string_end_from)
          (Finishes-mono (suc cursor) cursor _ _ (string_end_from rest false (suc cursor))
            (omega arith) (omega arith) (string_end_from-Between rest false (suc cursor)))
  ]
]

module _ (bytes : Bytes) where
  pub string_end-Between :
      (start : ℕ) → Finishes (Between start (length bytes)) (string_end bytes start)
  unfolding string_end
  string_end-Between start = elim (Bool-cases (head? (drop start bytes) == some b'"')) [
    | inl quote ↦
        let before = head?-drop-lt start bytes ((option_beq_iff _ _).0 quote) in
        rw quote (
          Finishes-mono (suc start) start _ _
            (string_end_from (drop (suc start) bytes) false (suc start)) (omega arith)
            (omega (arith, before, length-drop (suc start) bytes))
            (string_end_from-Between (drop (suc start) bytes) false (suc start)))
    | inr other ↦ rw other refl
  ]

  -- What a round of the loop gives is past its cursor.
  abbrev Advances : ℕ → CompositeStep → Type 0
  Advances cursor (CompositeStep.closed end) = Between cursor (length bytes) end
  Advances cursor (CompositeStep.within stack next) = Between cursor (length bytes) next

  Advances-pop_closing :
      (stack : List ℕ) (cursor : ℕ)
      → cursor < length bytes
      → Advances cursor (pop_closing stack (suc cursor))
  Advances-pop_closing [] cursor h = (omega arith, omega arith)
  Advances-pop_closing (top ∷ stack) cursor h = (omega arith, omega arith)

  composite_step-Advances :
      (stack : List ℕ) (cursor : ℕ) → Finishes (Advances cursor) (composite_step bytes stack cursor)
  unfolding composite_step
  composite_step-Advances stack cursor = elim (Option-cases (head? (drop cursor bytes))) [
    | inl end ↦ rw (end, composite_step) refl
    | inr (byte, e) ↦
        let before = head?-drop-lt cursor bytes e in
        elim (Bool-cases (nat_beq byte b'"')) [
          | inl quote ↦
              rw (e, quote, composite_step)
                (Finishes-bind (Between cursor (length bytes)) (Advances cursor)
                  (string_end bytes cursor) _ (string_end-Between cursor) (λ end h. h))
          | inr t1 ↦ elim (Bool-cases (nat_beq byte b'{')) [
            | inl brace ↦ rw (e, t1, brace, composite_step) (omega (arith, before))
            | inr t2 ↦ elim (Bool-cases (nat_beq byte b'[')) [
              | inl bracket ↦ rw (e, t1, t2, bracket, composite_step) (omega (arith, before))
              | inr t3 ↦ elim (Bool-cases (head? stack == some byte)) [
                | inl top ↦
                    rw (e, t1, t2, t3, top, composite_step)
                      (Advances-pop_closing (popped stack) cursor before)
                | inr t4 ↦ rw (e, t1, t2, t3, t4, composite_step) (omega (arith, before))
              ]
            ]
          ]
        ]
  ]

  composite_from-Between :
      (fuel : ℕ) (stack : List ℕ) (cursor : ℕ)
      → length bytes < fuel + cursor
      → cursor ≤ length bytes
      → Finishes (Between cursor (length bytes)) (composite_from fuel bytes stack cursor)
  unfolding composite_from
  composite_from-Between zero stack cursor f c = absurd (omega arith)
  composite_from-Between (suc fuel) stack cursor f c =
      elim (Finishes-cases (Advances cursor) (composite_step bytes stack cursor)
        (composite_step-Advances stack cursor)) [
          | inr (e, stop, finished) ↦ rw (stop, composite_from) finished
          | inl (CompositeStep.closed end, step, h) ↦ rw (step, composite_from) h
          | inl (CompositeStep.within next_stack next, step, h) ↦
              rw (step, composite_from)
                (Finishes-mono next cursor _ _ (composite_from fuel bytes next_stack next)
                  (omega (arith, h)) (omega arith)
                  (composite_from-Between fuel next_stack next (omega (arith, h, f)) h.1))
        ]

  composite_end-Between :
      (first start : ℕ)
      → start < length bytes
      → Finishes (Between start (length bytes)) (composite_end first bytes start)
  unfolding composite_end
  composite_end-Between first start h =
      Finishes-mono (suc start) start _ _ (composite_end first bytes start) (omega arith)
        (omega arith)
        (composite_from-Between (suc (length bytes)) _ (suc start) (omega arith) (omega (arith, h)))

skip_from-bounds :
    (rest : Bytes) (cursor : ℕ)
    → (cursor ≤ skip_from rest cursor) × (skip_from rest cursor ≤ cursor + length rest)
unfolding skip_from
skip_from-bounds [] cursor = (omega arith, omega arith)
skip_from-bounds (b ∷ rest) cursor = elim (Bool-cases (is_ascii_whitespace b)) [
  | inl blank ↦
      rw blank
        (let (l, h) = skip_from-bounds rest (suc cursor) in (omega (arith, l), omega (arith, h)))
  | inr ink ↦ rw ink (omega arith, omega arith)
]

pub skip_whitespace-bounds :
    (bytes : Bytes) (cursor : ℕ)
    → cursor ≤ length bytes
    → (cursor ≤ skip_whitespace bytes cursor) × (skip_whitespace bytes cursor ≤ length bytes)
unfolding skip_whitespace
skip_whitespace-bounds bytes cursor h =
    let (l, k) = skip_from-bounds (drop cursor bytes) cursor in
    (l, omega (arith, k, length-drop cursor bytes h))

scalar_from-bounds :
    (rest : Bytes) (cursor : ℕ)
    → (cursor ≤ scalar_from rest cursor) × (scalar_from rest cursor ≤ cursor + length rest)
unfolding scalar_from
scalar_from-bounds [] cursor = (omega arith, omega arith)
scalar_from-bounds (b ∷ rest) cursor = elim (Bool-cases (ends_scalar b)) [
  | inl ends ↦ rw ends (omega arith, omega arith)
  | inr goes ↦
      rw goes
        (let (l, h) = scalar_from-bounds rest (suc cursor) in (omega (arith, l), omega (arith, h)))
]

rposition-lt :
    (test : ℕ → Bool) (bytes : Bytes) (i : ℕ) → rposition test bytes ≡ some i → i < length bytes
unfolding rposition
rposition-lt test [] i h = cc
rposition-lt test (x ∷ bytes) i h = elim (Option-cases (rposition test bytes)) [
  | inr (j, e) ↦
      let same = some-injective (rw (e, rposition) at h) in
      omega (arith, same, rposition-lt test bytes j e)
  | inl e ↦ elim (Bool-cases (test x)) [
    | inl t ↦ let same = some-injective (rw (e, t, rposition) at h) in omega (arith, same)
    | inr f ↦ cc (rw (e, f, rposition) at h)
  ]
]

-- A byte that passes the test has the last one at its position or further on, inside of the text.
rposition-bounds :
    (test : ℕ → Bool) (bytes : Bytes) (k cursor b : ℕ)
    → k < cursor
    → head? (drop k bytes) ≡ some b
    → test b ≡ true
    → (i : ℕ) × (rposition test (take cursor bytes) ≡ some i) × (k ≤ i) × (i < length bytes)
unfolding rposition
rposition-bounds test [] zero cursor b lt at t = cc
rposition-bounds test [] (suc k) cursor b lt at t = cc
rposition-bounds test (x ∷ bytes) k zero b lt at t = absurd (omega arith)
rposition-bounds test (x ∷ bytes) (suc k) (suc cursor) b lt at t =
    let (i, e, low, high) = rposition-bounds test bytes k cursor b (omega (arith, lt)) at t in
    (suc i, rw (e, rposition) refl, omega (arith, low), omega (arith, high))
rposition-bounds test (x ∷ bytes) zero (suc cursor) b lt at t =
    elim (Option-cases (rposition test (take cursor bytes))) [
      | inr (i, e) ↦ (
        suc i,
        rw (e, rposition) refl,
        omega arith,
        omega (arith, rposition-lt test (take cursor bytes) i e, length-take-le cursor bytes),
      )
      | inl e ↦
          let passes : test x ≡ true = rw (some-injective at) t in
          (0, rw (e, passes, rposition) refl, omega arith, omega arith)
    ]

module _ (bytes : Bytes) (k start b : ℕ) (before : k < start) (at : head? (drop k bytes) ≡ some b)
    (ink : is_ascii_whitespace b ≡ false) where
  scalar_end-Between :
      start ≤ length bytes → Finishes (Between k (length bytes)) (scalar_end bytes start)
  unfolding scalar_end
  scalar_end-Between h =
      let (low, high) = scalar_from-bounds (drop start bytes) start in
      let (i, e, above, below) =
        rposition-bounds (λ c. not (is_ascii_whitespace c)) bytes k
          (scalar_from (drop start bytes) start) b (omega (arith, before, low)) at (rw ink refl) in
      elim (Bool-cases (nat_beq (suc i) start)) [
        | inl same ↦ rw (e, same) refl
        | inr apart ↦ rw (e, apart) (omega (arith, above), omega (arith, below))
      ]

  -- With something before the value, its end is past that.
  pub value_end-Between : Finishes (Between k (length bytes)) (value_end bytes start)
  unfolding value_end
  value_end-Between = elim (Option-cases (head? (drop start bytes))) [
    | inl end ↦ rw (end, value_end) refl
    | inr (c, e) ↦
        let inside = head?-drop-lt start bytes e in
        elim (Bool-cases (nat_beq c b'"')) [
          | inl quote ↦
              rw (e, quote, value_end)
                (Finishes-mono start k _ _ (string_end bytes start) (omega (arith, before))
                  (omega arith) (string_end-Between bytes start))
          | inr t1 ↦ elim (Bool-cases (nat_beq c b'{' || nat_beq c b'[')) [
            | inl container ↦
                rw (e, t1, container, value_end)
                  (Finishes-mono start k _ _ (composite_end c bytes start) (omega (arith, before))
                    (omega arith) (composite_end-Between bytes c start inside))
            | inr t2 ↦ rw (e, t1, t2, value_end) (scalar_end-Between (omega (arith, inside)))
          ]
        ]
  ]
