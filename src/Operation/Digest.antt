-- ===== src/Operation/Digest.antt =====
-- `sha256`, `valid_sha256` and `ContentExpectation` (src/operation.rs). The hash is that of the
-- sha2 crate: the argument `digest` stands for `Sha256::digest`.
use cc_switch_core.Base.{
  nat_eq, list_eq, option_eq, string_eq, list_beq_iff, ℕ, ◌+◌, ◌-◌, ◌*◌, ◌<◌, ◌≡◌, refl, sym, ap,
  ◌∙◌, ◌↔◌, Bool, true, false, not, ◌&&◌, ◌||◌, Option, none, some, [], ◌∷◌, arith, ◌==◌,
  if◌then◌else◌, length, All, leb, nat_beq, all, get_elem?, holds_below_sound, holds_below,
}
use mathlib.Core.Option
use Prim.Native.Nat.{◌/◌, ◌%◌}
use cc_switch_core.Text.{Bytes, codes}

-- `HEX[i]`; no index is out of range.
unfoldable pub hex_digit : ℕ → ℕ
hex_digit i = elim (get_elem? (codes "0123456789abcdef") i) [ none ↦ 0 | some c ↦ c ]

unfoldable pub encode : Bytes → Bytes
unfolding hex_digit
encode [] = []
encode (byte ∷ bytes) = hex_digit (byte / 16) ∷ hex_digit (byte % 16) ∷ encode bytes

unfoldable pub sha256 : (Bytes → Bytes) → Bytes → Bytes
sha256 digest contents = encode (digest contents)

unfoldable pub is_ascii_hexdigit : ℕ → Bool
is_ascii_hexdigit b =
    (leb b'0' b && leb b b'9') || (leb b'a' b && leb b b'f') || (leb b'A' b && leb b b'F')

unfoldable pub is_ascii_uppercase : ℕ → Bool
is_ascii_uppercase b = leb b'A' b && leb b b'Z'

unfoldable pub valid_sha256 : Bytes → Bool
unfolding is_ascii_hexdigit is_ascii_uppercase
valid_sha256 digest =
    nat_beq (length digest) 64
    && all (λ byte. is_ascii_hexdigit byte && not (is_ascii_uppercase byte)) digest

pub data ContentExpectation : Type 0 where
  missing : ContentExpectation
  sha256_digest : Bytes → ContentExpectation

-- `ContentExpectation::for_contents`
unfoldable pub for_contents : (Bytes → Bytes) → Option Bytes → ContentExpectation
for_contents digest (some contents) = sha256_digest (sha256 digest contents)
for_contents digest none = missing

-- `ContentExpectation::matches`
unfoldable pub matches : (Bytes → Bytes) → ContentExpectation → Option Bytes → Bool
matches digest missing none = true
matches digest (sha256_digest expected) (some contents) = expected == sha256 digest contents
matches digest _ _ = false

-- What the crate documents of SHA-256: 32 bytes, each below 256.
pub record IsDigest (digest : Bytes → Bytes) : Type 0 where
  pub size : (contents : Bytes) → length (digest contents) ≡ 32
  pub bytes : (contents : Bytes) → All (λ b. b < 256) (digest contents)

hex_index : ℕ → ℕ
hex_index c = if leb c b'9' then c - b'0' else c - b'a' + 10

is_lower_hex : ℕ → Bool
unfolding is_ascii_hexdigit is_ascii_uppercase
is_lower_hex c = is_ascii_hexdigit c && not (is_ascii_uppercase c)

-- The sixteen digits are told apart, and are lower-case hexadecimal.
hex_digit_table :
    holds_below 16 (λ i. nat_beq (hex_index (hex_digit i)) i && is_lower_hex (hex_digit i)) ≡ true
unfolding holds_below hex_digit hex_index is_lower_hex
hex_digit_table = refl

hex_digit_facts :
    (i : ℕ) → i < 16 → (hex_index (hex_digit i) ≡ i) × (is_lower_hex (hex_digit i) ≡ true)
hex_digit_facts i h =
    let found = holds_below_sound 16 _ i hex_digit_table h in
    (ground (arith, found), ground (arith, found))

hex_digit-injective : (i j : ℕ) → i < 16 → j < 16 → hex_digit i ≡ hex_digit j → i ≡ j
hex_digit-injective i j h k e =
    sym (hex_digit_facts i h).0 ∙ ap hex_index e ∙ (hex_digit_facts j k).0

length-encode : (bs : Bytes) → length (encode bs) ≡ 2 * length bs
unfolding encode
length-encode [] = omega arith
length-encode (b ∷ bs) = omega (arith, length-encode bs)

encode-lower_hex : (bs : Bytes) → All (λ b. b < 256) bs → all is_lower_hex (encode bs) ≡ true
unfolding encode
encode-lower_hex [] h = refl
encode-lower_hex (b ∷ bs) h =
    let rest = encode-lower_hex bs h.1 in
    let high = (hex_digit_facts (b / 16) (omega arith)).1 in
    let low = (hex_digit_facts (b % 16) (omega arith)).1 in rw (high, low) rest

encode-injective :
    (xs bs : Bytes)
    → All (λ b. b < 256) xs
    → All (λ b. b < 256) bs
    → encode xs ≡ encode bs
    → xs ≡ bs
unfolding encode
encode-injective [] [] h k e = refl
encode-injective [] (b ∷ bs) h k e = cc
encode-injective (a ∷ xs) [] h k e = cc
encode-injective (a ∷ xs) (b ∷ bs) h k e =
    let high = hex_digit-injective (a / 16) (b / 16) (omega arith) (omega arith) (ground arith) in
    let low = hex_digit-injective (a % 16) (b % 16) (omega arith) (omega arith) (ground arith) in
    let head : a ≡ b = omega arith in
    let rest = encode-injective xs bs h.1 k.1 (ground arith) in ground arith

-- The digest that `sha256` writes is well formed.
valid_sha256-sha256 :
    (digest : Bytes → Bytes) (contents : Bytes)
    → IsDigest digest
    → valid_sha256 (sha256 digest contents) ≡ true
unfolding valid_sha256 sha256
valid_sha256-sha256 digest contents d =
    let size = length-encode (digest contents) in
    let bytes = encode-lower_hex (digest contents) (d.bytes contents) in
    rw (size, d.size contents) (unfold is_lower_hex in bytes)

-- An expectation built from one observation is met by another exactly when both are missing, or
-- both are present and have the same SHA-256 hash.
pub matches-for_contents :
    (digest : Bytes → Bytes) (a b : Option Bytes)
    → IsDigest digest
    → (matches digest (for_contents digest a) b ≡ true)
      ↔ (Option.map digest a ≡ Option.map digest b)
unfolding matches for_contents
matches-for_contents digest none none d = ground arith
matches-for_contents digest none (some b) d = ground arith
matches-for_contents digest (some a) none d = ground arith
matches-for_contents digest (some a) (some b) d =
    let same = list_beq_iff (sha256 digest a) (sha256 digest b) in
    (
      λ h. ap some (
          encode-injective (digest a) (digest b) (d.bytes a) (d.bytes b)
            (unfold sha256 in same.0 h)),
      λ e. same.1 (unfold sha256 in ap encode (ground arith)),
    )
