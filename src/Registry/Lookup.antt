-- ===== src/Registry/Lookup.antt =====
-- What `find` and `from_str` accept (src/registry.rs, src/app_type.rs).
use cc_switch_core.Base.{
  nat_eq, list_eq, option_eq, string_eq, list_beq_iff, ◌≡◌, refl, sym, ap, subst, ◌∙◌, inl, inr,
  Bool, true, Option, none, some, List, [], ◌∷◌, ◌++◌, map, append-nil, arith, ok, ◌==◌, All,
  Bool-cases, all, contains, get_elem?, find,
}
use cc_switch_core.Text.{Text, trim, to_lowercase, ascii_lower}
use cc_switch_core.Text.Laws.{
  Plain, Blank, all-Plain, Plain-of_lower, plain, trim_pad, to_lowercase-Plain,
  map-ascii_lower_idem,
}
use cc_switch_core.App.{
  AppType, app_index, claude, claude_desktop, codex, gemini, grok_build, open_code, open_claw,
  hermes, pi,
}
use cc_switch_core.Registry.Catalog.{
  AppDescriptor, builtin_app_integrations, builtin_app_integration, descriptor_for, descriptors,
  matches_id, find_descriptor, from_str, or_unsupported,
}

-- Every application has its own entry in the integration table, so the indexing never panics.
pub integration_in_bounds :
    (app : AppType)
    → (get_elem? builtin_app_integrations (app_index app) ≡ some (builtin_app_integration app))
      × ((descriptor_for app).app ≡ app)
unfolding builtin_app_integration descriptor_for app_index
integration_in_bounds claude = (refl, refl)
integration_in_bounds _ = (refl, refl)

abbrev search_by : Text → Option AppDescriptor
search_by name = find (λ descriptor. matches_id descriptor name) descriptors

-- The names of a descriptor, in the order in which they are tried.
abbrev pub names : AppDescriptor → List Text
names descriptor = descriptor.id ∷ descriptor.aliases

names_of_matches :
    (d : AppDescriptor) (n : Text) → matches_id d n ≡ true → contains (names d) n ≡ true
unfolding matches_id
names_of_matches d n h = h

-- A property of each member holds of what is found in the list.
All-contains : (P : Text → Type 0) (l : List Text) (n : Text) → contains l n ≡ true → All P l → P n
All-contains P [] n h a = cc
All-contains P (x ∷ l) n h a = elim (Bool-cases (x == n)) [
  | inl e ↦ subst P ((list_beq_iff x n).0 e) a.0
  | inr e ↦ All-contains P l n (ground (arith, e)) a.1
]

-- No name is shared: each one is found at its own application.
search_names :
    (app : AppType)
    → All (λ n. search_by n ≡ some (descriptor_for app)) (names (descriptor_for app))
unfolding matches_id descriptor_for
search_names claude = (refl, tt)
search_names claude_desktop = (refl, (refl, (refl, tt)))
search_names grok_build = (refl, (refl, (refl, (refl, tt))))
search_names codex = (refl, tt)
search_names gemini = (refl, tt)
search_names open_code = (refl, tt)
search_names open_claw = (refl, tt)
search_names hermes = (refl, tt)
search_names pi = (refl, tt)

all-names_Plain : (l : List Text) → all (all plain) l ≡ true → All Plain l
all-names_Plain [] h = tt
all-names_Plain (n ∷ l) h = (all-Plain n (ground arith), all-names_Plain l (ground arith))

plain-names : (app : AppType) → all (all plain) (names (descriptor_for app)) ≡ true
unfolding descriptor_for plain
plain-names claude = refl
plain-names _ = refl

names-Plain : (app : AppType) → All Plain (names (descriptor_for app))
names-Plain app = all-names_Plain (names (descriptor_for app)) (plain-names app)

trim-Plain : (n : Text) → Plain n → trim n ≡ n
trim-Plain n h = ap trim (sym (append-nil n)) ∙ trim_pad [] n [] tt h tt

-- Normalizing takes a padded text in any case to its lower case.
normalize_pad :
    (unicode : Text → Text) (before v after : Text)
    → Blank before
    → Blank after
    → Plain (map ascii_lower v)
    → to_lowercase unicode (trim (before ++ (v ++ after))) ≡ map ascii_lower v
normalize_pad unicode before v after b a h =
    ap (to_lowercase unicode) (trim_pad before v after b (Plain-of_lower v h) a)
    ∙ to_lowercase-Plain unicode v (Plain-of_lower v h)

normalize_lower :
    (unicode : Text → Text) (v : Text)
    → Plain (map ascii_lower v)
    → to_lowercase unicode (trim (map ascii_lower v)) ≡ map ascii_lower v
normalize_lower unicode v h =
    ap (to_lowercase unicode) (trim-Plain (map ascii_lower v) h)
    ∙ (to_lowercase-Plain unicode (map ascii_lower v) h ∙ map-ascii_lower_idem v)

find_normal :
    (unicode : Text → Text) (id name : Text)
    → to_lowercase unicode (trim id) ≡ name
    → find_descriptor unicode id ≡ search_by name
unfolding find_descriptor
find_normal unicode id name h = ap search_by h

-- A text that is an identifier or alias of an application but for the case of its ASCII letters
-- and for blank text around it parses as that application, whatever Unicode's tables say.
pub from_str-names :
    (unicode : Text → Text) (app : AppType) (before v after : Text)
    → Blank before
    → Blank after
    → contains (names (descriptor_for app)) (map ascii_lower v) ≡ true
    → from_str unicode (before ++ (v ++ after)) ≡ ok app
unfolding from_str
from_str-names unicode app before v after b a h =
    let plain_name = All-contains Plain (names (descriptor_for app)) _ h (names-Plain app) in
    let normal = normalize_pad unicode before v after b a plain_name in
    let found : find_descriptor unicode (to_lowercase unicode (trim (before ++ (v ++ after))))
        ≡ some (descriptor_for app) =
      find_normal unicode _ _
        (ap (λ t. to_lowercase unicode (trim t)) normal ∙ normalize_lower unicode v plain_name)
      ∙ All-contains (λ n. search_by n ≡ some (descriptor_for app)) (names (descriptor_for app))
          (map ascii_lower v) h (search_names app) in
    ap (or_unsupported _) found ∙ ap ok (integration_in_bounds app).1

-- A descriptor of the table is the one of its own application.
abbrev pub IsEntry : AppDescriptor → Type 0
IsEntry d = d ≡ descriptor_for d.app

pub descriptors-IsEntry : All IsEntry descriptors
unfolding descriptor_for
descriptors-IsEntry = (refl, (refl, (refl, (refl, (refl, (refl, (refl, (refl, (refl, tt)))))))))

-- What `find` returns is a member that passes the test.
pub find_sound :
    (P : AppDescriptor → Type 0) (p : AppDescriptor → Bool) (l : List AppDescriptor)
    → All P l
    → (d : AppDescriptor) → find p l ≡ some d
    → (p d ≡ true) × P d
find_sound P p [] a d h = cc
find_sound P p (x ∷ l) a d h = elim (Bool-cases (p x)) [
  | inl e ↦ let same : x ≡ d = ground (arith, e, h) in (rw (← same) e, subst P same a.0)
  | inr e ↦ find_sound P p l a.1 d (ground (arith, e, h))
]

or_unsupported-eq-ok :
    (n : Text) (o : Option AppDescriptor) (app : AppType)
    → or_unsupported n o ≡ ok app
    → (d : AppDescriptor) × (o ≡ some d) × (d.app ≡ app)
or_unsupported-eq-ok n none app h = cc
or_unsupported-eq-ok n (some d) app h = (d, refl, cc)

find_descriptor_sound :
    (unicode : Text → Text) (id : Text) (d : AppDescriptor)
    → find_descriptor unicode id ≡ some d
    → contains (names (descriptor_for d.app)) (to_lowercase unicode (trim id)) ≡ true
unfolding find_descriptor
find_descriptor_sound unicode id d h =
    let (passes, entry) =
      find_sound IsEntry (λ x. matches_id x (to_lowercase unicode (trim id))) descriptors
        descriptors-IsEntry d h in
    subst (λ e. contains (names e) (to_lowercase unicode (trim id)) ≡ true) entry
      (names_of_matches d _ passes)

-- A text parses as an application only if its normal form is a name of that application.
pub from_str_sound :
    (unicode : Text → Text) (value : Text) (app : AppType)
    → from_str unicode value ≡ ok app
    → contains
        (names (descriptor_for app))
        (to_lowercase unicode (trim (to_lowercase unicode (trim value))))
      ≡ true
unfolding from_str
from_str_sound unicode value app h =
    let normalized = to_lowercase unicode (trim value) in
    let (d, found, same) =
      or_unsupported-eq-ok normalized (find_descriptor unicode normalized) app h in
    subst (λ a. contains (names (descriptor_for a)) (to_lowercase unicode (trim normalized)) ≡ true)
      same (find_descriptor_sound unicode normalized d found)
