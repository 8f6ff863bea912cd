-- ===== src/Protection/Version.antt =====
-- utils/protection.ts: the version in front of a protected value.
use Prim.Native.Char.{Char, code}
use Prim.Native.String.{◌++◌}
use text.Mathlib.TextLemmas.{nil-append, cons-append, append_assoc}
use datamaster.Prelude.{
  ◌≡◌, ◌≢◌, refl, ap, ◌∙◌, Bool, true, false, Option, none, some, List, [], ◌∷◌, String,
  String_discrete, ite, if_neg, ◌==◌, if◌then◌else◌, Bool-cases, Option-cases, inl, inr,
}

-- `string | string[]`
pub data Value : Type 0 where
  one : String → Value
  many : List String → Value

-- `${version}:`, or nothing for an absent or empty version.
abbrev pub version_prefix : Option String → String
version_prefix none = ""
version_prefix (some version) = ite (String_discrete version "") "" (version ++ ":")

-- `appendVersion`: only the first element gets the version. That of an empty array is `undefined`.
unfoldable pub append_version : Value → Option String → Value
append_version (one message) version = one (version_prefix version ++ message)
append_version (many []) version = many ((version_prefix version ++ "undefined") ∷ [])
append_version (many (message ∷ messages)) version =
    many ((version_prefix version ++ message) ∷ messages)

-- `indexOf(':')` with the texts before and after it; `none` is -1.
unfoldable pub split_version : String → Option (String × String)
split_version String.[] = none
split_version (String.◌∷◌ c text) =
    let rest = split_version text in
    if code c == b':'
    then some (String.[], text)
    else elim rest [ none ↦ none | some (version, message) ↦ some (String.◌∷◌ c version, message) ]

-- `extractVersion`: `none` is the error of an empty array.
unfoldable pub extract_version : Value → Option (Value × String)
extract_version (one text) = elim (split_version text) [
  | none ↦ some (one text, "v0")
  | some (version, message) ↦ some (one message, version)
]
extract_version (many []) = none
extract_version (many (text ∷ texts)) = elim (split_version text) [
  | none ↦ some (many (text ∷ texts), "v0")
  | some (version, message) ↦ some (many (message ∷ texts), version)
]

colon-append : (message : String) → ":" ++ message ≡ String.◌∷◌ ":" message
colon-append message = cons-append ":" String.[] message ∙ ap (String.◌∷◌ ":") (nil-append message)

split_version-colon :
    (message : String) → split_version (String.◌∷◌ ":" message) ≡ some (String.[], message)
unfolding split_version
split_version-colon message = refl

split_version_step :
    (c : Char) (text version message : String)
    → (code c == b':') ≡ false
    → split_version text ≡ some (version, message)
    → split_version (String.◌∷◌ c text) ≡ some (String.◌∷◌ c version, message)
unfolding split_version
split_version_step c text version message other e = rw (other, e) refl

split_version-none :
    (c : Char) (text : String)
    → split_version (String.◌∷◌ c text) ≡ none
    → ((code c == b':') ≡ false) × (split_version text ≡ none)
unfolding split_version
split_version-none c text e = elim (Bool-cases (code c == b':')) [
  | inl same ↦ let e' = (rw same at e) in absurd (cc)
  | inr other ↦ elim (Option-cases (split_version text)) [
    | inl nothing ↦ (other, nothing)
    | inr (r, something) ↦ let e' = (rw (other, something) at e) in absurd (cc)
  ]
]

-- The first colon ends the version.
split_version-append :
    (version message : String)
    → split_version version ≡ none
    → split_version (version ++ (":" ++ message)) ≡ some (version, message)
split_version-append String.[] message h =
    ap split_version (nil-append (":" ++ message) ∙ colon-append message)
    ∙ split_version-colon message
split_version-append (String.◌∷◌ c version) message h =
    let (other, rest) = split_version-none c version h in
    ap split_version (cons-append c version (":" ++ message))
    ∙ split_version_step c (version ++ (":" ++ message)) version message other
        (split_version-append version message rest)

pub prefixed :
    (version message : String)
    → version ≢ ""
    → version_prefix (some version) ++ message ≡ version ++ (":" ++ message)
prefixed version message ne =
    ap (λ p. p ++ message) (if_neg (String_discrete version "") ne "" (version ++ ":"))
    ∙ append_assoc version ":" message

-- There is something to protect: `input[0]` is neither absent nor empty.
abbrev pub is_filled : Value → Bool
is_filled (one text) = ite (String_discrete text "") false true
is_filled (many []) = false
is_filled (many (text ∷ texts)) = ite (String_discrete text "") false true

-- What `appendVersion` puts in front of a value that is no empty array, `extractVersion` takes off
-- again and returns as the version, for a version that is not empty and has no colon.
pub extract_version-append_version :
    (value : Value) (version : String)
    → version ≢ ""
    → split_version version ≡ none
    → value ≢ many []
    → extract_version (append_version value (some version)) ≡ some (value, version)
unfolding extract_version append_version
extract_version-append_version (one message) version ne plain filled =
    let split =
      ap split_version (prefixed version message ne) ∙ split_version-append version message plain in
    rw (split, extract_version) refl
extract_version-append_version (many []) version ne plain filled = absurd (filled refl)
extract_version-append_version (many (message ∷ messages)) version ne plain filled =
    let split =
      ap split_version (prefixed version message ne) ∙ split_version-append version message plain in
    rw (split, extract_version) refl
