-- ===== src/Storage/Text.antt =====
-- Texts as the storage modules use them: `||` on them, and `toUpperCase`.
use Prim.Native.Char.{Char, code}
use Prim.Native.String.{◌++◌}
use mathlib.Core.Option
use datamaster.Prelude.{
  ◌≡◌, refl, Option, none, some, String, String_discrete, ite, ◌==◌, if_neg, ap, if◌then◌else◌,
}

-- `value || default`: an absent and an empty text give the default.
abbrev pub or_else : Option String → String → String
or_else none default = default
or_else (some t) default = ite (String_discrete t "") default t

-- The character of the second text where the first one has the given one.
counterpart : String → String → Char → Char
counterpart String.[] to c = c
counterpart (String.◌∷◌ a from) String.[] c = c
counterpart (String.◌∷◌ a from) (String.◌∷◌ b to) c =
    let rest = counterpart from to c in if code a == code c then b else rest

-- `toUpperCase`, on ASCII texts.
unfoldable pub to_upper : String → String
unfolding counterpart
to_upper String.[] = String.[]
to_upper (String.◌∷◌ c t) =
    String.◌∷◌ (counterpart "abcdefghijklmnopqrstuvwxyz" "ABCDEFGHIJKLMNOPQRSTUVWXYZ" c)
      (to_upper t)

-- `normalizeVersion`: the suffix of the names of a version's keys.
unfoldable pub normalize_version : Option String → String
normalize_version none = ""
normalize_version (some version) =
    ite (String_discrete version "") ""
      (ite (String_discrete version "v0") "" ("_" ++ to_upper version))

normalize_version_empty :
    normalize_version (some (or_else (some "") "v0")) ≡ normalize_version (some "")
unfolding normalize_version String_discrete
normalize_version_empty = refl

normalize_version_absent :
    normalize_version (some (or_else (some "v0") "v0")) ≡ normalize_version none
unfolding normalize_version String_discrete
normalize_version_absent = refl

-- A version that is recorded, `v0` where there is none, and read back names the same keys.
pub normalize_version-or_else :
    (version : Option String)
    → normalize_version (some (or_else (some (Option.get_or version "v0")) "v0"))
      ≡ normalize_version version
normalize_version-or_else none = normalize_version_absent
normalize_version-or_else (some version) = elim (String_discrete version "") [
  | yes p ↦ rw p normalize_version_empty
  | no p ↦ ap (λ v. normalize_version (some v)) (if_neg (String_discrete version "") p _ _)
]
