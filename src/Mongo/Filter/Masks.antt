-- ===== src/Mongo/Filter/Masks.antt =====
-- Masked values are equal exactly if the plain ones are.
use Prim.Native.String.{◌++◌}
use datamaster.Prelude.{
  ◌≡◌, ◌≢◌, refl, sym, ap, ◌∙◌, true, false, Option, some, List, [], ◌∷◌, map, String,
  String_discrete, if_pos, if_neg, holds, Bool-cases, Option-cases, inl, inr,
}
use datamaster.Storage.Encryption.{Env}
use datamaster.Protection.Version.{
  Value, one, many, append_version, is_filled, extract_version, extract_version-append_version,
  prefixed,
}
use datamaster.Protection.Values.{Codec, get_mask_secret, mask}
use datamaster.Protection.RoundTrip.{IsPlain, mask_step, append-nonempty}
use datamaster.Mongo.Filter.Meaning.{equals, is_one_of}

append_version-many :
    (m : List String) (version : String)
    → (m' : List String) × (append_version (many m) (some version) ≡ many m')
unfolding append_version
append_version-many [] version = (_, refl)
append_version-many (x ∷ m) version = (_, refl)

append_version-injective :
    (m n version : String)
    → IsPlain version
    → append_version (one m) (some version) ≡ append_version (one n) (some version)
    → m ≡ n
append_version-injective m n version p e =
    let read = λ (text : String).
      extract_version-append_version (one text) version p.nonempty p.no_colon (λ is. absurd (cc)) in
    let same : ◌≡◌ {A = Option (Value × String)} (some (one m, version)) (some (one n, version)) =
      sym (read m) ∙ ap extract_version e ∙ read n in
    cc

text_of : Value → String
text_of (one text) = text
text_of (many texts) = ""

empty_text : (t : String) → is_filled (one t) ≡ false → t ≡ ""
empty_text t h = elim (String_discrete t "") [
  | yes p ↦ p
  | no p ↦ let h' = sym (if_neg (String_discrete t "") p false true) ∙ h in absurd (cc)
]

filled_nonempty : (t : String) → is_filled (one t) ≡ true → t ≢ ""
filled_nonempty t h p = let h' = sym (if_pos (String_discrete t "") p false true) ∙ h in cc

-- A masked text, as a text.
appended : String → String → String
unfolding append_version
appended m version = text_of (append_version (one m) (some version))

append_version-appended :
    (m version : String) → append_version (one m) (some version) ≡ one (appended m version)
unfolding append_version text_of appended
append_version-appended m version = refl

appended-nonempty : (m version : String) → version ≢ "" → appended m version ≢ ""
unfolding append_version text_of appended
appended-nonempty m version ne e =
    append-nonempty version (":" ++ m) ne (sym (prefixed version m ne) ∙ e)

holds_iff : {P Q : Type 0} (d : Dec P) (e : Dec Q) → (P → Q) → (Q → P) → holds d ≡ holds e
holds_iff (yes p) (yes q) f g = refl
holds_iff (yes p) (no n) f g = absurd (n (f p))
holds_iff (no n) (yes q) f g = absurd (n (g q))
holds_iff (no n) (no m) f g = refl

module _ {S Seed : Type 0} (c : Codec S Seed) (env : Env) where
  -- The active version can be read back, its key is set, and masking keeps texts texts and arrays
  -- arrays.
  pub record IsReady (version : String) (settings : S) : Type 0 where
    pub readable : IsPlain version
    pub key : String
    pub key_set : get_mask_secret env (some version) ≡ some key
    pub texts :
        (text : String)
        → is_filled (one text) ≡ true
        → (masked_text : String) × (c.base_mask (one text) key settings ≡ some (one masked_text))
    pub arrays :
        (l : List String) (w : Value)
        → c.base_mask (many l) key settings ≡ some w
        → (m : List String) × (w ≡ many m)

  module _ (version : String) (settings : S) (ready : IsReady version settings) where
    masked_text :
        (text : String)
        → is_filled (one text) ≡ true
        → (m : String) × ((mask c env (one text) settings (some version)
              ≡ append_version (one m) (some version))
            × (c.base_mask (one text) ready.key settings ≡ some (one m)))
    masked_text text h =
        let (m, e) = ready.texts text h in
        (
          m,
          (
            mask_step c env (one text) (one m) settings (some version) ready.key h ready.key_set e,
            e,
          ),
        )

    masked_empty :
        (text : String)
        → is_filled (one text) ≡ false
        → mask c env (one text) settings (some version) ≡ one text
    unfolding mask
    masked_empty text h = rw h refl

    masked_many :
        (l : List String)
        → (m : List String) × (mask c env (many l) settings (some version) ≡ many m)
    unfolding mask append_version
    masked_many l = elim (Bool-cases (is_filled (many l))) [
      | inl h ↦ elim (Option-cases (c.base_mask (many l) ready.key settings)) [
        | inl e ↦ (l, rw (h, ready.key_set, e) refl)
        | inr (w, e) ↦
            let (m, is) = ready.arrays l w e in
            let (m', appended) = append_version-many m version in
            (
              m',
              mask_step c env (many l) w settings (some version) ready.key h ready.key_set e
                  ∙ ap (λ v. append_version v (some version)) is
                  ∙ appended,
            )
      ]
      | inr h ↦ (l, rw h refl)
    ]

    -- A filled text and another one.
    masked-injective :
        (s t : String)
        → is_filled (one s) ≡ true
        → is_filled (one t) ≡ true
        → mask c env (one s) settings (some version) ≡ mask c env (one t) settings (some version)
        → s ≡ t
    masked-injective s t h k e =
        let (m, (is, from)) = masked_text s h in
        let (n, (is', from')) = masked_text t k in
        let same : m ≡ n = append_version-injective m n version ready.readable (sym is ∙ e ∙ is') in
        let back = c.mask_lem (one s) (one m) ready.key settings from in
        let back' = c.mask_lem (one t) (one n) ready.key settings from' in cc

    pub equals-masked :
        (s : String) (asked : Value)
        → is_filled (one s) ≡ true
        → equals
            (mask c env (one s) settings (some version))
            (mask c env asked settings (some version))
          ≡ equals (one s) asked
    unfolding text_of appended
    equals-masked s (many l) h =
        let (m, (is, from)) = masked_text s h in
        let (m', is') = masked_many l in rw (is ∙ append_version-appended m version, is') refl
    equals-masked s (one t) h =
        let (m, (is, from)) = masked_text s h in
        let at = is ∙ append_version-appended m version in
        elim (Bool-cases (is_filled (one t))) [
          | inl k ↦
              let (n, (is', from')) = masked_text t k in
              let at' = is' ∙ append_version-appended n version in
              rw (at, at')
                (holds_iff (String_discrete _ _) (String_discrete s t)
                  (λ e. masked-injective s t h k (at ∙ ap one e ∙ sym at'))
                  (λ e.
                    ap text_of
                      (sym at ∙ ap (λ x. mask c env (one x) settings (some version)) e ∙ at')))
          | inr k ↦
              let empty = empty_text t k in
              rw (at, masked_empty t k)
                (holds_iff (String_discrete _ _) (String_discrete s t)
                  (λ e. absurd (appended-nonempty m version ready.readable.nonempty (e ∙ empty)))
                  (λ e. absurd (filled_nonempty s h (e ∙ empty))))
        ]

    pub is_one_of-masked :
        (s : String) (entries : List Value)
        → is_filled (one s) ≡ true
        → is_one_of
            (mask c env (one s) settings (some version))
            (map (λ entry. mask c env entry settings (some version)) entries)
          ≡ is_one_of (one s) entries
    is_one_of-masked s [] h = refl
    is_one_of-masked s (entry ∷ entries) h =
        rw (equals-masked s entry h, is_one_of-masked s entries h) refl
