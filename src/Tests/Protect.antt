-- ===== src/Tests/Protect.antt =====
-- Documents with protected paths: a walk to nested values, and saves.
use datamaster.Prelude.{
  ◌≡◌, refl, true, false, Option, some, [], ◌∷◌, String, String_discrete, inl, inr, Bool-cases,
  text_ne, if◌then◌else◌,
}
use datamaster.JsMap
use datamaster.Storage.Encryption.{EncryptType}
use datamaster.Protection.Version.{one}
use datamaster.Protection.Values.{DataProtection, config_of, mask, is_given, data_protection_setter}
use datamaster.Mongo.Shallow.{
  Json, null, leaf, object, end, field, is_star, split_dots, without_last_star, keys_of, on_field,
  on_each, traverse, transform_shallow_by_paths,
}
use datamaster.Mongo.Shallow.Values.{values_of, values_of_each, values_at, map_given, Apart}
use datamaster.Mongo.Shallow.Values.Effect.{values_at-transform_shallow_by_paths}
use datamaster.Mongo.Protect.{
  Document, get_path, is_protection_unchanged, is_wildcard_path, any_star, protect_value, throws,
  pre_save,
}
use datamaster.Mongo.Protect.Save.{values_at-pre_save}
use datamaster.Tests.Protection.{codec, env, mask_policy}

abbrev text : String → Json
text t = leaf (one t)

-- { name, contact: { email, phone }, cards: [{ pin }, { pin }] }
abbrev person : String → Json
person email = object (
    field "name" (text "ada") (
      field "contact" (object (field "email" (text email) (field "phone" (text "1") end))) (
        field "cards"
          (object (
            field "0" (object (field "pin" (text "7") end))
              (field "1" (object (field "pin" (text "8") end)) end)))
          end)))

abbrev starred : String → Json → Option Json
starred path v = some (text "*")

pins_starred :
    values_at
      ("cards" ∷ "*" ∷ "pin" ∷ [])
      (transform_shallow_by_paths starred ("contact.email" ∷ "cards.*.pin" ∷ []) (person "a"))
    ≡ text "*" ∷ text "*" ∷ []
unfolding values_at values_of values_of_each transform_shallow_by_paths traverse keys_of split_dots
    without_last_star is_star on_field on_each String_discrete
pins_starred = refl

-- A payload with the path as one name is not protected.
dotted_name_kept :
    transform_shallow_by_paths starred
      ("contact.email" ∷ [])
      (object (field "contact.email" (text "a") end))
    ≡ object (field "contact.email" (text "a") end)
unfolding transform_shallow_by_paths traverse keys_of split_dots without_last_star is_star on_field
    String_discrete
dotted_name_kept = refl

email_pin : Apart (keys_of "contact.email") (keys_of "cards.*.pin")
unfolding keys_of split_dots without_last_star is_star String_discrete
email_pin = inl (refl, (refl, text_ne "contact" "cards" refl))

pub name_email : Apart ("name" ∷ []) (keys_of "contact.email")
unfolding keys_of split_dots without_last_star is_star String_discrete
name_email = inl (refl, (refl, text_ne "name" "contact" refl))

name_pin : Apart ("name" ∷ []) (keys_of "cards.*.pin")
unfolding keys_of split_dots without_last_star is_star String_discrete
name_pin = inl (refl, (refl, text_ne "name" "cards" refl))

values_at-transform_shallow_by_paths_example :
    (values_at
        (keys_of "contact.email")
        (transform_shallow_by_paths starred ("contact.email" ∷ "cards.*.pin" ∷ []) (person "a"))
      ≡ map_given (starred "contact.email") (values_at (keys_of "contact.email") (person "a")))
    × (values_at
          ("name" ∷ [])
          (transform_shallow_by_paths starred ("contact.email" ∷ "cards.*.pin" ∷ []) (person "a"))
        ≡ values_at ("name" ∷ []) (person "a"))
unfolding keys_of split_dots without_last_star is_star String_discrete
values_at-transform_shallow_by_paths_example =
    values_at-transform_shallow_by_paths starred [] ("cards.*.pin" ∷ []) "contact.email"
      ("name" ∷ []) (person "a") refl (email_pin, tt) (name_email, (name_pin, tt))

abbrev pub policy : String → DataProtection EncryptType
policy path = mask_policy

-- A document that was read, with another address than then.
abbrev edited : Document
edited = record {
  is_new = false;
  content = person "b@x";
  is_modified = λ path. true;
  snapshot = some (λ path. get_path path (person "v2:a@x"));
}

pub policy-configured : (path : String) (v : Json) → throws codec env tt policy path v ≡ false
unfolding throws data_protection_setter config_of JsMap.get String_discrete mask
policy-configured path null = refl
policy-configured path (leaf v) = elim (Bool-cases (is_given v)) [
  | inl e ↦ rw e refl
  | inr e ↦ rw e refl
]
policy-configured path (object fields) = refl

not_wildcard : is_wildcard_path "contact.email" ≡ false
unfolding is_wildcard_path any_star split_dots is_star String_discrete
not_wildcard = refl

values_at-pre_save_example :
    (content : Json) × ((pre_save codec env tt policy true ("contact.email" ∷ []) edited
        ≡ some (record edited { content = content }))
      × ((values_at (keys_of "contact.email") content ≡ (
            if is_protection_unchanged
              (get_path "contact.email" edited.content)
              (get_path "contact.email" (person "v2:a@x"))
            then values_at (keys_of "contact.email") edited.content
            else map_given
                (protect_value codec env tt policy "contact.email")
                (values_at (keys_of "contact.email") edited.content)))
          × (values_at ("name" ∷ []) content ≡ values_at ("name" ∷ []) edited.content)))
unfolding keys_of split_dots without_last_star is_star String_discrete
values_at-pre_save_example =
    values_at-pre_save codec env tt policy policy-configured (person "v2:a@x") edited refl refl []
      [] "contact.email" ("name" ∷ []) not_wildcard (λ e. cc) refl tt (name_email, tt)
