-- ===== src/Tests/Filter.antt =====
-- A query with data policies on a masked field, with the mask of the protection tests.
use datamaster.Prelude.{
  ◌≡◌, refl, Bool, false, Option, some, [], ◌∷◌, String, String_discrete, holds, if◌then◌else◌,
}
use datamaster.JsMap
use datamaster.Storage.Encryption.{EncryptType}
use datamaster.Protection.Version.{Value, one, append_version}
use datamaster.Protection.Values.{DataProtection, config_of, get_mask_secret, mask}
use datamaster.Mongo.Filter.{
  plain, only_in, other, Filter, filter, absent, end, branch, done, thrown, unsupported_operator,
  protect_filter_by_paths, protect_paths, protect_path, protect_condition, masked_condition,
}
use datamaster.Mongo.Filter.Meaning.{Stored, matches}
use datamaster.Mongo.Filter.Masks.{IsReady}
use datamaster.Mongo.Filter.Fields.{store}
use datamaster.Mongo.Filter.Matched.{matches-protect_filter_by_paths}
use datamaster.Tests.Protection.{codec, env, mask_policy, v2-IsPlain, mask_secret}

abbrev policy : String → DataProtection EncryptType
policy path = mask_policy

abbrev by_operator : String → Option Value → Bool
by_operator text stored = false

-- { age: …, $or: [{ ssn: "ada" }, { ssn: { $in: ["ben"] } }] }
abbrev asked : Filter
asked =
    filter
      (branch (filter absent absent absent (("ssn", plain (one "ada")) ∷ []))
        (branch (filter absent absent absent (("ssn", only_in (one "ben" ∷ [])) ∷ [])) end))
      absent absent (("name", plain (one "x")) ∷ [])

abbrev asked_of_database : Filter
asked_of_database =
    filter
      (branch (filter absent absent absent (("ssn", plain (one "v2:ada")) ∷ []))
        (branch (filter absent absent absent (("ssn", only_in (one "v2:ben" ∷ [])) ∷ [])) end))
      absent absent (("name", plain (one "x")) ∷ [])

abbrev ben : Stored
ben name = if holds (String_discrete name "ssn") then some (one "ben") else some (one "x")

asked-protected :
    protect_filter_by_paths codec env policy ("ssn" ∷ []) asked ≡ done asked_of_database
unfolding protect_filter_by_paths protect_paths protect_path protect_condition masked_condition mask
    codec append_version config_of get_mask_secret JsMap.get String_discrete
asked-protected = refl

regex_throws :
    protect_filter_by_paths codec env policy
      ("ssn" ∷ [])
      (filter absent absent absent (("ssn", other "$regex") ∷ []))
    ≡ thrown (unsupported_operator "ssn")
unfolding protect_filter_by_paths protect_paths protect_path protect_condition masked_condition
    config_of JsMap.get String_discrete
regex_throws = refl

policy-IsReady : (settings : EncryptType) → IsReady codec env "v2" settings
unfolding codec
policy-IsReady settings = record {
  readable = v2-IsPlain;
  key = "secret";
  key_set = mask_secret;
  texts = λ text h. (text, refl);
  arrays = λ l w e. (l, cc);
}

matches-protect_filter_by_paths_example :
    matches by_operator asked_of_database (store codec env tt policy by_operator ("ssn" ∷ []) ben)
    ≡ matches by_operator asked ben
unfolding String_discrete
matches-protect_filter_by_paths_example =
    matches-protect_filter_by_paths codec env tt policy by_operator ("ssn" ∷ []) ben (tt, tt)
      ((λ settings e. policy-IsReady settings), tt) (("ben", (refl, refl)), tt) asked
      asked_of_database asked-protected
