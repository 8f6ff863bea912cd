-- ===== src/Storage/Rotation/Retire.antt =====
-- rotation-core.ts: when the check says that the old keys can go.
use mathlib.Core.Option
use mathlib.Core.List.{flatten}
use mathlib.Core.Path.{subst}
use datamaster.Prelude.{
  ℕ, ◌≤◌, ◌≡◌, inl, inr, refl, sym, ap, ◌∙◌, true, false, Option, none, some, List, [], ◌∷◌, String,
  length, if_pos, String_discrete, All, Option-cases,
}
use datamaster.JsMap
use datamaster.Storage.Encryption.{Helpers, EncryptSettings, Env, Result, ok, recorded_version}
use datamaster.Storage.Encryption.Written.{Result-cases}
use datamaster.Storage.Bucket.{Bucket}
use datamaster.Storage.Connector.{ObjectMetadata, get_metadata, metadata_of}
use datamaster.Storage.Rotation.{
  count_object, count_version, Totals, no_totals, rotate_keys, run_rotate, run_check, check_keys,
  Page, Status, no_objects, safe_to_retire_old_keys, require_active_version,
}
use datamaster.Storage.Rotation.Walk.{Serves, run_rotate-rotate_keys, run_check-check_keys}
use datamaster.Storage.Rotation.Stored.{get_metadata-objects}
use datamaster.Storage.Rotation.Settled.{IsSettled}
use datamaster.Storage.Rotation.Complete.{rotate_keys-IsSettled}

-- Nothing was counted that needs an old version.
abbrev IsClear : Status → Type 0
IsClear t = (t.versions_still_in_use ≡ []) × (t.unencrypted ≡ 0)

count_version-active :
    (active : String) (version : Option String) (t : Status)
    → version ≡ some active
    → IsClear t
    → IsClear (count_version active version t)
unfolding count_version
count_version-active active none t e clear = absurd (cc)
count_version-active active (some v) t e clear =
    subst IsClear (sym (if_pos (String_discrete v active) (cc) _ _)) clear

ok_same : {A : Type 0} {a a' : A} → ok a ≡ ok a' → a ≡ a'
ok_same e = cc

run_same :
    {A B : Type 0} (r r' : A × Result B) (b b' : B)
    → r.1 ≡ ok b
    → r'.1 ≡ ok b'
    → some r ≡ some r'
    → (r.0 ≡ r'.0) × (b ≡ b')
run_same r r' b b' p p' e =
    let same : r ≡ r' = cc in (ap (λ x. x.0) same, ok_same (sym p ∙ ap (λ x. x.1) same ∙ p'))

check_same : {A : Type 0} {a a' : Result A} → some a ≡ some a' → a ≡ a'
check_same e = cc

active_version :
    (settings : EncryptSettings)
    → require_active_version (some settings) ≡ ok (recorded_version settings)
unfolding require_active_version
active_version settings = refl

safe_of-IsClear : (t : Status) → IsClear t → safe_to_retire_old_keys t ≡ true
safe_of-IsClear t (versions, unencrypted) = rw (versions, unencrypted) refl

module _ {Bytes Seed : Type 0} (h : Helpers Bytes Seed) (byte_length : Bytes → ℕ)
    (checksum_of : Bytes → String) (b : Bucket Bytes) (env : Env) where
  open b use {Store, objects}

  metadata-active :
      (encrypt : Option EncryptSettings) (active key : String) (s : Store) (m : ObjectMetadata)
      → get_metadata h byte_length checksum_of b env encrypt key s ≡ ok (some m)
      → IsSettled h byte_length checksum_of b env active key s
      → m.encryption_version ≡ some active
  metadata-active encrypt active key s m e settled =
      let found = get_metadata-objects h byte_length checksum_of b env encrypt key s (some m) e in
      elim (Option-cases (JsMap.get String_discrete key (objects s))) [
        | inl nothing ↦
            let e' : some m ≡ none =
              found
              ∙ ap (Option.map (metadata_of h byte_length checksum_of b env encrypt)) nothing in
            absurd (cc)
        | inr (o, something) ↦
            let e' : some m ≡ some (metadata_of h byte_length checksum_of b env encrypt o) =
              found
              ∙ ap (Option.map (metadata_of h byte_length checksum_of b env encrypt)) something in
            let same : m ≡ metadata_of h byte_length checksum_of b env encrypt o = cc in
            ap (λ (x : ObjectMetadata). x.encryption_version) same ∙ settled o something
      ]

  count_object-IsClear :
      (encrypt : Option EncryptSettings) (active key : String) (s : Store)
      (m : Option ObjectMetadata) (t : Status)
      → get_metadata h byte_length checksum_of b env encrypt key s ≡ ok m
      → IsSettled h byte_length checksum_of b env active key s
      → IsClear t
      → IsClear (count_object active m t)
  unfolding count_object
  count_object-IsClear encrypt active key s none t e settled clear = clear
  count_object-IsClear encrypt active key s (some m) t e settled clear =
      count_version-active active m.encryption_version _
        (metadata-active encrypt active key s m e settled) clear

  check_keys-IsClear :
      (encrypt : Option EncryptSettings) (active : String) (keys : List String) (s : Store)
      (t t' : Status)
      → All (λ q. IsSettled h byte_length checksum_of b env active q s) keys
      → IsClear t
      → check_keys h byte_length checksum_of b env encrypt active keys s t ≡ ok t'
      → IsClear t'
  unfolding check_keys
  check_keys-IsClear encrypt active [] s t t' all clear e = subst IsClear (ok_same e) clear
  check_keys-IsClear encrypt active (key ∷ keys) s t t' all clear e =
      elim (Result-cases (get_metadata h byte_length checksum_of b env encrypt key s)) [
        | inr (err, bad) ↦ let e' = (rw (bad, check_keys) at e) in absurd (cc)
        | inl (m, good) ↦
            check_keys-IsClear encrypt active keys s (count_object active m t) t' all.1
              (count_object-IsClear encrypt active key s m t good all.0 clear)
              (rw (good, check_keys) at e)
      ]

  -- After a rotation that is no dry run, ended without failures and met no other writes, a check
  -- over the same listing that gets its answers says that it is safe to retire the old keys.
  pub run_check-run_rotate :
      (settings : EncryptSettings) (list_page : Option String → Store → Result Page)
      (seeds : String → Seed) (pages : List (List String)) (fuel fuel' : ℕ) (s s' : Store)
      (t : Totals) (status : Status)
      → Serves list_page none pages
      → length pages ≤ fuel
      → length pages ≤ fuel'
      → run_rotate h byte_length checksum_of b env
          (some settings)
          list_page
          false
          seeds
          (λ _ x. x)
          fuel
          s
        ≡ some (s', ok t)
      → t.failed ≡ []
      → run_check h byte_length checksum_of b env (some settings) list_page fuel' s'
        ≡ some (ok status)
      → safe_to_retire_old_keys status ≡ true
  run_check-run_rotate settings list_page seeds pages fuel fuel' s s' t status serves enough enough'
        rotated fine checked =
      let active = recorded_version settings in
      let version : require_active_version (some settings) ≡ ok active = active_version settings in
      let walked =
        rotate_keys h byte_length checksum_of b env (some settings) active false seeds (λ _ x. x)
          (flatten pages) s no_totals in
      let (same_store, same_totals) =
        run_same (walked.0, ok walked.1) (s', ok t) walked.1 t refl refl
          (sym (
              run_rotate-rotate_keys h byte_length checksum_of b env (some settings) list_page
                active false seeds (λ _ x. x) pages fuel s version serves enough)
            ∙ rotated) in
      let settled =
        rotate_keys-IsSettled h byte_length checksum_of b env settings seeds (flatten pages) s
          no_totals (ap (λ (x : Totals). x.failed) same_totals ∙ fine) in
      safe_of-IsClear status (
        check_keys-IsClear (some settings) active (flatten pages) s' no_objects status
          (subst
            (λ x. All (λ q. IsSettled h byte_length checksum_of b env active q x) (flatten pages))
            same_store settled)
          (refl, refl)
          (check_same (
            sym (
              run_check-check_keys h byte_length checksum_of b env (some settings) list_page active
                pages fuel' s' version serves enough')
            ∙ checked)))
