-- ===== src/Tests/Storage.antt =====
-- The object storage on small inputs: a bucket that is a list, and ciphers that leave texts as they
-- are.
use datamaster.Prelude.{
  ℕ, ◌≡◌, ◌≢◌, refl, sym, true, false, Option, none, some, List, [], ◌∷◌, String, String_discrete,
  ite, if_pos, if_neg, arith, text_ne, length, inl,
}
use mathlib.Core.List.{flatten}
use datamaster.JsMap
use datamaster.Storage.Text.{normalize_version, to_upper}
use datamaster.Storage.Encryption
use datamaster.Storage.Encryption.{
  Helpers, EncryptSettings, symmetric, asymmetric, Env, ok, throw, encrypt_bytes, decrypt_bytes,
  StorageError, Result,
}
use datamaster.Storage.Encryption.RoundTrip.{CanDecrypt, decrypt_bytes-encrypt_bytes}
use datamaster.Storage.Bucket.{Bucket, Stored, failed, reply_of}
use datamaster.Storage.Connector
use datamaster.Storage.Connector.{StoredObject, put, get}
use datamaster.Storage.Connector.RoundTrip.{get-put}
use datamaster.Storage.Rotation
use datamaster.Storage.Rotation.{
  Page, run_rotate, run_check, Totals, Status, safe_to_retire_old_keys, require_active_version,
}
use datamaster.Storage.Rotation.Walk.{Serves}
use datamaster.Storage.Rotation.Balance.{IsBalanced, run_rotate-IsBalanced}
use datamaster.Storage.Rotation.Retire.{run_check-run_rotate}

-- RSA refuses the empty text.
abbrev wrap : String → Option String
wrap t = ite (String_discrete t "") none (some t)

pub wrap-some : (t c : String) → wrap t ≡ some c → (t ≡ c) × (c ≢ "")
wrap-some t c e = elim (String_discrete t "") [
  | yes p ↦ let e' = sym (if_pos (String_discrete t "") p none (some t)) in absurd (cc)
  | no p ↦
      let e' = if_neg (String_discrete t "") p none (some t) in
      let same : t ≡ c = cc in (same, rw (← same) p)
]

unfoldable pub helpers : Helpers String ℕ
helpers = record {
  to_base64 = λ b. b;
  of_base64 = λ t. t;
  to_bytes = λ t. t;
  of_bytes = λ b. b;
  atob = λ t. some t;
  generate_aes_key = λ r. "key";
  encrypt_aes = λ r t k. some t;
  decrypt_aes = λ c k. some c;
  rsa_encrypt = λ r t public. wrap t;
  rsa_decrypt = λ c private. some c;
  IsKeyPair = λ public private. Unit;
  base64_lem = λ b. refl;
  bytes_lem = λ t. refl;
  aes_lem = λ r t k c e. sym e;
  rsa_lem = λ r t public private c pair e. let (same, _) = wrap-some t c e in rw same refl;
  rsa_nonempty = λ r t public c e. (wrap-some t c e).1;
}

unfoldable pub bucket : Bucket String
bucket = record {
  Store = List (String × Stored String);
  objects = λ s. s;
  put_object = λ k o s. (JsMap.set String_discrete k o s, true);
  get_object = λ k s. reply_of (JsMap.get String_discrete k s);
  head_object = λ k s. reply_of (JsMap.get String_discrete k s);
  delete_object = λ k s. (JsMap.delete String_discrete k s, true);
  put_lem = λ k o s e. refl;
  put_failed_lem = λ k o s e. inl (cc);
  get_lem = λ k s e. refl;
  head_lem = λ k s e. refl;
  delete_lem = λ k s e. refl;
}

abbrev env : Env
env name = some "secret"

abbrev version_1 : EncryptSettings
version_1 = record { kind = symmetric; version = some "v1" }

abbrev version_2 : EncryptSettings
version_2 = record { kind = symmetric; version = some "v2" }

abbrev wrapping : EncryptSettings
wrapping = record { kind = asymmetric; version = none }

v12 : normalize_version (some "v12") ≡ "_V12"
unfolding normalize_version to_upper String_discrete
v12 = refl

abbrev sealed_2 : String × List (String × String)
sealed_2 = ("text", ("encryption-version", "v0") ∷ ("wrapped-key", "key") ∷ [])

seals : encrypt_bytes helpers env 7 "text" wrapping ≡ ok sealed_2
unfolding encrypt_bytes Encryption.encrypt_asymmetric helpers Encryption.require_env String_discrete
seals = refl

can_decrypt : CanDecrypt helpers asymmetric none env env
unfolding helpers
can_decrypt =
    ("secret", "secret", "secret", "secret", refl, refl, refl, text_ne "secret" "" refl, refl, tt)

decrypt_bytes-encrypt_bytes_example :
    decrypt_bytes helpers env "text"
      (record wrapping { version = some "v9" })
      (("encryption-version", "v0") ∷ ("wrapped-key", "key") ∷ [])
    ≡ ok "text"
decrypt_bytes-encrypt_bytes_example =
    decrypt_bytes-encrypt_bytes helpers env env 7 "text" wrapping
      (record wrapping { version = some "v9" }) "text"
      (("encryption-version", "v0") ∷ ("wrapped-key", "key") ∷ []) refl can_decrypt seals

abbrev size : String → ℕ
size t = 4

-- The bucket with these objects.
objects_are : List (String × Stored String) → Bucket.Store bucket
unfolding bucket
objects_are os = os

abbrev object_a : StoredObject
object_a = record { key = "a"; content_type = "text/plain"; size = 4; checksum = "text" }

puts :
    (put helpers size
      (λ t. t)
      bucket
      env
      (some version_1)
      7
      "a"
      "text"
      "text/plain"
      (objects_are [])).1
    ≡ ok object_a
unfolding put Connector.sealed encrypt_bytes Encryption.encrypt_symmetric helpers
    Encryption.require_env String_discrete bucket objects_are
puts = refl

-- The object is there to be read.
reachable :
    Bucket.get_object bucket "a"
      (put helpers size
        (λ t. t)
        bucket
        env
        (some version_1)
        7
        "a"
        "text"
        "text/plain"
        (objects_are [])).0
    ≢ failed
unfolding put Connector.sealed encrypt_bytes Encryption.encrypt_symmetric helpers
    Encryption.require_env String_discrete bucket objects_are JsMap.get JsMap.set
reachable e = cc

get-put_example :
    get helpers size
      (λ t. t)
      bucket
      env
      (some version_2)
      "a"
      (put helpers size
        (λ t. t)
        bucket
        env
        (some version_1)
        7
        "a"
        "text"
        "text/plain"
        (objects_are [])).0
    ≡ ok (some ("text", object_a))
get-put_example =
    get-put helpers size (λ t. t) bucket env env (some version_1) (some version_2) 7 "a" "text"
      "text/plain" object_a (objects_are []) (refl, refl) puts reachable

-- Two pages of a key each; the second key has no object.
list_page : Option String → Bucket.Store bucket → Result Page
list_page none s = ok (record { keys = "a" ∷ []; next = some "1" })
list_page (some token) s = ok (record { keys = "b" ∷ []; next = none })

abbrev pages : List (List String)
pages = ("a" ∷ []) ∷ ("b" ∷ []) ∷ []

serves : Serves list_page none pages
unfolding list_page
serves = ("1", text_ne "1" "" refl, (λ s. refl), (λ s. refl))

active : require_active_version (some version_2) ≡ ok "v2"
unfolding require_active_version
active = refl

-- An object that was written without encryption.
abbrev start : Bucket.Store bucket
start = objects_are (
    (
      "a",
      record {
        body = "text";
        content_type = some "text/plain";
        metadata = ("checksum", "text") ∷ [];
      },
    )
    ∷ [])

run_rotate-IsBalanced_example :
    (s : Bucket.Store bucket) × (t : Totals) × (run_rotate helpers size
        (λ t. t)
        bucket
        env
        (some version_2)
        list_page
        false
        (λ _. 7)
        (λ _ s. s)
        2
        start
      ≡ some (s, ok t))
    × (t.scanned ≡ length (flatten pages))
    × IsBalanced t
run_rotate-IsBalanced_example =
    run_rotate-IsBalanced helpers size (λ t. t) bucket env (some version_2) list_page "v2" false
      (λ _. 7) (λ _ s. s) pages 2 start active serves (omega arith)

abbrev rotated : Bucket.Store bucket
rotated = objects_are (
    (
      "a",
      record {
        body = "text";
        content_type = some "text/plain";
        metadata = ("checksum", "text") ∷ ("encryption-version", "v2") ∷ [];
      },
    )
    ∷ [])

abbrev totals : Totals
totals = record {
  scanned = 2;
  migrated = 1;
  skipped = 1;
  failed = [];
  reports =
      record { scanned = 1; migrated = 1; failures = 0 }
      ∷ record { scanned = 2; migrated = 1; failures = 0 }
      ∷ [];
}

abbrev status : Status
status = record {
  total_objects = 2;
  on_active_version = 1;
  versions_still_in_use = [];
  unencrypted = 0;
}

rotates :
    run_rotate helpers size
      (λ t. t)
      bucket
      env
      (some version_2)
      list_page
      false
      (λ _. 7)
      (λ _ s. s)
      2
      start
    ≡ some (rotated, ok totals)
unfolding run_rotate Rotation.rotate_pages Rotation.rotate_keys Rotation.rotate_key
    Rotation.rotate_found Rotation.migrate Rotation.write_if_current Rotation.write_back
    Rotation.count_outcome require_active_version Connector.get_metadata get Connector.read_object
    Connector.opened put Connector.sealed encrypt_bytes Encryption.encrypt_symmetric helpers
    Encryption.require_env String_discrete bucket objects_are JsMap.get JsMap.set list_page
rotates = refl

checks :
    run_check helpers size (λ t. t) bucket env (some version_2) list_page 2 rotated
    ≡ some (ok status)
unfolding run_check Rotation.check_pages Rotation.check_keys Rotation.count_object
    Rotation.count_version require_active_version Connector.get_metadata String_discrete bucket
    objects_are JsMap.get list_page
checks = refl

run_check-run_rotate_example : safe_to_retire_old_keys status ≡ true
run_check-run_rotate_example =
    run_check-run_rotate helpers size (λ t. t) bucket env version_2 list_page (λ _. 7) pages 2 2
      start rotated totals status serves (omega arith) (omega arith) rotates refl checks
