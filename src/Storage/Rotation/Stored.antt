-- ===== src/Storage/Rotation/Stored.antt =====
-- modules/storage/connector.ts as the rotation uses it: what its reads tell of the bucket, and what
-- `put` leaves there.
use datamaster.Prelude.{
  ℕ, ◌≡◌, ◌≢◌, ◌⊎◌, inl, inr, refl, ap, ◌∙◌, Option, none, some, ◌∷◌, String, Option-cases,
  Bool-cases, if_neg, String_discrete,
}
use mathlib.Core.Option
use datamaster.JsMap
use datamaster.JsMap.Laws.{get-set}
use datamaster.Storage.Encryption.{Helpers, EncryptSettings, Env, Metadata, ok, recorded_version}
use datamaster.Storage.Encryption.Written.{Result-cases, encrypt_bytes-version}
use datamaster.Storage.Bucket.{Bucket, Stored, Reply, reply, reply_of, missing, failed}
use datamaster.Storage.Connector.{
  ObjectMetadata, get_metadata, get, put, metadata_of, sealed, opened, read_object,
}
use datamaster.Storage.Connector.RoundTrip.{sealed-eq-ok}

Reply-cases : {A : Type 0} (r : Reply A) → (r ≡ failed) ⊎ (r ≢ failed)
Reply-cases (reply a) = inr (λ e. cc)
Reply-cases missing = inr (λ e. cc)
Reply-cases failed = inl refl

pub none_of-map :
    {A B : Type 0} (f : A → B) (o : Option A) (a : A) → o ≡ some a → none ≡ Option.map f o → ⊥
none_of-map f none a e e' = cc
none_of-map f (some x) a e e' = cc

module _ {Bytes Seed : Type 0} (h : Helpers Bytes Seed) (byte_length : Bytes → ℕ)
    (checksum_of : Bytes → String) (b : Bucket Bytes) (env : Env) where
  open b use {
    Store, objects, head_object, get_object, put_object, head_lem, get_lem, put_lem, put_failed_lem,
  }

  pub get_metadata-objects :
      (encrypt : Option EncryptSettings) (key : String) (s : Store) (m : Option ObjectMetadata)
      → get_metadata h byte_length checksum_of b env encrypt key s ≡ ok m
      → m
        ≡ Option.map
            (metadata_of h byte_length checksum_of b env encrypt)
            (JsMap.get String_discrete key (objects s))
  unfolding get_metadata
  get_metadata-objects encrypt key s m e = elim (Reply-cases (head_object key s)) [
    | inl bad ↦ let e' = (rw (bad, get_metadata) at e) in absurd (cc)
    | inr good ↦ elim (Option-cases (JsMap.get String_discrete key (objects s))) [
      | inl nothing ↦
          let r : head_object key s ≡ missing = head_lem key s good ∙ ap reply_of nothing in
          let e' = (rw (r, get_metadata) at e) in rw nothing (cc)
      | inr (o, something) ↦
          let r : head_object key s ≡ reply o = head_lem key s good ∙ ap reply_of something in
          let e' = (rw (r, get_metadata) at e) in rw something (cc)
    ]
  ]

  pub get-none-objects :
      (encrypt : Option EncryptSettings) (key : String) (s : Store)
      → get h byte_length checksum_of b env encrypt key s ≡ ok none
      → JsMap.get String_discrete key (objects s) ≡ none
  unfolding get read_object
  get-none-objects encrypt key s e = elim (Reply-cases (get_object key s)) [
    | inl bad ↦ let e' = (rw (bad, get) at e) in absurd (cc)
    | inr good ↦ elim (Option-cases (JsMap.get String_discrete key (objects s))) [
      | inl nothing ↦ nothing
      | inr (o, something) ↦
          let r : get_object key s ≡ reply o = get_lem key s good ∙ ap reply_of something in
          elim (Result-cases (opened h byte_length checksum_of b env encrypt o)) [
            | inl (p, opens) ↦ let e' = (rw (r, opens, get, read_object) at e) in absurd (cc)
            | inr (err, fails) ↦ let e' = (rw (r, fails, get, read_object) at e) in absurd (cc)
          ]
    ]
  ]

  version-third :
      (checksum active : String) (others : Metadata)
      → JsMap.get String_discrete "encryption-version"
          (("checksum", checksum) ∷ ("encryption-version", active) ∷ others)
        ≡ some active
  unfolding JsMap.get String_discrete
  version-third checksum active others = refl

  pub sealed-version :
      (settings : EncryptSettings) (seed : Seed) (plaintext : Bytes) (content_type : String)
      (o : Stored Bytes)
      → sealed h byte_length checksum_of b env (some settings) seed plaintext content_type ≡ ok o
      → JsMap.get String_discrete "encryption-version" o.metadata ≡ some (recorded_version settings)
  sealed-version settings seed plaintext content_type o e =
      let (c, m, encrypted, is_o) =
        sealed-eq-ok h byte_length checksum_of b env env settings seed plaintext content_type o e in
      let (others, is_m) = encrypt_bytes-version h env seed plaintext settings c m encrypted in
      rw (is_o, is_m) (version-third (checksum_of plaintext) (recorded_version settings) others)

  -- Another key's object stays as it is.
  pub put-other :
      (encrypt : Option EncryptSettings) (seed : Seed) (key q : String) (plaintext : Bytes)
      (content_type : String) (s : Store)
      → key ≢ q
      → JsMap.get String_discrete q (
          objects (put h byte_length checksum_of b env encrypt seed key plaintext content_type s).0)
        ≡ JsMap.get String_discrete q (objects s)
  unfolding put
  put-other encrypt seed key q plaintext content_type s ne =
      elim (Result-cases
        (sealed h byte_length checksum_of b env encrypt seed plaintext content_type)) [
          | inr (err, bad) ↦ rw (bad, put) refl
          | inl (o, good) ↦
              let other =
                get-set String_discrete key q o (objects s)
                ∙ if_neg (String_discrete key q) ne _ _ in
              elim (Bool-cases (put_object key o s).1) [
                | inl on ↦
                    rw (good, put) (ap (JsMap.get String_discrete q) (put_lem key o s on) ∙ other)
                | inr off ↦ elim (put_failed_lem key o s off) [
                  | inl same ↦ rw (good, put) (ap (JsMap.get String_discrete q) same)
                  | inr written ↦ rw (good, put) (ap (JsMap.get String_discrete q) written ∙ other)
                ]
              ]
        ]
