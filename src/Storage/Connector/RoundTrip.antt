-- ===== src/Storage/Connector/RoundTrip.antt =====
-- What `put` of `SeaweedFSObjectStorage` wrote, `get` reads back.
use mathlib.Core.Option
use datamaster.Prelude.{
  ℕ, ◌≡◌, ◌≢◌, refl, sym, ap, inl, inr, ◌∙◌, true, Option, none, some, [], ◌∷◌, String,
  String_discrete, is_some, if_pos, if◌then◌else◌, Bool-cases,
}
use datamaster.JsMap
use datamaster.JsMap.Laws.{get-set}
use datamaster.Storage.Encryption.{
  Helpers, EncryptSettings, Env, Metadata, ok, encrypt_bytes, decrypt_bytes,
}
use datamaster.Storage.Encryption.Written.{Result-cases, encrypt_bytes-version}
use datamaster.Storage.Encryption.RoundTrip.{
  CanDecrypt, decrypt_bytes-encrypt_bytes, decrypt_bytes_checksum,
}
use datamaster.Storage.Bucket.{Bucket, Stored, reply, reply_of, failed}
use datamaster.Storage.Connector.{StoredObject, sealed, opened, put, get, read_object, described}

-- A reader can read what a writer with these settings puts: what was not encrypted, whatever its
-- own settings; what was, if it encrypts in the same way and has the keys.
abbrev pub CanRead :
    {Bytes Seed : Type 0}
    → Helpers Bytes Seed
    → Option EncryptSettings
    → Option EncryptSettings
    → Env
    → Env
    → Type 0
CanRead h none reader env env' = Unit
CanRead h (some writer) none env env' = ⊥
CanRead h (some writer) (some reader) env env' =
    (reader.kind ≡ writer.kind) × CanDecrypt h writer.kind writer.version env env'

ok_inj : {A : Type 0} {a b : A} → ok a ≡ ok b → a ≡ b
ok_inj e = cc

module _ {Bytes Seed : Type 0} (h : Helpers Bytes Seed) (byte_length : Bytes → ℕ)
    (checksum_of : Bytes → String) (b : Bucket Bytes) (env env' : Env) where
  sealed_plain :
      (seed : Seed) (plaintext : Bytes) (content_type : String)
      → sealed h byte_length checksum_of b env none seed plaintext content_type
        ≡ ok (record {
          body = plaintext;
          content_type = some content_type;
          metadata = ("checksum", checksum_of plaintext) ∷ [];
        })
  unfolding sealed
  sealed_plain seed plaintext content_type = refl

  pub sealed-eq-ok :
      (settings : EncryptSettings) (seed : Seed) (plaintext : Bytes) (content_type : String)
      (object : Stored Bytes)
      → sealed h byte_length checksum_of b env (some settings) seed plaintext content_type
        ≡ ok object
      → (c : Bytes) × (m : Metadata) × (encrypt_bytes h env seed plaintext settings ≡ ok (c, m))
        × (object ≡ record {
          body = c;
          content_type = some content_type;
          metadata = ("checksum", checksum_of plaintext) ∷ m;
        })
  unfolding sealed
  sealed-eq-ok settings seed plaintext content_type object e =
      elim (Result-cases (encrypt_bytes h env seed plaintext settings)) [
        | inr (err, bad) ↦ let e' = (rw (bad, sealed) at e) in absurd (cc)
        | inl ((c, m), good) ↦ let e' = (rw (good, sealed) at e) in (c, m, good, cc)
      ]

  version-present :
      (checksum version : String) (others : Metadata)
      → is_some (
          JsMap.get String_discrete "encryption-version"
            (("checksum", checksum) ∷ ("encryption-version", version) ∷ others))
        ≡ true
  unfolding JsMap.get String_discrete
  version-present checksum version others = refl

  opened-encrypted :
      (settings reader : EncryptSettings) (seed : Seed) (plaintext : Bytes)
      (checksum content_type : String) (c : Bytes) (m : Metadata)
      → CanRead h (some settings) (some reader) env env'
      → encrypt_bytes h env seed plaintext settings ≡ ok (c, m)
      → opened h byte_length checksum_of b env' (some reader) (record {
        body = c;
        content_type = some content_type;
        metadata = ("checksum", checksum) ∷ m;
      })
        ≡ ok plaintext
  unfolding opened
  opened-encrypted settings reader seed plaintext checksum content_type c m can e =
      let (others, is_m) = encrypt_bytes-version h env seed plaintext settings c m e in
      let present : is_some
            (JsMap.get String_discrete "encryption-version" (("checksum", checksum) ∷ m))
          ≡ true =
        rw is_m (version-present checksum _ others) in
      ap (λ t. if t then decrypt_bytes h env' c reader (("checksum", checksum) ∷ m) else ok c)
        present
      ∙ decrypt_bytes_checksum h env' env' c reader checksum m
      ∙ decrypt_bytes-encrypt_bytes h env env' seed plaintext settings reader c m can.0 can.1 e

  opened-plain :
      (reader : Option EncryptSettings) (plaintext : Bytes) (checksum content_type : String)
      → opened h byte_length checksum_of b env' reader (record {
        body = plaintext;
        content_type = some content_type;
        metadata = ("checksum", checksum) ∷ [];
      })
        ≡ ok plaintext
  unfolding opened JsMap.get String_discrete
  opened-plain none plaintext checksum content_type = refl
  opened-plain (some reader) plaintext checksum content_type = refl

  -- The shape of what `put` sends, and that a reader who can read opens it.
  opened-sealed :
      (writer reader : Option EncryptSettings) (seed : Seed) (plaintext : Bytes)
      (content_type : String) (object : Stored Bytes)
      → CanRead h writer reader env env'
      → sealed h byte_length checksum_of b env writer seed plaintext content_type ≡ ok object
      → (opened h byte_length checksum_of b env' reader object ≡ ok plaintext)
        × (object.content_type ≡ some content_type)
        × (m : Metadata) × (object.metadata ≡ ("checksum", checksum_of plaintext) ∷ m)
  opened-sealed none reader seed plaintext content_type object can e =
      let is_object = ok_inj (sym (sealed_plain seed plaintext content_type) ∙ e) in
      rw (← is_object)
        (opened-plain reader plaintext (checksum_of plaintext) content_type, refl, [], refl)
  opened-sealed (some writer) none seed plaintext content_type object can e = absurd can
  opened-sealed (some writer) (some reader) seed plaintext content_type object can e =
      let (c, m, encrypted, is_object) = sealed-eq-ok writer seed plaintext content_type object e in
      rw is_object (
        opened-encrypted writer reader seed plaintext (checksum_of plaintext) content_type c m can
            encrypted,
        refl,
        m,
        refl,
      )

  checksum-present :
      (checksum : String) (m : Metadata)
      → JsMap.get String_discrete "checksum" (("checksum", checksum) ∷ m) ≡ some checksum
  unfolding JsMap.get String_discrete
  checksum-present checksum m = refl

  read_object-sealed :
      (reader : Option EncryptSettings) (key : String) (plaintext : Bytes) (content_type : String)
      (object : Stored Bytes) (m : Metadata)
      → opened h byte_length checksum_of b env' reader object ≡ ok plaintext
      → object.content_type ≡ some content_type
      → object.metadata ≡ ("checksum", checksum_of plaintext) ∷ m
      → read_object h byte_length checksum_of b env' reader key object
        ≡ ok (
            some (
              plaintext,
              described h byte_length checksum_of b env' reader key plaintext content_type,
            ))
  unfolding read_object
  read_object-sealed reader key plaintext content_type object m o t is_m =
      let type : Option.get_or object.content_type "application/octet-stream" ≡ content_type =
        ap (λ x. Option.get_or x "application/octet-stream") t in
      let sum : Option.get_or (JsMap.get String_discrete "checksum" object.metadata)
            (checksum_of plaintext)
          ≡ checksum_of plaintext =
        ap (λ x. Option.get_or (JsMap.get String_discrete "checksum" x) (checksum_of plaintext))
          is_m
        ∙ ap (λ x. Option.get_or x (checksum_of plaintext))
            (checksum-present (checksum_of plaintext) m) in
      rw (o, type, sum, read_object) refl

  pub put-eq-ok :
      (writer : Option EncryptSettings) (seed : Seed) (key : String) (plaintext : Bytes)
      (content_type : String) (object : StoredObject) (s : Bucket.Store b)
      → (put h byte_length checksum_of b env writer seed key plaintext content_type s).1 ≡ ok object
      → (o : Stored Bytes) × (sealed h byte_length checksum_of b env writer seed plaintext
            content_type
          ≡ ok o)
        × (Bucket.objects b
              (put h byte_length checksum_of b env writer seed key plaintext content_type s).0
            ≡ JsMap.set String_discrete key o (Bucket.objects b s))
        × (object ≡ described h byte_length checksum_of b env' writer key plaintext content_type)
  unfolding put
  put-eq-ok writer seed key plaintext content_type object s sent =
      elim (Result-cases
        (sealed h byte_length checksum_of b env writer seed plaintext content_type)) [
          | inr (err, bad) ↦ let e' = (rw (bad, put) at sent) in absurd (cc)
          | inl (o, good) ↦ elim (Bool-cases (Bucket.put_object b key o s).1) [
            | inl on ↦ (
              o,
              good,
              rw (good, put) (Bucket.put_lem b key o s on),
              sym (ok_inj (rw (good, on, put) at sent)),
            )
            | inr off ↦ let e' = (rw (good, off, put) at sent) in absurd (cc)
          ]
        ]

  get_of_stored :
      (reader : Option EncryptSettings) (key : String) (o : Stored Bytes) (s : Bucket.Store b)
      → JsMap.get String_discrete key (Bucket.objects b s) ≡ some o
      → Bucket.get_object b key s ≢ failed
      → get h byte_length checksum_of b env' reader key s
        ≡ read_object h byte_length checksum_of b env' reader key o
  unfolding get
  get_of_stored reader key o s there works =
      let answer : Bucket.get_object b key s ≡ reply o =
        Bucket.get_lem b key s works ∙ ap reply_of there in
      rw (answer, get) refl

  -- What `put` stored and reported, `get` returns: the same bytes and the same description.
  -- Whatever version the reading instance encrypts with by then, it needs encryption of the same kind
  -- and the key of the version that was written with; what was written without encryption every
  -- instance reads. The read is one that the service answers.
  pub get-put :
      (writer reader : Option EncryptSettings) (seed : Seed) (key : String) (plaintext : Bytes)
      (content_type : String) (object : StoredObject) (s : Bucket.Store b)
      → CanRead h writer reader env env'
      → (put h byte_length checksum_of b env writer seed key plaintext content_type s).1 ≡ ok object
      → Bucket.get_object b key
          (put h byte_length checksum_of b env writer seed key plaintext content_type s).0
        ≢ failed
      → get h byte_length checksum_of b env' reader key
          (put h byte_length checksum_of b env writer seed key plaintext content_type s).0
        ≡ ok (some (plaintext, object))
  get-put writer reader seed key plaintext content_type object s can sent works =
      let s' = (put h byte_length checksum_of b env writer seed key plaintext content_type s).0 in
      let (o, is_sealed, written, is_object) =
        put-eq-ok writer seed key plaintext content_type object s sent in
      let (opens, type, m, is_m) =
        opened-sealed writer reader seed plaintext content_type o can is_sealed in
      let there : JsMap.get String_discrete key (Bucket.objects b s') ≡ some o =
        ap (JsMap.get String_discrete key) written
        ∙ get-set String_discrete key key o (Bucket.objects b s)
        ∙ if_pos (String_discrete key key) refl _ _ in
      get_of_stored reader key o s' there works
      ∙ read_object-sealed reader key plaintext content_type o m opens type is_m
      ∙ ap (λ x. ok (some (plaintext, x))) (sym is_object)
