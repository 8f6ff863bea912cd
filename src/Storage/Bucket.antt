-- ===== src/Storage/Bucket.antt =====
-- The bucket behind `S3Client`: an interface with the documented behaviour of its commands. The
-- service and its client are not part of the repository. A command that fails is `failed`.
use datamaster.Prelude.{
  ◌≡◌, ◌≢◌, ◌⊎◌, Bool, true, false, Option, none, some, List, String, String_discrete,
}
use datamaster.JsMap

pub record Stored (Bytes : Type 0) : Type 0 where
  pub body : Bytes
  pub content_type : Option String
  pub metadata : List (String × String)

-- `missing` is an error named `NoSuchKey` or `NotFound`.
pub data Reply (A : Type 0) : Type 0 where
  reply : A → Reply A
  missing failed : Reply A

abbrev pub reply_of : {A : Type 0} → Option A → Reply A
reply_of none = missing
reply_of (some a) = reply a

pub record Bucket (Bytes : Type 0) : Type 1 where
  pub Store : Type 0
  pub objects : Store → List (String × Stored Bytes)
  pub put_object : String → Stored Bytes → Store → Store × Bool
  pub get_object : String → Store → Reply (Stored Bytes)
  pub head_object : String → Store → Reply (Stored Bytes)
  pub delete_object : String → Store → Store × Bool
  pub put_lem :
      (k : String) (o : Stored Bytes) (s : Store)
      → (put_object k o s).1 ≡ true
      → objects (put_object k o s).0 ≡ JsMap.set String_discrete k o (objects s)
  pub put_failed_lem :
      (k : String) (o : Stored Bytes) (s : Store)
      → (put_object k o s).1 ≡ false
      → (objects (put_object k o s).0 ≡ objects s)
        ⊎ (objects (put_object k o s).0 ≡ JsMap.set String_discrete k o (objects s))
  pub get_lem :
      (k : String) (s : Store)
      → get_object k s ≢ failed
      → get_object k s ≡ reply_of (JsMap.get String_discrete k (objects s))
  pub head_lem :
      (k : String) (s : Store)
      → head_object k s ≢ failed
      → head_object k s ≡ reply_of (JsMap.get String_discrete k (objects s))
  pub delete_lem :
      (k : String) (s : Store)
      → (delete_object k s).1 ≡ true
      → objects (delete_object k s).0 ≡ JsMap.delete String_discrete k (objects s)
