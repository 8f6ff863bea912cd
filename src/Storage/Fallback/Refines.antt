-- ===== src/Storage/Fallback/Refines.antt =====
-- The combination of two object storages is an object storage.
use datamaster.Prelude.{
  ◌≡◌, ◌⊎◌, inl, inr, refl, sym, ap, ◌∙◌, Bool, true, false, Option, none, some, String,
  String_discrete, ite, is_some,
}
use datamaster.Storage.Encryption.{Result, ok, throw}
use datamaster.Storage.Connector.{StoredObject}
use datamaster.Storage.Contract.{ObjectStorage, IsObjectStorage, Content, content_of, update}
use datamaster.Storage.Fallback
use datamaster.Storage.Fallback.{
  Both, ready, both_done, found_in_primary, exists_in_primary, create_fallback_object_storage,
}

-- The first that is there.
abbrev pub first_of : {A : Type 0} → Option A → Option A → Option A
first_of none b = b
first_of (some a) b = some a

is_some-first_of : {A : Type 0} (a b : Option A) → true ≡ is_some a → true ≡ is_some (first_of a b)
is_some-first_of none b h = absurd (cc)
is_some-first_of (some x) b h = refl

first_of_absent : {A : Type 0} (a b : Option A) → false ≡ is_some a → first_of a b ≡ b
first_of_absent none b h = refl
first_of_absent (some x) b h = absurd (cc)

both_done-ok : (r r' : Result (Unit {0})) → both_done r r' ≡ ok tt → (r ≡ ok tt) × (r' ≡ ok tt)
both_done-ok (throw e) r' h = absurd (cc)
both_done-ok (ok _) r' h = (refl, h)

pub first_of-update_left :
    {A : Type 0} (key j : String) (value : A) (f g : String → Option A)
    → first_of (update key (some value) f j) (g j)
      ≡ update key (some value) (λ i. first_of (f i) (g i)) j
first_of-update_left key j value f g =
    elim (String_discrete key j)
      as (λ test.
        first_of (ite test (some value) (f j)) (g j)
        ≡ ite test (some value) (first_of (f j) (g j))) [ yes p ↦ refl | no p ↦ refl ]

first_of-update_both :
    {A : Type 0} (key j : String) (f g : String → Option A)
    → first_of (update key none f j) (update key none g j)
      ≡ update key none (λ i. first_of (f i) (g i)) j
first_of-update_both key j f g =
    elim (String_discrete key j)
      as (λ test.
        first_of (ite test none (f j)) (ite test none (g j))
        ≡ ite test none (first_of (f j) (g j))) [ yes p ↦ refl | no p ↦ refl ]

-- What a client of both sees.
abbrev pub view :
    {P F M A : Type 0}
    → (P → String → Option A)
    → (F → String → Option A)
    → Both P F M
    → String
    → Option A
view pc fc s j = first_of (pc s.primary j) (fc s.fallback j)

module _ {Bytes M : Type 0} (primary fallback : ObjectStorage Bytes)
    (pc : primary.Store → String → Option (Content Bytes))
    (fc : fallback.Store → String → Option (Content Bytes)) (p : IsObjectStorage primary pc)
    (f : IsObjectStorage fallback fc) where
  abbrev seen : Both primary.Store fallback.Store M → String → Option (Content Bytes)
  seen = view pc fc

  module _
      (ensure_synced : Option (
        Both primary.Store fallback.Store M
        → Both primary.Store fallback.Store M × Result (Unit {0})))
      (kept : (s : Both primary.Store fallback.Store M) (j : String)
        → seen (ready primary fallback ensure_synced s) j ≡ seen s j) where
    found_lem :
        (key : String) (s : Both primary.Store fallback.Store M)
        (r : primary.Store × Result (Option (Bytes × StoredObject)))
        → ((found : Option (Bytes × StoredObject))
            → r.1 ≡ ok found
            → content_of found ≡ pc s.primary key)
        → (found : Option (Bytes × StoredObject))
        → (found_in_primary primary fallback ensure_synced key s r).1 ≡ ok found
        → content_of found ≡ seen s key
    unfolding found_in_primary
    found_lem key s (s', throw e) h found result = absurd (cc)
    found_lem key s (s', ok (some x)) h found result =
        let same : found ≡ some x = cc in rw (same, ← h (some x) refl) refl
    found_lem key s (s', ok none) h found result =
        rw (← h none refl) (f.get_lem key s.fallback found result)

    -- A read of the primary store, and what it leaves.
    found_keeps :
        (key : String) (s : Both primary.Store fallback.Store M)
        (r : primary.Store × Result (Option (Bytes × StoredObject)))
        → ((j : String) → pc r.0 j ≡ pc s.primary j)
        → (j : String)
        → seen (found_in_primary primary fallback ensure_synced key s r).0 j ≡ seen s j
    unfolding found_in_primary
    found_keeps key s (s', throw e) h j = rw (h j) refl
    found_keeps key s (s', ok (some x)) h j = rw (h j) refl
    found_keeps key s (s', ok none) h j = rw (h j, f.get_keeps key s.fallback j) refl

    exists_lem :
        (key : String) (s : Both primary.Store fallback.Store M) (r : primary.Store × Result Bool)
        → ((b : Bool) → r.1 ≡ ok b → b ≡ is_some (pc s.primary key))
        → (b : Bool) → (exists_in_primary primary fallback ensure_synced key s r).1 ≡ ok b
        → b ≡ is_some (seen s key)
    unfolding exists_in_primary
    exists_lem key s (s', throw e) h b result = absurd (cc)
    exists_lem key s (s', ok true) h b result =
        let same : true ≡ b = cc in
        sym same ∙ is_some-first_of (pc s.primary key) (fc s.fallback key) (h true refl)
    exists_lem key s (s', ok false) h b result =
        f.exists_lem key s.fallback b result
        ∙ ap is_some (sym (first_of_absent (pc s.primary key) (fc s.fallback key) (h false refl)))

    exists_keeps :
        (key : String) (s : Both primary.Store fallback.Store M) (r : primary.Store × Result Bool)
        → ((j : String) → pc r.0 j ≡ pc s.primary j)
        → (j : String)
        → seen (exists_in_primary primary fallback ensure_synced key s r).0 j ≡ seen s j
    unfolding exists_in_primary
    exists_keeps key s (s', throw e) h j = rw (h j) refl
    exists_keeps key s (s', ok true) h j = rw (h j) refl
    exists_keeps key s (s', ok false) h j = rw (h j, f.exists_keeps key s.fallback j) refl

    -- `update` of the seen before and after the sync.
    update-ready :
        (key : String) (value : Option (Content Bytes)) (s : Both primary.Store fallback.Store M)
        (j : String)
        → update key value (seen (ready primary fallback ensure_synced s)) j
          ≡ update key value (seen s) j
    update-ready key value s j = rw (kept s j) refl

    -- What a write of the primary store and a removal from both do to the seen.
    put_view :
        (key : String) (content : Content Bytes) (s : Both primary.Store fallback.Store M)
        (after : primary.Store) (j : String)
        → pc after j
          ≡ update key (some content) (pc (ready primary fallback ensure_synced s).primary) j
        → first_of (pc after j) (fc (ready primary fallback ensure_synced s).fallback j)
          ≡ update key (some content) (seen s) j
    put_view key content s after j h =
        let s' = ready primary fallback ensure_synced s in
        ap (λ x. first_of x (fc s'.fallback j)) h
        ∙ first_of-update_left key j content (pc s'.primary) (fc s'.fallback)
        ∙ update-ready key (some content) s j

    put_failed_view :
        (key : String) (content : Content Bytes) (s : Both primary.Store fallback.Store M)
        (after : primary.Store) (j : String)
        → (pc after j ≡ pc (ready primary fallback ensure_synced s).primary j)
          ⊎ (pc after j
              ≡ update key (some content) (pc (ready primary fallback ensure_synced s).primary) j)
        → (first_of (pc after j) (fc (ready primary fallback ensure_synced s).fallback j)
            ≡ seen s j)
          ⊎ (first_of (pc after j) (fc (ready primary fallback ensure_synced s).fallback j)
              ≡ update key (some content) (seen s) j)
    put_failed_view key content s after j (inl h) =
        inl (
          ap (λ x. first_of x (fc (ready primary fallback ensure_synced s).fallback j)) h
          ∙ kept s j)
    put_failed_view key content s after j (inr h) = inr (put_view key content s after j h)

    delete_view :
        (key : String) (s : Both primary.Store fallback.Store M) (j : String)
        → (Fallback.delete primary fallback ensure_synced key s).1 ≡ ok tt
        → seen (Fallback.delete primary fallback ensure_synced key s).0 j
          ≡ update key none (seen s) j
    unfolding Fallback.delete
    delete_view key s j result =
        let s' = ready primary fallback ensure_synced s in
        let (in_p, in_f) =
          both_done-ok (primary.delete key s'.primary).1 (fallback.delete key s'.fallback).1
            result in
        rw (p.delete_lem key s'.primary in_p j, f.delete_lem key s'.fallback in_f j)
          (first_of-update_both key j (pc s'.primary) (fc s'.fallback) ∙ update-ready key none s j)

    pub create_fallback_object_storage-IsObjectStorage :
        IsObjectStorage (create_fallback_object_storage primary fallback ensure_synced) (view pc fc)
    unfolding Fallback.put Fallback.get Fallback.exists Fallback.delete
    create_fallback_object_storage-IsObjectStorage = record {
      get_lem = λ key s found result.
          let s' = ready primary fallback ensure_synced s in
          found_lem key s' _ (λ x e. p.get_lem key s'.primary x e) found result ∙ kept s key;
      exists_lem = λ key s b result.
          let s' = ready primary fallback ensure_synced s in
          exists_lem key s' _ (λ x e. p.exists_lem key s'.primary x e) b result
          ∙ ap is_some (kept s key);
      get_keeps = λ key s j.
          let s' = ready primary fallback ensure_synced s in
          found_keeps key s' _ (λ i. p.get_keeps key s'.primary i) j ∙ kept s j;
      exists_keeps = λ key s j.
          let s' = ready primary fallback ensure_synced s in
          exists_keeps key s' _ (λ i. p.exists_keeps key s'.primary i) j ∙ kept s j;
      put_lem = λ key bytes type s object result j.
          put_view key (bytes, type) s _ j
            (p.put_lem key bytes type (ready primary fallback ensure_synced s).primary object result
              j);
      put_failed_lem = λ key bytes type s e result j.
          put_failed_view key (bytes, type) s _ j
            (p.put_failed_lem key bytes type (ready primary fallback ensure_synced s).primary e
              result j);
      delete_lem = λ key s result j. delete_view key s j result;
    }
