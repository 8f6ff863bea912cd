-- ===== src/Storage/Sync/Complete.antt =====
-- `ensureLocalObjectsSynced` before the operations of the combined storage.
use datamaster.Prelude.{
  ℕ, ◌≡◌, refl, sym, ap, ◌∙◌, Bool, true, false, Option, some, List, String, if◌then◌else◌,
  Bool-cases, inl, inr,
}
use datamaster.Storage.Encryption.{Result, ok, throw}
use datamaster.Storage.Contract.{ObjectStorage, IsObjectStorage, Content}
use datamaster.Storage.Fallback.{Both, ready, create_fallback_object_storage}
use datamaster.Storage.Fallback.Refines.{view, create_fallback_object_storage-IsObjectStorage}
use datamaster.Storage.Sync.{
  Listing, local_object_keys, sync_keys, walk_failed, remembered, sync_local_objects,
  ensure_local_objects_synced,
}
use datamaster.Storage.Sync.View.{contains, sync_keys-Synced}

module _ {Bytes : Type 0} (primary local : ObjectStorage Bytes)
    (pc : primary.Store → String → Option (Content Bytes))
    (lc : local.Store → String → Option (Content Bytes)) (p : IsObjectStorage primary pc)
    (l : IsObjectStorage local lc) (root : local.Store → Listing) where
  abbrev Stores : Type 0
  Stores = Both primary.Store local.Store Bool

  failed_view :
      (failed : Bool) (r : Stores × Result ℕ) → (walk_failed primary local failed r).0 ≡ r.0
  failed_view false r = refl
  failed_view true (s, throw e) = refl
  failed_view true (s, ok n) = refl

  failed_ok :
      (failed : Bool) (n : ℕ) (r : Stores × Result ℕ)
      → (walk_failed primary local failed r).1 ≡ ok n
      → (failed ≡ false) × (r.1 ≡ ok n)
  failed_ok false n r h = (refl, h)
  failed_ok true n (s, throw e) h = absurd (cc)
  failed_ok true n (s, ok m) h = absurd (cc)

  abbrev keys_of : Stores → List String
  keys_of s = (local_object_keys "" (root s.fallback)).0

  sync_view :
      (s : Stores) (j : String)
      → view pc lc (sync_local_objects primary local root s).0 j ≡ view pc lc s j
  unfolding sync_local_objects
  sync_view s j =
      ap (λ (u : Stores). view pc lc u j) (failed_view (local_object_keys "" (root s.fallback)).1 _)
      ∙ (sync_keys-Synced primary local pc lc p l (keys_of s) s).0 j

  view-remembered :
      (r : Stores × Result ℕ) (j : String)
      → view pc lc (remembered primary local root r).0 j ≡ view pc lc r.0 j
  view-remembered (s, throw e) j = refl
  view-remembered (s, ok n) j = refl

  ensure_first :
      (s : Stores)
      → s.memo ≡ false
      → ensure_local_objects_synced primary local root s
        ≡ remembered primary local root (sync_local_objects primary local root s)
  unfolding ensure_local_objects_synced
  ensure_first s e =
      ap
        (λ b.
          if b
          then (s, ok tt)
          else remembered primary local root (sync_local_objects primary local root s))
        e

  ensure_again :
      (s : Stores) → s.memo ≡ true → ensure_local_objects_synced primary local root s ≡ (s, ok tt)
  unfolding ensure_local_objects_synced
  ensure_again s e =
      ap
        (λ b.
          if b
          then (s, ok tt)
          else remembered primary local root (sync_local_objects primary local root s))
        e

  ensure_view :
      (s : Stores) (j : String)
      → view pc lc (ensure_local_objects_synced primary local root s).0 j ≡ view pc lc s j
  ensure_view s j = elim (Bool-cases s.memo) [
    | inl done ↦ ap (λ (r : Stores × Result (Unit {0})). view pc lc r.0 j) (ensure_again s done)
    | inr not_yet ↦
        ap (λ (r : Stores × Result (Unit {0})). view pc lc r.0 j) (ensure_first s not_yet)
        ∙ view-remembered (sync_local_objects primary local root s) j
        ∙ sync_view s j
  ]

  view-ready :
      (s : Stores) (j : String)
      → view pc lc (ready primary local (some (ensure_local_objects_synced primary local root)) s) j
        ≡ view pc lc s j
  unfolding ready
  view-ready s j = ensure_view s j

  -- The primary storage with a fallback on the local one, which copies the local objects before its
  -- operations, is an object storage as `ObjectStorage` promises, if both are: its contents are the
  -- primary storage's and, where that has nothing under a key, the local one's. So a copy changes
  -- nothing that a client reads, also one that fails half way; a write and a removal that succeed
  -- take effect under their key alone.
  pub create_fallback_object_storage-ensure_local_objects_synced :
      IsObjectStorage
        (create_fallback_object_storage primary local
          (some (ensure_local_objects_synced primary local root)))
        (view pc lc)
  create_fallback_object_storage-ensure_local_objects_synced =
      create_fallback_object_storage-IsObjectStorage primary local pc lc p l
        (some (ensure_local_objects_synced primary local root)) view-ready

  remembered_memo :
      (r : Stores × Result ℕ)
      → (remembered primary local root r).1 ≡ ok tt
      → (n : ℕ) × (r.1 ≡ ok n)
        × ((remembered primary local root r).0.memo ≡ true)
        × ((remembered primary local root r).0.primary ≡ r.0.primary)
  remembered_memo (s, throw e) h = absurd (cc)
  remembered_memo (s, ok n) h = (n, refl, refl, refl)

  -- A first copy that returns has met no error on its walk; afterwards the primary storage has,
  -- under every key that the walk found, what a client read there, hence the local object where it
  -- had none itself, and its other objects are what they were. A second call changes nothing.
  pub ensure_local_objects_synced_complete :
      (s : Stores)
      → s.memo ≡ false
      → (ensure_local_objects_synced primary local root s).1 ≡ ok tt
      → (let s' = (ensure_local_objects_synced primary local root s).0 in
          let (keys, failed) = local_object_keys "" (root s.fallback) in
          (failed ≡ false)
          × ((j : String)
              → pc s'.primary j ≡ (if contains keys j then view pc lc s j else pc s.primary j))
          × (ensure_local_objects_synced primary local root s' ≡ (s', ok tt)))
  unfolding sync_local_objects
  ensure_local_objects_synced_complete s first h =
      let step = ensure_first s first in
      let done : (remembered primary local root (sync_local_objects primary local root s)).1
          ≡ ok tt =
        sym (ap (λ (r : Stores × Result (Unit {0})). r.1) step) ∙ h in
      let (n, synced, memo, same) =
        remembered_memo (sync_local_objects primary local root s) done in
      let (fine, copied) =
        failed_ok (local_object_keys "" (root s.fallback)).1 n
          (sync_keys primary local (keys_of s) s) synced in
      let kept =
        failed_view (local_object_keys "" (root s.fallback)).1
          (sync_keys primary local (keys_of s) s) in
      rw step (
        fine,
        (λ j.
            ap (λ x. pc x j) same
            ∙ ap (λ (u : Stores). pc u.primary j) kept
            ∙ (sync_keys-Synced primary local pc lc p l (keys_of s) s).1 n copied j),
        ensure_again _ memo,
      )
