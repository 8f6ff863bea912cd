-- ===== src/Storage/Sync/View.antt =====
-- The copy of local objects changes nothing that a client reads, and is complete.
use datamaster.Prelude.{
  ℕ, ◌≡◌, ◌⊎◌, inl, inr, refl, sym, ap, ◌∙◌, Bool, true, false, Option, none, some, List, [], ◌∷◌,
  String, String_discrete, ite, if_pos, if_neg, is_some, holds, if◌then◌else◌,
}
use datamaster.Storage.Encryption.{Result, ok, throw, StorageError}
use datamaster.Storage.Connector.{StoredObject}
use datamaster.Storage.Contract.{ObjectStorage, IsObjectStorage, Content, content_of, update}
use datamaster.Storage.Fallback.{Both}
use datamaster.Storage.Fallback.Refines.{first_of, view}
use datamaster.Storage.Sync.{migrated, copied, checked, sync_key, sync_keys, add_migrated, and_then}

module _ {A : Type 0} (key j : String) (before after copy : String → Option A) where
  -- A copy of an object to where there was none does not show.
  copy_view :
      (c : A)
      → before key ≡ none
      → copy key ≡ some c
      → (after j ≡ before j) ⊎ (after j ≡ update key (some c) before j)
      → first_of (after j) (copy j) ≡ first_of (before j) (copy j)
  copy_view c absent here (inl h) = rw h refl
  copy_view c absent here (inr h) = elim (String_discrete key j) [
    | yes q ↦
        let e = h ∙ if_pos (String_discrete key j) q (some c) (before j) in
        let b : before j ≡ none = rw (← q) absent in
        let l : copy j ≡ some c = rw (← q) here in rw (e, b, l) refl
    | no q ↦ let e = h ∙ if_neg (String_discrete key j) q (some c) (before j) in rw e refl
  ]

  copy_exact :
      (c : A)
      → before key ≡ none
      → copy key ≡ some c
      → after j ≡ update key (some c) before j
      → after j ≡ update key (first_of (before key) (copy key)) before j
  copy_exact c absent here h = rw (absent, here) h

  same_exact :
      first_of (before key) (copy key) ≡ before key
      → after j ≡ before j
      → after j ≡ update key (first_of (before key) (copy key)) before j
  same_exact same h = elim (String_discrete key j) [
    | yes q ↦
        h
        ∙ sym (
            if_pos (String_discrete key j) q (first_of (before key) (copy key)) (before j)
            ∙ same
            ∙ rw q refl)
    | no q ↦
        h ∙ sym (if_neg (String_discrete key j) q (first_of (before key) (copy key)) (before j))
  ]

-- The test whether a key is listed.
abbrev pub contains : List String → String → Bool
contains [] j = false
contains (key ∷ keys) j = if holds (String_discrete key j) then true else contains keys j

-- One more key.
contains_step :
    {A : Type 0} (key j : String) (rest : Bool) (f g h : String → A)
    → g j ≡ ite (String_discrete key j) (f key) (h j)
    → (if rest then f j else g j)
      ≡ (if (if holds (String_discrete key j) then true else rest) then f j else h j)
contains_step key j true f g h e =
    elim (String_discrete key j)
      as (λ (d : Dec (key ≡ j)). f j ≡ (if (if holds d then true else true) then f j else h j)) [
        | yes q ↦ refl
        | no q ↦ refl
      ]
contains_step key j false f g h e =
    e
    ∙ (elim (String_discrete key j)
        as (λ (d : Dec (key ≡ j)).
          ite d (f key) (h j) ≡ (if (if holds d then true else false) then f j else h j)) [
            | yes q ↦ ap f q
            | no q ↦ refl
          ])

absent_lem : {A : Type 0} (o : Option A) → false ≡ is_some o → o ≡ none
absent_lem none h = refl
absent_lem (some a) h = absurd (cc)

present_lem : {A : Type 0} (o b : Option A) → true ≡ is_some o → first_of o b ≡ o
present_lem none b h = absurd (cc)
present_lem (some a) b h = refl

module _ {Bytes : Type 0} (primary local : ObjectStorage Bytes)
    (pc : primary.Store → String → Option (Content Bytes))
    (lc : local.Store → String → Option (Content Bytes)) (p : IsObjectStorage primary pc)
    (l : IsObjectStorage local lc) where
  abbrev pub Stores : Type 0
  Stores = Both primary.Store local.Store Bool

  abbrev pub look : Stores → String → Option (Content Bytes)
  look s j = view pc lc s j

  -- A step that changes nothing that is read, and that, where it ends well, leaves the object of
  -- the key in the primary storage.
  abbrev Copies : String → Stores → Stores × Result ℕ → Type 0
  Copies key s r =
      ((j : String) → look r.0 j ≡ look s j)
      × ((n : ℕ)
          → r.1 ≡ ok n
          → (j : String) → pc r.0.primary j ≡ update key (look s key) (pc s.primary) j)

  migrated-Copies :
      (key : String) (content : Content Bytes) (s : Stores)
      (r : primary.Store × Result StoredObject)
      → pc s.primary key ≡ none
      → lc s.fallback key ≡ some content
      → ((object : StoredObject)
          → r.1 ≡ ok object
          → (j : String) → pc r.0 j ≡ update key (some content) (pc s.primary) j)
      → ((e : StorageError)
          → r.1 ≡ throw e
          → (j : String)
          → (pc r.0 j ≡ pc s.primary j) ⊎ (pc r.0 j ≡ update key (some content) (pc s.primary) j))
      → Copies key s (migrated primary local s r)
  unfolding migrated
  migrated-Copies key content s (p', throw e) absent here done failed = (
    λ j.
        copy_view key j (pc s.primary) (pc p') (lc s.fallback) content absent here
          (failed e refl j),
    λ n h. absurd (cc),
  )
  migrated-Copies key content s (p', ok object) absent here done failed = (
    λ j.
        copy_view key j (pc s.primary) (pc p') (lc s.fallback) content absent here
          (inr (done object refl j)),
    λ n h j.
        copy_exact key j (pc s.primary) (pc p') (lc s.fallback) content absent here
          (done object refl j),
  )

  -- From a state whose stores read the same.
  Copies-from :
      (key : String) (s s' : Stores) (r : Stores × Result ℕ)
      → ((j : String) → pc s'.primary j ≡ pc s.primary j)
      → ((j : String) → lc s'.fallback j ≡ lc s.fallback j)
      → Copies key s' r
      → Copies key s r
  Copies-from key s s' r same_p same_l (keeps, exact) =
      let same : (j : String) → look s' j ≡ look s j = λ j. rw (same_p j, same_l j) refl in
      (λ j. keeps j ∙ same j, λ n h j. exact n h j ∙ rw (same key, same_p j) refl)

  -- A step that leaves the stores as they are to a reader.
  idle-Copies :
      (key : String) (s s' : Stores) (m : Result ℕ)
      → ((j : String) → pc s'.primary j ≡ pc s.primary j)
      → ((j : String) → lc s'.fallback j ≡ lc s.fallback j)
      → ((n : ℕ) → m ≡ ok n → look s key ≡ pc s.primary key)
      → Copies key s (s', m)
  idle-Copies key s s' m same_p same_l same = (
    λ j. rw (same_p j, same_l j) refl,
    λ n h j. same_exact key j (pc s.primary) (pc s'.primary) (lc s.fallback) (same n h) (same_p j),
  )

  copied-Copies :
      (key : String) (s : Stores) (r : local.Store × Result (Option (Bytes × StoredObject)))
      → pc s.primary key ≡ none
      → ((j : String) → lc r.0 j ≡ lc s.fallback j)
      → ((found : Option (Bytes × StoredObject))
          → r.1 ≡ ok found
          → content_of found ≡ lc s.fallback key)
      → Copies key s (copied primary local key s r)
  unfolding copied
  copied-Copies key s (l', throw e) absent same here =
      idle-Copies key s (record s { fallback = l' }) (throw e) (λ j. refl) same (λ n h. absurd (cc))
  copied-Copies key s (l', ok none) absent same here =
      idle-Copies key s (record s { fallback = l' }) (ok 0) (λ j. refl) same
        (λ n h. rw (absent, ← here none refl) refl)
  copied-Copies key s (l', ok (some (bytes, object))) absent same here =
      let s' : Stores = record s { fallback = l' } in
      Copies-from key s s'
        (migrated primary local s' (primary.put key bytes object.content_type s.primary))
        (λ j. refl) same
        (migrated-Copies key (bytes, object.content_type) s'
          (primary.put key bytes object.content_type s.primary) absent
          (same key ∙ sym (here (some (bytes, object)) refl))
          (λ o h j. p.put_lem key bytes object.content_type s.primary o h j)
          (λ e h j. p.put_failed_lem key bytes object.content_type s.primary e h j))

  checked-Copies :
      (key : String) (s : Stores) (r : primary.Store × Result Bool)
      → ((j : String) → pc r.0 j ≡ pc s.primary j)
      → ((b : Bool) → r.1 ≡ ok b → b ≡ is_some (pc s.primary key))
      → Copies key s (checked primary local key s r)
  unfolding checked
  checked-Copies key s (p', throw e) same there =
      idle-Copies key s (record s { primary = p' }) (throw e) same (λ j. refl) (λ n h. absurd (cc))
  checked-Copies key s (p', ok true) same there =
      idle-Copies key s (record s { primary = p' }) (ok 0) same (λ j. refl)
        (λ n h. present_lem (pc s.primary key) (lc s.fallback key) (there true refl))
  checked-Copies key s (p', ok false) same there =
      let s' : Stores = record s { primary = p' } in
      Copies-from key s s' (copied primary local key s' (local.get key s.fallback)) same (λ j. refl)
        (copied-Copies key s' (local.get key s.fallback)
          (same key ∙ absent_lem (pc s.primary key) (there false refl)) (l.get_keeps key s.fallback)
          (l.get_lem key s.fallback))

  sync_key-Copies : (key : String) (s : Stores) → Copies key s (sync_key primary local key s)
  unfolding sync_key
  sync_key-Copies key s =
      checked-Copies key s (primary.exists key s.primary) (p.exists_keeps key s.primary)
        (p.exists_lem key s.primary)

  add_migrated_state : (n : ℕ) (r : Stores × Result ℕ) → (add_migrated primary local n r).0 ≡ r.0
  add_migrated_state n (s, throw e) = refl
  add_migrated_state n (s, ok m) = refl

  add_migrated_ok :
      (n m : ℕ) (r : Stores × Result ℕ)
      → (add_migrated primary local n r).1 ≡ ok m
      → (k : ℕ) × (r.1 ≡ ok k)
  add_migrated_ok n m (s, throw e) h = absurd (cc)
  add_migrated_ok n m (s, ok k) h = (k, refl)

  -- After the loop over the keys a client reads what it did before; where it ended well, the
  -- primary storage has whatever a client reads under the keys, and no other object has changed.
  abbrev pub Synced : List String → Stores → Stores × Result ℕ → Type 0
  Synced keys s r =
      ((j : String) → look r.0 j ≡ look s j)
      × ((n : ℕ)
          → r.1 ≡ ok n
          → (j : String)
          → pc r.0.primary j ≡ (if contains keys j then look s j else pc s.primary j))

  next-Synced :
      (key : String) (keys : List String) (s : Stores) (r : Stores × Result ℕ)
      → Copies key s r
      → Synced keys r.0 (sync_keys primary local keys r.0)
      → Synced (key ∷ keys) s (and_then primary local r (sync_keys primary local keys))
  next-Synced key keys s (s', throw e) (keeps, exact) rest = (keeps, λ n h. absurd (cc))
  next-Synced key keys s (s', ok m) (keeps, exact) (keeps', exact') = (
    λ j. rw (add_migrated_state m (sync_keys primary local keys s')) (keeps' j ∙ keeps j),
    λ n h j.
        let (k, done) = add_migrated_ok m n (sync_keys primary local keys s') h in
        let more : pc (sync_keys primary local keys s').0.primary j
            ≡ (if contains keys j then look s j else pc s'.primary j) =
          exact' k done j ∙ ap (λ x. if contains keys j then x else pc s'.primary j) (keeps j) in
        rw (add_migrated_state m (sync_keys primary local keys s')) (
          more
          ∙ contains_step key j (contains keys j) (look s) (pc s'.primary) (pc s.primary)
              (exact m refl j)),
  )

  pub sync_keys-Synced :
      (keys : List String) (s : Stores) → Synced keys s (sync_keys primary local keys s)
  unfolding sync_keys
  sync_keys-Synced [] s = (λ j. refl, λ n h j. refl)
  sync_keys-Synced (key ∷ keys) s =
      next-Synced key keys s (sync_key primary local key s) (sync_key-Copies key s)
        (sync_keys-Synced keys (sync_key primary local key s).0)
