-- ===== src/Seeders/Run/Rerun.antt =====
-- What a second start does with the seeders that the first one ran.
use datamaster.Prelude.{
  arith, ◌≡◌, refl, sym, ap, ◌∙◌, Bool, true, false, List, [], ◌∷◌, String, if◌then◌else◌,
  Bool-cases, ◌⊎◌, inl, inr,
}
use mathlib.Core.Path.{subst}
use datamaster.Seeders.{Status, success, Container, Connector, bucket, has, record_key, avoid_run}
use datamaster.Seeders.Run.{
  Seeder, RunningMode, always, if_version_changed, skips_in, skips, finish, run_seeder,
}
use datamaster.Seeders.Recorded.{
  Recorded, AllSucceeded, AllSucceeded-Recorded, database_of, tracked_name, on_finish-Recorded,
  on_finish-Recorded_kept, on_finish-exist_in_db,
}

skips_in_known : (mode : RunningMode) (known : Bool) → skips_in mode known ≡ true → known ≡ true
skips_in_known always known e = ground arith
skips_in_known if_version_changed known e = e

module _ (connector : Connector) (model_name : String) where
  -- What the seeders of a start leave is in `existInDB` at a later one.
  pub record Remembers (c c' later : Container) : Type 0 where
    pub succeeded : AllSucceeded (bucket (database_of model_name) c'.to_save)
    pub known : (key : String) → has key c.exist_in_db ≡ true → has key later.exist_in_db ≡ true
    pub saved :
        (name version : String)
        → Recorded success name version (bucket (database_of model_name) c'.to_save)
        → has (record_key connector name version) later.exist_in_db ≡ true

  abbrev pub Stays : Container → Container → Type 0
  Stays c c' =
      (c'.exist_in_db ≡ c.exist_in_db)
      × ((status : Status) (name version : String)
          → Recorded status name version (bucket (database_of model_name) c.to_save)
          → Recorded status name version (bucket (database_of model_name) c'.to_save))

  module _ {W : Type 0} where
    -- The seeders of the model, one after the other.
    abbrev pub in_order : List (Seeder W) → W × Container → W × Container
    in_order [] state = state
    in_order (s ∷ seeders) state = in_order seeders (run_seeder connector s model_name state)

    -- The key of a seeder is in `existInDB`, or a record of it waits to be saved.
    abbrev pub IsCovered : Seeder W → Container → Type 0
    IsCovered s c =
        (avoid_run connector s.options.version s.options.name model_name c ≡ true)
        ⊎ ((status : Status) × Recorded status (tracked_name model_name s.options.name)
              s.options.version (bucket (database_of model_name) c.to_save))

    run_seeder_skipped :
        (s : Seeder W) (w : W) (c : Container)
        → skips connector s model_name c ≡ true
        → run_seeder connector s model_name (w, c) ≡ (w, c)
    unfolding run_seeder
    run_seeder_skipped s w c e =
        ap (λ b. if b then (w, c) else finish connector s model_name c (s.handler.call w)) e

    run_seeder-finish :
        (s : Seeder W) (w : W) (c : Container)
        → skips connector s model_name c ≡ false
        → run_seeder connector s model_name (w, c)
          ≡ finish connector s model_name c (s.handler.call w)
    unfolding run_seeder
    run_seeder-finish s w c e =
        ap (λ b. if b then (w, c) else finish connector s model_name c (s.handler.call w)) e

    run_seeder-Stays :
        (s : Seeder W) (w : W) (c : Container)
        → Stays c (run_seeder connector s model_name (w, c)).1
    run_seeder-Stays s w c = elim (Bool-cases (skips connector s model_name c)) [
      | inl e ↦
          subst (λ r. Stays c r.1) (sym (run_seeder_skipped s w c e))
            (refl, λ status name version h. h)
      | inr e ↦
          let (w', (status, duration)) = s.handler.call w in
          subst (λ r. Stays c r.1) (sym (run_seeder-finish s w c e))
            (
              on_finish-exist_in_db connector model_name status s.options.name s.options.version
                  duration c,
              on_finish-Recorded_kept connector model_name status s.options.name s.options.version
                  duration c,
            )
    ]

    skips-avoid_run :
        (s : Seeder W) (c : Container)
        → skips connector s model_name c ≡ true
        → avoid_run connector s.options.version s.options.name model_name c ≡ true
    unfolding skips
    skips-avoid_run s c e = skips_in_known s.options.running_mode _ e

    run_seeder-IsCovered :
        (s : Seeder W) (w : W) (c : Container)
        → IsCovered s (run_seeder connector s model_name (w, c)).1
    run_seeder-IsCovered s w c = elim (Bool-cases (skips connector s model_name c)) [
      | inl e ↦
          subst (λ r. IsCovered s r.1) (sym (run_seeder_skipped s w c e))
            (inl (skips-avoid_run s c e))
      | inr e ↦
          let (w', (status, duration)) = s.handler.call w in
          subst (λ r. IsCovered s r.1) (sym (run_seeder-finish s w c e))
            (inr (
              status,
              on_finish-Recorded connector model_name status s.options.name s.options.version
                  duration c,
            ))
    ]

    abbrev pub AllCovered : List (Seeder W) → Container → Type 0
    AllCovered [] c = Unit
    AllCovered (s ∷ seeders) c = IsCovered s c × AllCovered seeders c

    Stays-IsCovered :
        (s : Seeder W) (c c' : Container) → Stays c c' → IsCovered s c → IsCovered s c'
    unfolding avoid_run
    Stays-IsCovered s c c' h (inl e) = inl (ap (has _) h.0 ∙ e)
    Stays-IsCovered s c c' h (inr (status, r)) = inr (status, h.1 status _ _ r)

    in_order-Stays :
        (seeders : List (Seeder W)) (w : W) (c : Container) → Stays c (in_order seeders (w, c)).1
    in_order-Stays [] w c = (refl, λ status name version h. h)
    in_order-Stays (s ∷ seeders) w c =
        let (w', c') = run_seeder connector s model_name (w, c) in
        let first = run_seeder-Stays s w c in
        let rest = in_order-Stays seeders w' c' in
        (
          rest.0 ∙ first.0,
          λ status name version h. rest.1 status name version (first.1 status name version h),
        )

    in_order-AllCovered :
        (seeders : List (Seeder W)) (w : W) (c : Container)
        → AllCovered seeders (in_order seeders (w, c)).1
    in_order-AllCovered [] w c = tt
    in_order-AllCovered (s ∷ seeders) w c =
        let (w', c') = run_seeder connector s model_name (w, c) in
        (
          Stays-IsCovered s c' _ (in_order-Stays seeders w' c') (run_seeder-IsCovered s w c),
          in_order-AllCovered seeders w' c',
        )

    abbrev pub AllVersioned : List (Seeder W) → Type 0
    AllVersioned [] = Unit
    AllVersioned (s ∷ seeders) =
        (s.options.running_mode ≡ if_version_changed) × AllVersioned seeders

    IsCovered-avoid_run :
        (s : Seeder W) (c c' later : Container)
        → c'.exist_in_db ≡ c.exist_in_db
        → Remembers c c' later
        → IsCovered s c'
        → avoid_run connector s.options.version s.options.name model_name later ≡ true
    unfolding avoid_run
    IsCovered-avoid_run s c c' later e h (inl k) = h.known _ (sym (ap (has _) e) ∙ k)
    IsCovered-avoid_run s c c' later e h (inr (status, r)) = h.saved _ _ (
        AllSucceeded-Recorded status _ _ (bucket (database_of model_name) c'.to_save) h.succeeded r)

    avoid_run-skips :
        (s : Seeder W) (c : Container)
        → s.options.running_mode ≡ if_version_changed
        → avoid_run connector s.options.version s.options.name model_name c ≡ true
        → skips connector s model_name c ≡ true
    unfolding skips
    avoid_run-skips s c m e =
        ap
          (λ mode.
            skips_in mode (avoid_run connector s.options.version s.options.name model_name c))
          m
        ∙ e

    in_order_skipped :
        (seeders : List (Seeder W)) (w : W) (c c' later : Container)
        → c'.exist_in_db ≡ c.exist_in_db
        → Remembers c c' later
        → AllVersioned seeders
        → AllCovered seeders c'
        → in_order seeders (w, later) ≡ (w, later)
    in_order_skipped [] w c c' later e h m k = refl
    in_order_skipped (s ∷ seeders) w c c' later e h m k =
        ap (in_order seeders) (
          run_seeder_skipped s w later
            (avoid_run-skips s later m.0 (IsCovered-avoid_run s c c' later e h k.0)))
        ∙ in_order_skipped seeders w c c' later e h m.1 k.1

    -- When every seeder of a start succeeded, and a later start finds what was known before and the
    -- records that it saved, the same seeders, none in the mode `always`, change nothing there.
    pub in_order_rerun :
        (seeders : List (Seeder W)) (before after : W) (c later : Container)
        → AllVersioned seeders
        → Remembers c (in_order seeders (before, c)).1 later
        → in_order seeders (after, later) ≡ (after, later)
    in_order_rerun seeders before after c later m h =
        in_order_skipped seeders after c _ later (in_order-Stays seeders before c).0 h m
          (in_order-AllCovered seeders before c)
