-- ===== src/HiveMetastore/TableMigrate/Batches.antt =====
-- hive_metastore/table_migrate.py: the entry point, which makes a task for every table of a class and
-- runs the tasks of the views batch by batch. The crawlers, the refresher and Threads.strict are
-- parameters.
use databricks_ucx.Prelude.{
  ℕ, String, ◌==◌, Bool, ◌||◌, List, [], ◌∷◌, ◌++◌, map, Option, none, some, if◌then◌else◌,
}
use databricks_ucx.Dict.{Dict}
use databricks_ucx.Exec.{Result, ok, and_then, Exec, pure, raise, ◌>>=◌}
use databricks_ucx.HiveMetastore.Tables.{
  What, view, db_dataset, unknown, what, AclMigrationWhat, What_eq,
}
use databricks_ucx.HiveMetastore.Mapping.{TableToMigrate}
use databricks_ucx.HiveMetastore.MigrationStatus.{TableView}
use databricks_ucx.HiveMetastore.Views.{ViewToMigrate}
use databricks_ucx.HiveMetastore.Views.Sequencer.{
  Outcome, returns, raises, out_of_fuel, sequence_batches, collect_views,
}
use databricks_ucx.HiveMetastore.Grants.{Grant}
use databricks_ucx.HiveMetastore.Grants.Cluster.{Mount}
use databricks_ucx.WorkspaceAccess.Groups.{MigratedGroup}
use databricks_ucx.HiveMetastore.TableMigrate.{MigrateApi, of_result, if_else}
use databricks_ucx.HiveMetastore.TableMigrate.Acl.{compute_grants}
use databricks_ucx.HiveMetastore.TableMigrate.Migrate.{migrate_table, migrate_view}

-- filter(lambda t: t.src.what == what, tables_to_migrate)
unfoldable pub in_scope : What → List TableToMigrate → Result (List TableToMigrate)
unfolding what
in_scope w [] = ok []
in_scope w (t ∷ tables) =
    let rest = in_scope w tables in
    and_then (what t.src) λ v. and_then rest λ later. ok (if v == w then t ∷ later else later)

-- What the method reads before it makes the tasks.
pub record Snapshots (W : Type 0) : Type 0 where
  pub seen_tables : Exec W (Dict String String)
  pub tables_to_migrate : Exec W (List TableToMigrate)
  pub all_grants : Exec W (List Grant)
  pub principal_grants : Exec W (List Grant)
  pub migrated_groups : Exec W (List MigratedGroup)
  pub mounts : Exec W (List Mount)

-- What the grants of a table are computed from.
pub record GrantsInput : Type 0 where
  pub strategy : List AclMigrationWhat
  pub grants_to_migrate : List Grant
  pub grants_of_principals : List Grant
  pub groups : List MigratedGroup

abbrev pub grants_for : GrantsInput → TableToMigrate → List Grant
grants_for input t =
    compute_grants t.src input.strategy input.grants_to_migrate input.grants_of_principals
      input.groups

module _ {W : Type 0} (api : MigrateApi W) (snapshots : Snapshots W)
    (strict : List (Exec W Bool) → Exec W (List Bool)) where
  -- None takes no snapshot, and grants nothing.
  unfoldable pub grants_input : Option (List AclMigrationWhat) → Exec W GrantsInput
  grants_input none =
      pure
        (record { strategy = []; grants_to_migrate = []; grants_of_principals = []; groups = [] })
  grants_input (some acl_strategy) = do
    grants ← snapshots.all_grants
    migrated ← snapshots.migrated_groups
    of_principals ← snapshots.principal_grants
    pure (record {
      strategy = acl_strategy;
      grants_to_migrate = grants;
      grants_of_principals = of_principals;
      groups = migrated;
    })

  -- _migrate_tables
  unfoldable pub migrate_tables_of :
      What → Dict String String → GrantsInput → List Mount → Bool → Exec W (List (Exec W Bool))
  unfolding compute_grants migrate_table
  migrate_tables_of w seen input mounts in_place = do
    tables ← snapshots.tables_to_migrate
    chosen ← of_result (in_scope w tables)
    let tasks = map (λ t. migrate_table api seen t (grants_for input t) mounts in_place) chosen
    results ← strict tasks
    pure tasks

  module _ (dependencies : ViewToMigrate → Result (List TableView)) where
    -- The loop over the batches: the tasks of a batch have ended before the next batch starts.
    unfoldable pub migrate_batches :
        Dict String String → GrantsInput → List (List ViewToMigrate) → Exec W (List (Exec W Bool))
    unfolding compute_grants migrate_view
    migrate_batches seen input [] = pure []
    migrate_batches seen input (batch ∷ batches) =
        let tasks =
          map (λ v. migrate_view api seen v (dependencies v) (grants_for input v)) batch in
        strict tasks >>= λ results.
        migrate_batches seen input batches >>= λ later. pure (tasks ++ later)

    -- A sequencer that runs out of fuel yields no batches, and that outcome is returned.
    abbrev pub with_batches :
        Dict String String
        → GrantsInput
        → Outcome (List (List ViewToMigrate))
        → Exec W (Outcome (List (Exec W Bool)))
    with_batches seen input (returns batches) = do
      tasks ← migrate_batches seen input batches
      pure (returns tasks)
    with_batches seen input (raises e) = raise e
    with_batches seen input out_of_fuel = pure out_of_fuel

    -- _migrate_views
    unfoldable pub migrate_views :
        ℕ → Dict String String → GrantsInput → Exec W (Outcome (List (Exec W Bool)))
    unfolding migrate_batches sequence_batches collect_views
    migrate_views fuel seen input = do
      tables ← snapshots.tables_to_migrate
      index ← api.index_full_refresh
      with_batches seen input (sequence_batches dependencies fuel index (collect_views [] tables))

    abbrev pub some_returns :
        Exec W (List (Exec W Bool)) → Exec W (Option (Outcome (List (Exec W Bool))))
    some_returns m = m >>= λ tasks. pure (some (returns tasks))

    -- migrate_tables, for a class that can be migrated
    unfoldable pub migrate_class :
        ℕ
        → What
        → Option (List AclMigrationWhat)
        → Bool
        → Bool
        → Exec W (Option (Outcome (List (Exec W Bool))))
    unfolding grants_input migrate_tables_of migrate_views
    migrate_class fuel w acl_strategy with_mounts in_place = do
      input ← grants_input acl_strategy
      seen ← snapshots.seen_tables
      mounts ← if_else with_mounts snapshots.mounts (pure [])
      if_else (w == view) (migrate_views fuel seen input >>= λ tasks. pure (some tasks))
          (some_returns (migrate_tables_of w seen input mounts in_place))

    -- migrate_tables
    unfoldable pub migrate_tables :
        ℕ
        → What
        → Option (List AclMigrationWhat)
        → Bool
        → Bool
        → Exec W (Option (Outcome (List (Exec W Bool))))
    unfolding migrate_class
    migrate_tables fuel w acl_strategy with_mounts in_place =
        if_else (w == db_dataset || w == unknown) (pure none)
          (migrate_class fuel w acl_strategy with_mounts in_place)
