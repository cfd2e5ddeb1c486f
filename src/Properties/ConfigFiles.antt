-- ===== src/Properties/ConfigFiles.antt =====
-- Which files the config maps of the coordinator and of the workers hold.
use steerd_presto_operator.Base.{
  String, ◌≡◌, refl, Bool, Option, none, some, [], ◌∷◌, if◌then◌else◌, arith, eq_iff,
}
use steerd_presto_operator.Base.Dict.{NodupKeys, insert, insert_all, lookup, lookup-insert}
use steerd_presto_operator.Exec.Fallible.{Result, ok, >>=-eq-ok}
use steerd_presto_operator.Kube.{ConfigMap, StringMap}
use steerd_presto_operator.Resource.{Presto}
use steerd_presto_operator.Platform.{Platform}
use steerd_presto_operator.Names.{get_presto_path}
use steerd_presto_operator.Properties.{coordinator_node_props_map, worker_node_props_map}
use steerd_presto_operator.Properties.Files.{
  build_config_map, coordinator_config_props_map, coordinator_jvm_config_map, shutdown_script,
  worker_config_props_map, worker_jvm_config_map,
}

abbrev pub or_else : Option String → Option String → Option String
or_else (some text) other = some text
or_else none other = other

lookup-insert_all :
    (asked : String) (m onto : StringMap)
    → NodupKeys m
    → lookup asked (insert_all m onto) ≡ or_else (lookup asked m) (lookup asked onto)
unfolding insert_all lookup
lookup-insert_all asked [] onto u = refl
lookup-insert_all asked ((key, value) ∷ rest) onto (fresh, u) =
    let ih = lookup-insert_all asked rest (insert key value onto) u in
    rw (ih, lookup-insert key asked value onto) (ground (arith, eq_iff key asked))

-- The four files that every server has.
abbrev pub standard_files : Presto → Bool → String → String → StringMap
standard_files presto is_coordinator config jvm =
    (
      "node.properties",
      if is_coordinator then coordinator_node_props_map else worker_node_props_map,
    )
    ∷ ("config.properties", config)
    ∷ ("jvm.config", jvm)
    ∷ ("presto_shutdown.sh", shutdown_script (get_presto_path presto))
    ∷ []

module _ (p : Platform) (presto : Presto) (is_coordinator : Bool) where
  abbrev pub config_props : Result String
  config_props =
      if is_coordinator
      then coordinator_config_props_map p presto
      else worker_config_props_map p presto

  abbrev pub jvm_props : Result String
  jvm_props =
      if is_coordinator then coordinator_jvm_config_map p presto else worker_jvm_config_map p presto

  -- If the keys of the resource's additional files are distinct, and the config map can be built:
  -- its configuration and its JVM options could be made, and each file is the additional file of this
  -- name, where there is one, and otherwise the standard file of this name, where there is one.
  pub lookup-build_config_map :
      (name asked : String) (labels : StringMap) {cm : ConfigMap}
      → NodupKeys presto.spec.additional_presto_prop_files
      → build_config_map p presto is_coordinator name labels ≡ ok cm
      → (config jvm : String) × (config_props ≡ ok config)
        × (jvm_props ≡ ok jvm)
        × (lookup asked cm.entries
            ≡ or_else
                (lookup asked presto.spec.additional_presto_prop_files)
                (lookup asked (standard_files presto is_coordinator config jvm)))
  unfolding build_config_map
  lookup-build_config_map name asked labels u h =
      let (config, e1, h1) = >>=-eq-ok config_props _ h in
      let (jvm, e2, h2) = >>=-eq-ok jvm_props _ h1 in
      let files = standard_files presto is_coordinator config jvm in
      let found = lookup-insert_all asked presto.spec.additional_presto_prop_files files u in
      (config, jvm, e1, e2, cc (h2, found))
