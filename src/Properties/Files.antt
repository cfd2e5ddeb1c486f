-- ===== src/Properties/Files.antt =====
-- The parts of presto_properties.go that use the platform: quantities, and the order of maps.
use steerd_presto_operator.Base.{String, ◌<>◌, Bool, [], ◌∷◌, ◌==◌, if◌then◌else◌}
use steerd_presto_operator.Base.Int.{pos, div64, format_int}
use steerd_presto_operator.Base.Dict.{insert_all}
use steerd_presto_operator.Exec.Fallible.{operator_error, message, Result, ok, err, ◌>>=◌}
use steerd_presto_operator.Kube.{StringMap, ConfigMap, no_meta}
use steerd_presto_operator.Resource.{Presto}
use steerd_presto_operator.Platform.{Platform}
use steerd_presto_operator.Names.{
  get_coordinator_internal_name, get_owner_reference, get_presto_path,
}
use steerd_presto_operator.Properties.{
  coordinator_node_props_map, worker_node_props_map, default_jvm_props, render, add_props,
  get_system_props, worker_system_props,
}

-- `strings.ReplaceAll(shutdownScriptContent, "{MOUNT_PATH}", path)`. The script of constants.go
-- names the mount path twice.
unfoldable pub shutdown_script : String → String
shutdown_script path =
    "\n"
    <> ("#!/bin/bash\n"
        <> ("# This works for worker only. Coordinator doesn't support graceful shutdown.\n"
            <> ("# This script will block until the server has actually shutdown.\n"
                <> ("set -x\n"
                    <> ("http_port=\"$(cat "
                        <> (path
                            <> ("/config.properties | grep 'http-server.http.port' | sed 's/^.*=\\(.*\\)$/\\1/')\"\n"
                                <> ("https_port=\"$(cat "
                                    <> (path
                                        <> ("/config.properties | grep 'http-server.https.port' | sed 's/^.*=\\(.*\\)$/\\1/')\"\n"
                                            <> ("\n"
                                                <> ("if [ -n \"$http_port\" ] ; then\n"
                                                    <> ("    res=$(curl -s -o /dev/null -w \"%{http_code}\"  -XPUT --data '\"SHUTTING_DOWN\"' -H \"Content-type: application/json\" http://localhost:${http_port}/v1/info/state)\n"
                                                        <> ("fi\n"
                                                            <> ("\n"
                                                            <> ("if [ -z \"$res\" -o \"$res\" != \"200\" ] && [ -n \"$https_port\" ]; then\n"
                                                            <> ("    res=$(curl -k -s -o /dev/null -w \"%{http_code}\"  -XPUT --data '\"SHUTTING_DOWN\"' -H \"Content-type: application/json\" https://localhost:${https_port}/v1/info/state)\n"
                                                            <> ("fi\n"
                                                            <> ("\n"
                                                            <> ("if [ -z \"$res\" -o \"$res\" != \"200\" ] ; then\n"
                                                            <> ("  # Failed to send the shutdown request.\n"
                                                            <> ("  exit -1\n"
                                                            <> ("else\n"
                                                            <> ("  # Server is shutting down. Block until the server is actually down.\n"
                                                            <> ("  while curl http://localhost:${http_port}/v1/info/state; do\n"
                                                            <> ("    sleep 3\n"
                                                            <> ("  done\n"
                                                            <> "fi\n")))))))))))))))))))))))))))

module _ (p : Platform) where
  -- `resource.ParseQuantity`, with the error that the operator reports.
  unfoldable pub parse_limit : String → String → Result p.Quantity
  parse_limit field text = elim (p.parse_quantity text) [
    | ok quantity ↦ ok quantity
    | err e ↦
        err
          (operator_error ("cannot parse " <> (field <> (": '" <> (text <> ("': " <> message e))))))
  ]

  -- The common body of `coordinatorJVMConfigMap` and `workerJVMConfigMap`.
  unfoldable pub jvm_config_map : String → String → String → Result String
  unfolding parse_limit
  jvm_config_map field memory_limit additional = do
    memlimit ← parse_limit field memory_limit
    let memory_mb = div64 (div64 (p.quantity_value memlimit) (pos 1024)) (pos 1024)
    let sb = default_jvm_props <> ("-Xmx" <> (format_int memory_mb <> "m\n"))
    ok (if additional == "" then sb else sb <> (additional <> "\n"))

  unfoldable pub coordinator_jvm_config_map : Presto → Result String
  unfolding jvm_config_map
  coordinator_jvm_config_map presto =
      jvm_config_map "presto.Spec.Coordinator.MemoryLimit" presto.spec.coordinator.memory_limit
        presto.spec.coordinator.additional_jvm_config

  unfoldable pub worker_jvm_config_map : Presto → Result String
  unfolding jvm_config_map
  worker_jvm_config_map presto =
      jvm_config_map "presto.Spec.Worker.MemoryLimit" presto.spec.worker.memory_limit
        presto.spec.worker.additional_jvm_config

  unfoldable pub coordinator_config_props_map : Presto → Result String
  coordinator_config_props_map presto = do
    system_props ← get_system_props presto (get_coordinator_internal_name presto.status.uuid)
    add_props system_props (p.range presto.spec.coordinator.additional_props)
        (render (p.range system_props))

  unfoldable pub worker_config_props_map : Presto → Result String
  worker_config_props_map presto =
      let system_props = worker_system_props presto in
      add_props system_props (p.range presto.spec.worker.additional_props)
        (render (p.range system_props))

  unfoldable pub build_config_map : Presto → Bool → String → StringMap → Result ConfigMap
  unfolding coordinator_config_props_map worker_config_props_map coordinator_jvm_config_map
      worker_jvm_config_map
  build_config_map presto is_coordinator config_map_name labels = do
    let node_properties =
        if is_coordinator then coordinator_node_props_map else worker_node_props_map
    config_properties ←
        (if is_coordinator
          then coordinator_config_props_map presto
          else worker_config_props_map presto)
    jvm_config ←
        (if is_coordinator then coordinator_jvm_config_map presto else worker_jvm_config_map presto)
    let properties_files : StringMap =
        ("node.properties", node_properties)
        ∷ ("config.properties", config_properties)
        ∷ ("jvm.config", jvm_config)
        ∷ ("presto_shutdown.sh", shutdown_script (get_presto_path presto))
        ∷ []
    ok (record {
      meta = record no_meta {
        name = config_map_name;
        namespace = presto.namespace;
        labels = labels;
        owner_references = get_owner_reference presto ∷ [];
      };
      entries = insert_all presto.spec.additional_presto_prop_files properties_files;
    })
