-- ===== src/Properties.antt =====
-- pkg/controller/presto/presto_properties.go: the files of the coordinator's and the workers'
-- config maps. A `strings.Builder` is the text written so far.
pub mod Files
pub mod Laws
pub mod ConfigFiles
use steerd_presto_operator.Base.{String, ◌<>◌, [], ◌∷◌, ◌==◌, if◌then◌else◌}
use steerd_presto_operator.Base.Int.{ℤ, format_int}
use steerd_presto_operator.Base.Dict.{has}
use steerd_presto_operator.Exec.Fallible.{Error, operator_error, Result, ok, err}
use steerd_presto_operator.Kube.{StringMap}
use steerd_presto_operator.Resource.{Presto}
use steerd_presto_operator.Names.{get_coordinator_internal_name}
use steerd_presto_operator.Ports.{get_http_port, presto_port}

abbrev pub https_vol_path : String
https_vol_path = "/etc/httpssecret"

unfoldable pub node_props_map : String
node_props_map = "node.environment=prestoproduction\n" <> "node.data-dir=/data/presto\n"

-- `coordinatorNodePropsMap` and `workerNodePropsMap` have the same body.
abbrev pub coordinator_node_props_map : String
coordinator_node_props_map = node_props_map

abbrev pub worker_node_props_map : String
worker_node_props_map = node_props_map

-- What `addDefaultJVMProps` writes.
unfoldable pub default_jvm_props : String
default_jvm_props =
    "-server\n"
    <> ("-XX:-UseBiasedLocking\n"
        <> ("-XX:+UseG1GC\n"
            <> ("-XX:G1HeapRegionSize=32M\n"
                <> ("-XX:+ExplicitGCInvokesConcurrent\n"
                    <> ("-XX:+ExitOnOutOfMemoryError\n"
                        <> ("-XX:+UseGCOverheadLimit\n"
                            <> ("-XX:+HeapDumpOnOutOfMemoryError\n"
                                <> ("-XX:ReservedCodeCacheSize=512M\n"
                                    <> ("-Djdk.attach.allowAttachSelf=true\n"
                                        <> "-Djdk.nio.maxCachedBufferSize=2000000\n")))))))))

-- `fmt.Sprintf("%s=%s\n", key, value)`
unfoldable pub line : String → String → String
line key value = key <> ("=" <> (value <> "\n"))

unfoldable pub render : StringMap → String
unfolding line
render [] = ""
render ((key, value) ∷ m) = line key value <> render m

-- The text of the error holds the verb `%s`: it is never formatted.
abbrev pub system_property : Error
system_property =
    operator_error "%s is a system property. Cannot be specified as additional property"

-- The loop over the additional properties, from the text that the builder holds.
unfoldable pub add_props : StringMap → StringMap → String → Result String
unfolding line
add_props system_props [] sb = ok sb
add_props system_props ((key, value) ∷ m) sb =
    let rest = add_props system_props m (sb <> line key value) in
    if has key system_props then err system_property else rest

-- `fmt.Sprintf("http://%s:%d", name, port)`
unfoldable pub http_uri : String → ℤ → String
http_uri name port = "http://" <> (name <> (":" <> format_int port))

module _ (name : String) (http_port https_port : ℤ) (presto : Presto) where
  unfoldable pub https_props : StringMap
  https_props =
      ("coordinator", "true")
      ∷ ("node.internal-address", name)
      ∷ ("discovery.uri", http_uri name http_port <> "\n")
      ∷ ("node-scheduler.include-coordinator", "false")
      ∷ ("discovery-server.enabled", "true")
      ∷ ("http-server.http.enabled", "true")
      ∷ ("http-server.https.enabled", "true")
      ∷ ("http-server.https.port", format_int https_port)
      ∷ ("http-server.http.port", format_int http_port)
      ∷ (
        "http-server.https.keystore.path",
        https_vol_path <> ("/" <> presto.spec.coordinator.https_key_pair_secret_key),
      )
      ∷ ("http-server.https.keystore.key", presto.spec.coordinator.https_key_pair_password)
      ∷ []

unfoldable pub http_props : String → ℤ → StringMap
http_props name http_port =
    ("coordinator", "true")
    ∷ ("http-server.http.port", format_int http_port)
    ∷ ("node.internal-address", name)
    ∷ ("discovery.uri", http_uri name http_port <> "\n")
    ∷ ("node-scheduler.include-coordinator", "false")
    ∷ ("discovery-server.enabled", "true")
    ∷ ("http-server.https.enabled", "false")
    ∷ []

unfoldable pub get_system_props : Presto → String → Result StringMap
unfolding https_props http_props
get_system_props presto name =
    let (http_port, https_port) = get_http_port presto in
    if presto.spec.coordinator.https_enabled
    then if presto.spec.coordinator.https_key_pair_password == ""
      then err (operator_error "HttpsKeyPairPassword has to be specified when HTTPS is enabled")
      else if presto.spec.coordinator.https_key_pair_secret_key == ""
      then err (operator_error "HttpsKeyPairSecretKey has to be specified when HTTPS is enabled")
      else if presto.spec.coordinator.https_key_pair_secret_name == ""
      then err (operator_error "HttpsKeyPairSecretName has to be specified when HTTPS is enabled")
      else ok (https_props name http_port https_port presto)
    else ok (http_props name http_port)

unfoldable pub worker_system_props : Presto → StringMap
worker_system_props presto =
    ("coordinator", "false")
    ∷ ("http-server.http.port", format_int presto_port)
    ∷ (
      "discovery.uri",
      http_uri (get_coordinator_internal_name presto.status.uuid) (get_http_port presto).0,
    )
    ∷ []
