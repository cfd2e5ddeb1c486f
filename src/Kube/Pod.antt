-- ===== src/Kube/Pod.antt =====
-- Pod templates and pod metrics, over the quantities of package resource.
use steerd_presto_operator.Base.{String, Bool, Option, List}
use steerd_presto_operator.Base.Int.{ℤ}
use steerd_presto_operator.Base.Dict.{Dict}

pub record KeyToPath : Type 0 where
  pub key : String
  pub path : String

pub data VolumeProjection : Type 0 where
  config_map_projection : (name : String) → VolumeProjection
  secret_projection : (name : String) → List KeyToPath → VolumeProjection

-- `user_source` is a source that the Presto resource gives and the operator copies unread.
pub data VolumeSource : Type 0 where
  projected : List VolumeProjection → VolumeSource
  secret : (secret_name : String) → VolumeSource
  user_source : String → VolumeSource

pub record Volume : Type 0 where
  pub name : String
  pub source : VolumeSource

pub record VolumeMount : Type 0 where
  pub name : String
  pub read_only : Bool
  pub mount_path : String
  pub sub_path : String
  pub mount_propagation : Option String
  pub sub_path_expr : String

-- `lifecycle` is the command of the hook `PreStop`; the hook `PostStart` is never set.
pub record Container (Quantity : Type 0) : Type 0 where
  pub name : String
  pub image : String
  pub limits : Dict Quantity
  pub requests : Dict Quantity
  pub lifecycle : Option (List String)
  pub volume_mounts : List VolumeMount

-- `container` is the only element of `Containers`.
pub record PodSpec (Quantity : Type 0) : Type 0 where
  pub termination_grace_period_seconds : Option ℤ
  pub container : Container Quantity
  pub hostname : String
  pub subdomain : String
  pub volumes : List Volume

-- The use that the metrics server reports for the containers of one pod.
pub record ContainerMetrics (Quantity : Type 0) : Type 0 where
  pub name : String
  pub usage : Dict Quantity

abbrev pub PodMetrics : Type 0 → Type 0
PodMetrics Quantity = List (ContainerMetrics Quantity)
