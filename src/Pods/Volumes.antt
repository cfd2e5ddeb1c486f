-- ===== src/Pods/Volumes.antt =====
-- Volumes and mounts of a pod agree.
use mathlib.Core.List.{Perm, append-nil, append_assoc, map-append, perm_append_comm}
use mathlib.Core.List.Perm
use steerd_presto_operator.Base.{
  String, ◌≡◌, sym, ◌∙◌, Bool, true, false, ◌&&◌, List, [], ◌∷◌, ◌++◌, map, if◌then◌else◌,
}
use steerd_presto_operator.Base.Dict.{Dict}
use steerd_presto_operator.Kube.Pod.{Volume, VolumeMount, PodSpec}
use steerd_presto_operator.Resource.{Presto, PrestoVolumeSpec}
use steerd_presto_operator.Names.{get_https_secret_vol_name}
use steerd_presto_operator.Catalog.{get_catalog_volume_mount}
use steerd_presto_operator.Pods.{
  append_additional_volume_mounts, append_additional_volumes, get_https_volume_mount,
  get_props_volume_mount,
}
use steerd_presto_operator.Pods.Build.{create_presto_pod_spec, https_step}

abbrev pub volume_names : List Volume → List String
volume_names = map (λ v. v.name)

abbrev pub mount_names : List VolumeMount → List String
mount_names = map (λ m. m.name)

abbrev user_names : List PrestoVolumeSpec → List String
user_names = map (λ v. v.name)

volume_names-append_additional :
    (specs : List PrestoVolumeSpec) (vols : List Volume)
    → volume_names (append_additional_volumes specs vols) ≡ volume_names vols ++ user_names specs
unfolding append_additional_volumes
volume_names-append_additional [] vols = sym (append-nil _)
volume_names-append_additional (spec ∷ specs) vols =
    volume_names-append_additional specs _ ∙ simp (map-append, append_assoc)

mount_names-append_additional :
    (specs : List PrestoVolumeSpec) (mounts : List VolumeMount)
    → mount_names (append_additional_volume_mounts specs mounts)
      ≡ mount_names mounts ++ user_names specs
unfolding append_additional_volume_mounts
mount_names-append_additional [] mounts = sym (append-nil _)
mount_names-append_additional (spec ∷ specs) mounts =
    mount_names-append_additional specs _ ∙ simp (map-append, append_assoc)

abbrev https_names : Presto → Bool → List String
https_names presto b = if b then get_https_secret_vol_name presto.status.uuid ∷ [] else []

module _ {Quantity : Type 0} (presto : Presto) (pod : PodSpec Quantity) where
  volume_names-https_step :
      (b : Bool)
      → volume_names (https_step presto b pod).volumes
        ≡ volume_names pod.volumes ++ https_names presto b
  unfolding get_https_volume_mount
  volume_names-https_step true = simp map-append
  volume_names-https_step false = sym (append-nil _)

  mount_names-https_step :
      (b : Bool)
      → mount_names (https_step presto b pod).container.volume_mounts
        ≡ mount_names pod.container.volume_mounts ++ https_names presto b
  unfolding get_https_volume_mount
  mount_names-https_step true = simp map-append
  mount_names-https_step false = sym (append-nil _)

perm_blocks : (a b : String) (us hs : List String) → Perm ((a ∷ b ∷ us) ++ hs) ((b ∷ a ∷ hs) ++ us)
perm_blocks a b us hs =
    Perm.trans (Perm.swap _ _ _) (Perm.cons b (Perm.cons a (perm_append_comm us hs)))

-- For every pod that the operator builds, the mounts of its container name exactly the volumes of
-- the pod, each as often.
pub volumes-perm-mounts :
    {Quantity : Type 0} (presto : Presto) (is_coordinator : Bool) (limits requests : Dict Quantity)
    → let pod = create_presto_pod_spec presto is_coordinator limits requests in
      Perm (volume_names pod.volumes) (mount_names pod.container.volume_mounts)
unfolding create_presto_pod_spec get_catalog_volume_mount get_props_volume_mount
volumes-perm-mounts presto is_coordinator limits requests =
    rw
      (
        volume_names-https_step, volume_names-append_additional, mount_names-append_additional,
        mount_names-https_step,
      )
      (perm_blocks _ _ (user_names presto.spec.volumes)
        (https_names presto (is_coordinator && presto.spec.coordinator.https_enabled)))
