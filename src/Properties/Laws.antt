-- ===== src/Properties/Laws.antt =====
-- What the property files say, and when they are refused.
use Prim.Native.String.append
use text.Mathlib.TextLemmas.{append-nil, append_assoc}
use steerd_presto_operator.Base.{
  String, ◌<>◌, ◌≡◌, refl, sym, ◌∙◌, ap, Bool, false, not, ◌&&◌, ◌||◌, [], ◌∷◌, ◌++◌, arith, ◌==◌,
  if◌then◌else◌,
}
use steerd_presto_operator.Base.Dict.{has}
use steerd_presto_operator.Exec.Fallible.{Result, is_ok, ok, err, ◌>>=◌ as ◌>>=ᴿ◌}
use steerd_presto_operator.Kube.{StringMap}
use steerd_presto_operator.Resource.{Presto}
use steerd_presto_operator.Properties.{
  add_props, get_system_props, line, render, system_property, worker_system_props,
}
use steerd_presto_operator.Properties.Files.{coordinator_config_props_map, worker_config_props_map}
use steerd_presto_operator.Platform.{Platform}
use steerd_presto_operator.Names.{get_coordinator_internal_name}

-- Some key of the second map is a key of the first.
abbrev pub clashes : StringMap → StringMap → Bool
clashes system_props [] = false
clashes system_props ((key, value) ∷ m) = has key system_props || clashes system_props m

render-append : (m n : StringMap) → render (m ++ n) ≡ render m <> render n
unfolding render
render-append [] n = sym (append.nil (render n))
render-append ((key, value) ∷ m) n =
    ap (λ (t : String). line key value <> t) (render-append m n)
    ∙ sym (append_assoc (line key value) (render m) (render n))

-- Additional properties are refused exactly when one of them is a system property; otherwise the
-- file is extended by a line for each, in the order in which the map is visited.
pub add_props-eq :
    (system_props m : StringMap) (sb : String)
    → add_props system_props m sb
      ≡ (if clashes system_props m then err system_property else ok (sb <> render m))
unfolding add_props render
add_props-eq system_props [] sb = ap ok (sym (append-nil sb))
add_props-eq system_props ((key, value) ∷ m) sb = ground (
  arith,
  add_props-eq system_props m (sb <> line key value),
  append_assoc sb (line key value) (render m),
)

-- The system properties are refused exactly when HTTPS is enabled and one of the three texts that
-- name the key store is missing.
pub get_system_props-is_ok :
    (presto : Presto) (name : String)
    → let c = presto.spec.coordinator in
      is_ok (get_system_props presto name)
      ≡ not (
          c.https_enabled
          && (c.https_key_pair_password == ""
              || c.https_key_pair_secret_key == ""
              || c.https_key_pair_secret_name == ""))
unfolding get_system_props
get_system_props-is_ok presto name = ground arith

module _ (p : Platform) (presto : Presto) where
  abbrev pub internal_name : String
  internal_name = get_coordinator_internal_name presto.status.uuid

  -- The text of a configuration, from its additional and its system properties, if it is not refused.
  abbrev pub with_additional : StringMap → Result StringMap → Result String
  with_additional additional (err e) = err e
  with_additional additional (ok system_props) =
      if clashes system_props additional
      then err system_property
      else ok (render (p.range system_props ++ additional))

  -- The coordinator's configuration is refused with the error of the system properties where they are
  -- refused, and else exactly when an additional property is one of them. It is otherwise one line for
  -- each system property, then one for each additional property.
  pub coordinator_config_props_map-eq :
      coordinator_config_props_map p presto
      ≡ with_additional
          (p.range presto.spec.coordinator.additional_props)
          (get_system_props presto internal_name)
  unfolding coordinator_config_props_map
  coordinator_config_props_map-eq = for_props (get_system_props presto internal_name)
    where
      for_props :
          (props : Result StringMap)
          → (props >>=ᴿ λ system_props.
              add_props system_props
                (p.range presto.spec.coordinator.additional_props)
                (render (p.range system_props)))
            ≡ with_additional (p.range presto.spec.coordinator.additional_props) props
      for_props (err e) = refl
      for_props (ok system_props) = rw render-append (add_props-eq system_props _ _)

  -- The workers' configuration is refused exactly when an additional property is one of the workers'
  -- system properties, and is otherwise one line for each system property, then one for each
  -- additional property.
  pub worker_config_props_map-eq : worker_config_props_map p presto ≡ (
      let additional = p.range presto.spec.worker.additional_props in
      if clashes (worker_system_props presto) additional
      then err system_property
      else ok (render (p.range (worker_system_props presto) ++ additional)))
  unfolding worker_config_props_map
  worker_config_props_map-eq = rw render-append (add_props-eq (worker_system_props presto) _ _)
