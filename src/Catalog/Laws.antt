-- ===== src/Catalog/Laws.antt =====
-- Which catalog files a cluster gets.
use text.Mathlib.TextLemmas.{append_cancel_right}
use steerd_presto_operator.Base.{
  String, ◌<>◌, ◌≡◌, refl, Bool, true, false, ◌||◌, Option, none, some, List, [], ◌∷◌, arith, ◌==◌,
  eq_iff, if◌then◌else◌,
}
use steerd_presto_operator.Base.Dict.{lookup, lookup-insert, NodupKeys, insert-NodupKeys}
use steerd_presto_operator.Kube.{StringMap}
use steerd_presto_operator.Resource.{Presto, CatalogSpec, CatalogSecret}
use steerd_presto_operator.Platform.{Platform, IsRange}
use steerd_presto_operator.Properties.{render}
use steerd_presto_operator.Catalog.{
  add_catalogs, add_files, catalog_data, catalog_file_suffix, catalog_present_in_spec,
  default_catalogs, get_default_catalogs, named_in_secrets, named_in_specs, prune_defaults,
}

abbrev pub or_else : {A : Type 0} → Option A → Option A → Option A
or_else (some a) other = some a
or_else none other = other

suffix-eq : (k n : String) → ((k <> catalog_file_suffix) == (n <> catalog_file_suffix)) ≡ (k == n)
suffix-eq k n = ground (
  arith,
  eq_iff k n,
  eq_iff (k <> catalog_file_suffix) (n <> catalog_file_suffix),
  append_cancel_right k n catalog_file_suffix,
)

lookup-add_files :
    (n : String) (m d : StringMap)
    → NodupKeys m
    → lookup (n <> catalog_file_suffix) (add_files m d)
      ≡ or_else (lookup n m) (lookup (n <> catalog_file_suffix) d)
unfolding add_files lookup
lookup-add_files n [] d _ = refl
lookup-add_files n ((k, v) ∷ m) d (fresh, u) =
    rw (lookup-add_files n m _ u, lookup-insert, suffix-eq) (ground (arith, eq_iff k n))

-- A default stays unless the resource names its catalog.
kept : Presto → StringMap → String → Option String
kept presto defaults n = if catalog_present_in_spec presto n then none else lookup n defaults

lookup-prune_defaults :
    (presto : Presto) (n : String) (m pruned : StringMap)
    → NodupKeys m
    → lookup n (prune_defaults presto m pruned) ≡ or_else (kept presto m n) (lookup n pruned)
unfolding prune_defaults kept lookup
lookup-prune_defaults presto n [] pruned _ = ground arith
lookup-prune_defaults presto n ((k, v) ∷ m) pruned (fresh, u) =
    rw (lookup-prune_defaults presto n m _ u)
      (ground (arith, eq_iff k n, lookup-insert k n v pruned))

prune_defaults-NodupKeys :
    (presto : Presto) (m pruned : StringMap)
    → NodupKeys pruned
    → NodupKeys (prune_defaults presto m pruned)
unfolding prune_defaults
prune_defaults-NodupKeys presto [] pruned u = u
prune_defaults-NodupKeys presto ((k, v) ∷ m) pruned u =
    prune_defaults-NodupKeys presto m _ (ground (arith, insert-NodupKeys k v pruned u))

module _ (p : Platform) where
  -- The file of the last catalog of this name in the resource.
  abbrev pub last_content : List CatalogSpec → String → Option String
  last_content [] n = none
  last_content (catalog ∷ catalogs) n =
      or_else (last_content catalogs n)
        (if catalog.name == n then some (render (p.range catalog.content)) else none)

  lookup-add_catalogs :
      (n : String) (catalogs : List CatalogSpec) (d : StringMap)
      → lookup (n <> catalog_file_suffix) (add_catalogs p catalogs d)
        ≡ or_else (last_content catalogs n) (lookup (n <> catalog_file_suffix) d)
  unfolding add_catalogs
  lookup-add_catalogs n [] d = refl
  lookup-add_catalogs n (catalog ∷ catalogs) d =
      rw (lookup-add_catalogs n catalogs, lookup-insert, suffix-eq) (ground arith)

  abbrev is_some : Option String → Bool
  is_some none = false
  is_some (some s) = true

  named_in_specs-eq :
      (catalogs : List CatalogSpec) (n : String) (b : Bool)
      → named_in_specs catalogs n b ≡ (b || is_some (last_content catalogs n))
  unfolding named_in_specs
  named_in_specs-eq [] n b = ground arith
  named_in_specs-eq (catalog ∷ catalogs) n b = rw (named_in_specs-eq catalogs n) (ground arith)

named_in_secrets-true :
    (secrets : List CatalogSecret) (n : String) → named_in_secrets secrets n true ≡ true
unfolding named_in_secrets
named_in_secrets-true [] n = refl
named_in_secrets-true (secret ∷ secrets) n = ground (arith, named_in_secrets-true secrets n)

module _ (p : Platform) (presto : Presto) where
  -- A catalog that the resource does not name has no file of the resource's.
  absent :
      (n : String)
      → catalog_present_in_spec presto n ≡ false
      → last_content p presto.spec.catalogs.catalog_spec n ≡ none
  unfolding catalog_present_in_spec
  absent n h = ground (
    arith,
    named_in_specs-eq p presto.spec.catalogs.catalog_spec n false,
    named_in_secrets-true presto.spec.catalogs.catalog_secrets n,
  )

  default_catalogs-NodupKeys : NodupKeys default_catalogs
  unfolding lookup
  default_catalogs-NodupKeys = (refl, (refl, (refl, tt)))

  -- Where `range` visits every entry once: a catalog that the resource names, as a catalog or as the
  -- key of a secret, has the file that the last catalog of this name gives, if any; and any other
  -- catalog has a file exactly if it is one of the three defaults, with the default's text.
  pub lookup-catalog_data :
      IsRange p.range
      → (n : String)
      → lookup (n <> catalog_file_suffix) (catalog_data p presto) ≡ (
          if catalog_present_in_spec presto n
          then last_content p presto.spec.catalogs.catalog_spec n
          else lookup n default_catalogs)
  unfolding catalog_data get_default_catalogs kept lookup
  lookup-catalog_data r n =
      let u = r.range-NodupKeys default_catalogs default_catalogs-NodupKeys in
      let v = prune_defaults-NodupKeys presto (p.range default_catalogs) [] tt in
      rw
        (
          lookup-add_files n _ _ (r.range-NodupKeys _ v),
          r.lookup-range _ v n,
          lookup-prune_defaults presto n _ [] u,
          lookup-add_catalogs,
        )
        (ground (arith, absent n, r.lookup-range default_catalogs default_catalogs-NodupKeys n))
