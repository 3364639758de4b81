-- ===== src/OutputPlugin/PluginList/Count.antt =====
-- The count of the list is that of the plugins in it.
use hindsight.Base.{
  ℕ, zero, suc, ◌+◌, ◌≡◌, refl, Bool, Option, none, some, List, [], ◌∷◌, arith, if◌then◌else◌,
  get_elem?,
}
use hindsight.OutputPlugin.PluginList.{
  OutputPlugins, first_empty, put_plugin, add_plugin, take_out, remove_where,
}

module _ {ℓ} {Plugin : Type ℓ} where
  unfoldable pub occupied : List (Option Plugin) → ℕ
  occupied [] = 0
  occupied (none ∷ rest) = occupied rest
  occupied (some _ ∷ rest) = occupied rest + 1

  abbrev pub IsCounted : OutputPlugins Plugin → Type 0
  IsCounted plugins = plugins.list_cnt ≡ occupied plugins.list

  occupied-put_plugin :
      (p : Plugin) (list : List (Option Plugin)) → occupied (put_plugin p list) ≡ occupied list + 1
  unfolding occupied put_plugin
  occupied-put_plugin p [] = refl
  occupied-put_plugin p (none ∷ rest) = refl
  occupied-put_plugin p (some q ∷ rest) = omega (arith, occupied-put_plugin p rest)

  get_elem?-put_plugin :
      (p : Plugin) (list : List (Option Plugin))
      → get_elem? (put_plugin p list) (first_empty list) ≡ some (some p)
  unfolding put_plugin first_empty
  get_elem?-put_plugin p [] = refl
  get_elem?-put_plugin p (none ∷ rest) = refl
  get_elem?-put_plugin p (some q ∷ rest) = get_elem?-put_plugin p rest

  get_elem?-put_plugin_keeps :
      (p q : Plugin) (list : List (Option Plugin)) (i : ℕ)
      → get_elem? list i ≡ some (some q)
      → get_elem? (put_plugin p list) i ≡ some (some q)
  unfolding put_plugin
  get_elem?-put_plugin_keeps p q [] i h = cc
  get_elem?-put_plugin_keeps p q (none ∷ rest) zero h = cc
  get_elem?-put_plugin_keeps p q (none ∷ rest) (suc i) h = h
  get_elem?-put_plugin_keeps p q (some _ ∷ rest) zero h = h
  get_elem?-put_plugin_keeps p q (some _ ∷ rest) (suc i) h = get_elem?-put_plugin_keeps p q rest i h

  -- Adding a plugin to a list whose count is right leaves one whose count is right; the plugin stands
  -- at the first empty place, and every plugin that was there keeps its place.
  pub add_plugin-IsCounted :
      (p : Plugin) (plugins : OutputPlugins Plugin)
      → IsCounted plugins
      → IsCounted (add_plugin p plugins)
        × (get_elem? (add_plugin p plugins).list (first_empty plugins.list) ≡ some (some p))
        × ((i : ℕ) (q : Plugin)
            → get_elem? plugins.list i ≡ some (some q)
            → get_elem? (add_plugin p plugins).list i ≡ some (some q))
  unfolding add_plugin
  add_plugin-IsCounted p plugins h = (
    omega (arith, occupied-put_plugin p plugins.list),
    get_elem?-put_plugin p plugins.list,
    λ i q e. get_elem?-put_plugin_keeps p q plugins.list i e,
  )

  occupied-take_out :
      (named : Plugin → Bool) (list : List (Option Plugin))
      → occupied list ≡ (
          if (take_out named list).1
          then occupied (take_out named list).0 + 1
          else occupied (take_out named list).0)
  unfolding occupied take_out
  occupied-take_out named [] = refl
  occupied-take_out named (none ∷ rest) = ground (arith, occupied-take_out named rest)
  occupied-take_out named (some p ∷ rest) = ground (arith, occupied-take_out named rest)

  -- Removing by name from a list whose count is right leaves one whose count is right, and the count
  -- goes down by one exactly when a plugin was found.
  pub remove_where-IsCounted :
      (named : Plugin → Bool) (plugins : OutputPlugins Plugin)
      → IsCounted plugins
      → IsCounted (remove_where named plugins).0
        × (plugins.list_cnt ≡ (
            if (remove_where named plugins).1
            then (remove_where named plugins).0.list_cnt + 1
            else (remove_where named plugins).0.list_cnt))
  unfolding remove_where
  remove_where-IsCounted named plugins h =
      let e = occupied-take_out named plugins.list in (ground (arith, h, e), ground (arith, h, e))
