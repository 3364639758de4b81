-- ===== src/AnalysisPlugin/Placement/Restart.antt =====
-- A plugin that runs is started again only on the thread on which it runs.
use hindsight.Base.{
  ℕ, ◌≡◌, ◌≢◌, ◌⊎◌, inl, inr, refl, true, false, none, some, arith, ◌==◌, if◌then◌else◌, Bool-cases,
}
use hindsight.Base.Run.{ok}
use hindsight.CString.{Bytes}
use hindsight.Disk.{Disk}
use hindsight.Util.{has_ext, remove_file, cfg_ext, off_ext, err_ext}
use hindsight.Config.Options.{LuaNumber, Entries, Checked, uint_max}
use hindsight.AnalysisPlugin.Placement.{
  get_tid, get_previous_tid, ext_exists, unless_moved, thread_of_cfg, get_thread_id,
}

decided :
    (d : Disk) (lpath name : Bytes) (tid before : ℕ)
    → let result =
        ok (unless_moved d lpath name before (if tid == uint_max then before else tid)) in
      (((tid ≡ uint_max) ⊎ (tid ≡ before)) × (result ≡ ok (d, some before)))
      ⊎ ((tid ≢ uint_max) × (tid ≢ before) × (result ≡ ok ((remove_file d lpath name).0, none)))
unfolding unless_moved
decided d lpath name tid before = elim (Bool-cases (tid == uint_max)) [
  | inl unset ↦
      let same : (before == before) ≡ true = ground arith in
      rw (unset, same) (inl (inl (ground (arith, unset)), refl))
  | inr set ↦ elim (Bool-cases (before == tid)) [
    | inl same ↦
        let is : tid ≡ before = ground (arith, same) in rw (set, same, is) (inl (inr refl, refl))
    | inr other ↦
        rw (set, other)
          (inr (λ e. absurd (ground (arith, set, e)), λ e. absurd (ground (arith, other, e)), refl))
  ]
]

module _ {Table : Type 0} (run_lua : Bytes → Checked (Entries Table))
    (to_unsigned : LuaNumber → ℕ) where
  -- For a `.cfg` file of a plugin that has neither a `.off` nor a `.err` file, get_thread_id always
  -- returns. Where the file names the thread of the plugin's last start, or no thread, the result is
  -- the thread of that start, and nothing is deleted. Otherwise there is no result, and the file is
  -- taken from the load directory.
  pub get_thread_id-running :
      (d : Disk) (lpath rpath opath name : Bytes)
      → has_ext name cfg_ext ≡ true
      → ext_exists d rpath name off_ext ≡ ok false
      → ext_exists d rpath name err_ext ≡ ok false
      → let tid = get_tid run_lua to_unsigned d lpath name in
        let before = get_previous_tid run_lua to_unsigned d opath name in
        let result = get_thread_id run_lua to_unsigned d lpath rpath opath name in
        (((tid ≡ uint_max) ⊎ (tid ≡ before)) × (result ≡ ok (d, some before)))
        ⊎ ((tid ≢ uint_max) × (tid ≢ before) × (result ≡ ok ((remove_file d lpath name).0, none)))
  unfolding get_thread_id thread_of_cfg
  get_thread_id-running d lpath rpath opath name cfg off err =
      rw (cfg, off, err)
        (decided d lpath name (get_tid run_lua to_unsigned d lpath name)
          (get_previous_tid run_lua to_unsigned d opath name))
