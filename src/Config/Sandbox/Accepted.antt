-- ===== src/Config/Sandbox/Accepted.antt =====
-- What is known of a sandbox configuration that was accepted.
use mathlib.Core.Option.{some-injective}
use mathlib.Core.Path.{subst}
use hindsight.Base.{
  ℕ, ◌≡◌, inl, inr, refl, sym, ap, ◌∙◌, true, false, ◌||◌, Option, none, some, arith, ◌==◌,
  Bool-cases, Option-cases,
}
use hindsight.CString.{Bytes, codes}
use hindsight.Disk.{Disk}
use hindsight.Util.{max_path, get_fqfn, has_ext, cfg_ext, lua_ext}
use hindsight.Config.Options.{
  LuaNumber, Entries, Checked, invalid, valid, ◌>>=◌, >>=-eq-valid, valid-injective, or_keep,
  get_unsigned_int, get_bool_item, get_option_char, get_string_item,
}
use hindsight.Config.Sandbox.{
  SandboxConfig, init_sandbox_config, queue_options, create_name, type_name, with_defaults,
  has_path, check_filename, load_common, load_matcher, load_te_im_limit, load_analysis,
  load_read_queue, load_output, load_options, cleanup, load_text, load_file, load_sandbox_config,
}

-- The fields that the options do not set are kept, the file is a Lua file without a path, and a plugin
-- that gets messages has a matcher.
pub record IsAccepted (fn : Bytes) (type : ℕ) (cfg : SandboxConfig) : Type 0 where
  pub file : Bytes
  pub filename : cfg.filename ≡ some file
  pub no_path : has_path file ≡ false
  pub is_lua : has_ext file lua_ext ≡ true
  pub name : cfg.cfg_name ≡ some (create_name (type_name type) fn)
  pub matcher : (type == b'a' || type == b'o') ≡ true → (m : Bytes) × (cfg.message_matcher ≡ some m)

check_filename_lem :
    (file : Bytes) {u : Unit {0}}
    → check_filename file ≡ valid u
    → (has_path file ≡ false) × (has_ext file lua_ext ≡ true)
unfolding check_filename
check_filename_lem file e = elim (Bool-cases (has_path file)) [
  | inl path ↦ absurd (ground (arith, path, e))
  | inr plain ↦ elim (Bool-cases (has_ext file lua_ext)) [
    | inl lua ↦ (plain, lua)
    | inr other ↦ absurd (ground (arith, plain, other, e))
  ]
]

-- The file that is set, with the name that stands before.
record HasFile (old new : SandboxConfig) : Type 0 where
  file : Bytes
  filename : new.filename ≡ some file
  no_path : has_path file ≡ false
  is_lua : has_ext file lua_ext ≡ true
  name : new.cfg_name ≡ old.cfg_name

-- What the options of a type keep.
record Keeps (old new : SandboxConfig) : Type 0 where
  filename : new.filename ≡ old.filename
  name : new.cfg_name ≡ old.cfg_name
  matcher : new.message_matcher ≡ old.message_matcher

-- A plugin that gets messages has a matcher; the other fields stay.
record Matched (type : ℕ) (old new : SandboxConfig) : Type 0 where
  filename : new.filename ≡ old.filename
  name : new.cfg_name ≡ old.cfg_name
  matcher : (type == b'a' || type == b'o') ≡ true → (m : Bytes) × (new.message_matcher ≡ some m)

module _ (print : LuaNumber → Bytes) {Table : Type 0} where
  load_common_lem :
      (t : Entries Table) (cfg : SandboxConfig) (r : SandboxConfig × Entries Table)
      → load_common print t cfg ≡ valid r
      → HasFile cfg r.0
  unfolding load_common
  load_common_lem t cfg r e =
      let ((_, t1), _, e1) =
        >>=-eq-valid (get_unsigned_int t (codes "output_limit") cfg.output_limit) _ e in
      let ((_, t2), _, e2) =
        >>=-eq-valid (get_unsigned_int t1 (codes "memory_limit") cfg.memory_limit) _ e1 in
      let ((_, t3), _, e3) =
        >>=-eq-valid (get_unsigned_int t2 (codes "instruction_limit") cfg.instruction_limit) _ e2 in
      let ((_, t4), _, e4) =
        >>=-eq-valid (get_unsigned_int t3 (codes "ticker_interval") cfg.ticker_interval) _ e3 in
      let ((file, t5), _, e5) =
        >>=-eq-valid (get_string_item print t4 (codes "filename") none) _ e4 in
      let (_, checked, e6) = >>=-eq-valid (check_filename file) _ e5 in
      let ((_, t6), _, e7) =
        >>=-eq-valid (get_bool_item t5 (codes "preserve_data") cfg.preserve_data) _ e6 in
      let ((_, t7), _, e8) =
        >>=-eq-valid (get_bool_item t6 (codes "restricted_headers") cfg.restricted_headers) _ e7 in
      let (_, _, e9) =
        >>=-eq-valid (get_bool_item t7 (codes "shutdown_on_terminate") cfg.shutdown_terminate) _
          e8 in
      let (plain, lua) = check_filename_lem file checked in
      let is = ap (λ (x : SandboxConfig × Entries Table). x.0) (valid-injective e9) in
      record {
        file = file;
        filename = sym (ap (λ (c : SandboxConfig). c.filename) is);
        no_path = plain;
        is_lua = lua;
        name = sym (ap (λ (c : SandboxConfig). c.cfg_name) is);
      }

  load_analysis_lem :
      (type : ℕ) (cfg : SandboxConfig) (t : Entries Table) (r : SandboxConfig × Entries Table)
      → load_analysis print type (cfg, t) ≡ valid r
      → Keeps cfg r.0
  unfolding load_analysis load_te_im_limit
  load_analysis_lem type cfg t r e = elim (Bool-cases (type == b'a')) [
    | inl analysis ↦
        let (thread, t1) =
          or_keep (get_unsigned_int t (codes "thread") cfg.thread) (cfg.thread, t) in
        let (pm, t2) =
          or_keep (get_unsigned_int t1 (codes "process_message_inject_limit") cfg.pm_im_limit)
            (cfg.pm_im_limit, t1) in
        let (_, _, is) =
          >>=-eq-valid (get_unsigned_int t2 (codes "timer_event_inject_limit") cfg.te_im_limit) _
            (rw (analysis) at e) in
        subst (λ (x : SandboxConfig × Entries Table). Keeps cfg x.0) (valid-injective is)
          (record { filename = refl; name = refl; matcher = refl })
    | inr other ↦
        subst (λ (x : SandboxConfig × Entries Table). Keeps cfg x.0)
          (valid-injective (rw (other) at e))
          (record { filename = refl; name = refl; matcher = refl })
  ]

  load_output_lem :
      (type : ℕ) (cfg : SandboxConfig) (t : Entries Table) (r : SandboxConfig × Entries Table)
      → load_output print type (cfg, t) ≡ valid r
      → Keeps cfg r.0
  unfolding load_output load_read_queue
  load_output_lem type cfg t r e = elim (Bool-cases (type == b'o')) [
    | inl output ↦
        let ((async, t1), _, e1) =
          >>=-eq-valid (get_unsigned_int t (codes "async_buffer_size") cfg.async_buffer_size) _
            (rw (output) at e) in
        let (rm_cp, t2) =
          or_keep (get_bool_item t1 (codes "remove_checkpoints_on_terminate") cfg.rm_cp_terminate)
            (cfg.rm_cp_terminate, t1) in
        let (_, _, is) =
          >>=-eq-valid (get_option_char t2 (codes "read_queue") cfg.read_queue queue_options) _
            e1 in
        subst (λ (x : SandboxConfig × Entries Table). Keeps cfg x.0) (valid-injective is)
          (record { filename = refl; name = refl; matcher = refl })
    | inr other ↦
        subst (λ (x : SandboxConfig × Entries Table). Keeps cfg x.0)
          (valid-injective (rw (other) at e))
          (record { filename = refl; name = refl; matcher = refl })
  ]

  load_matcher_lem :
      (type : ℕ) (cfg : SandboxConfig) (t : Entries Table) (r : SandboxConfig × Entries Table)
      → load_matcher print type (cfg, t) ≡ valid r
      → Matched type cfg r.0
  unfolding load_matcher
  load_matcher_lem type cfg t r e = elim (Bool-cases (type == b'a' || type == b'o')) [
    | inl reader ↦
        let ((m, t1), _, is) =
          >>=-eq-valid (get_string_item print t (codes "message_matcher") none) _
            (rw (reader) at e) in
        subst (λ (x : SandboxConfig × Entries Table). Matched type cfg x.0) (valid-injective is)
          (record { filename = refl; name = refl; matcher = λ _. (m, refl) })
    | inr other ↦
        subst (λ (x : SandboxConfig × Entries Table). Matched type cfg x.0)
          (valid-injective (rw (other) at e))
          (record {
            filename = refl;
            name = refl;
            matcher = λ is. absurd (ground (arith, is, other));
          })
  ]

  -- All options together.
  load_options_lem :
      (type : ℕ) (cfg : SandboxConfig) (t : Entries Table) (r : SandboxConfig × Entries Table)
      → load_options print type cfg t ≡ valid r
      → HasFile cfg r.0
        × ((type == b'a' || type == b'o') ≡ true → (m : Bytes) × (r.0.message_matcher ≡ some m))
  unfolding load_options
  load_options_lem type cfg t r e =
      let (common, e0, e1) = >>=-eq-valid (load_common print t cfg) _ e in
      let (matched, e2, e3) = >>=-eq-valid (load_matcher print type common) _ e1 in
      let (analysis, e4, e5) = >>=-eq-valid (load_analysis print type matched) _ e3 in
      let file = load_common_lem t cfg common e0 in
      let with_matcher = load_matcher_lem type common.0 common.1 matched e2 in
      let kept = load_analysis_lem type matched.0 matched.1 analysis e4 in
      let kept' = load_output_lem type analysis.0 analysis.1 r e5 in
      (
        record {
          file = file.file;
          filename = kept'.filename ∙ kept.filename ∙ with_matcher.filename ∙ file.filename;
          no_path = file.no_path;
          is_lua = file.is_lua;
          name = kept'.name ∙ kept.name ∙ with_matcher.name ∙ file.name;
        },
        λ reads. let (m, is) = with_matcher.matcher reads in (m, kept'.matcher ∙ kept.matcher ∙ is),
      )

module _ (print : LuaNumber → Bytes) {Table : Type 0} (run_lua : Bytes → Checked (Entries Table))
    (stamp : Bytes) where
  cleanup_lem :
      (d d' : Disk) (dir name : Bytes) (result : Checked (SandboxConfig × Entries Table))
      (cfg : SandboxConfig)
      → cleanup print run_lua stamp d dir name result ≡ (d', some cfg)
      → (d' ≡ d) × (t : Entries Table) × (result ≡ valid (cfg, t))
  unfolding cleanup
  cleanup_lem d d' dir name (invalid message) cfg e = cc
  cleanup_lem d d' dir name (valid (c, t)) cfg e = (
    cc,
    t,
    ap (λ (x : SandboxConfig). valid (x, t))
        (some-injective _ _ (ap (λ (x : Disk × Option SandboxConfig). x.1) e)),
  )

  text_lem :
      (d d' : Disk) (dir fn : Bytes) (dflt : Option SandboxConfig) (type : ℕ) (cfg : SandboxConfig)
      (cfg_lua : Bytes)
      → load_text print run_lua stamp d dir fn dflt type cfg_lua ≡ (d', some cfg)
      → (d' ≡ d) × IsAccepted fn type cfg
  unfolding load_text
  text_lem d d' dir fn dflt type cfg cfg_lua e =
      let name = create_name (type_name type) fn in
      let start = record (with_defaults dflt init_sandbox_config) {
        dir = some dir;
        cfg_name = some name;
        cfg_lua = some cfg_lua;
      } in
      let (same, t, loaded) =
        cleanup_lem d d' dir name (run_lua cfg_lua >>= load_options print type start) cfg e in
      let (globals, _, read) = >>=-eq-valid (run_lua cfg_lua) _ loaded in
      let (file, matcher) = load_options_lem print type start globals (cfg, t) read in
      (
        same,
        record {
          file = file.file;
          filename = file.filename;
          no_path = file.no_path;
          is_lua = file.is_lua;
          name = file.name;
          matcher = matcher;
        },
      )

  -- A configuration that is accepted comes from a `.cfg` file: the disk does not change, the plugin's
  -- name is its type with the name of that file, its Lua file has the extension `.lua` and no
  -- directory, and an analysis or output plugin has a message matcher.
  pub load_sandbox_config-IsAccepted :
      (d d' : Disk) (dir fn : Bytes) (dflt : Option SandboxConfig) (type : ℕ) (cfg : SandboxConfig)
      → load_sandbox_config print run_lua stamp d dir fn dflt type ≡ (d', some cfg)
      → (d' ≡ d) × (has_ext fn cfg_ext ≡ true) × IsAccepted fn type cfg
  unfolding load_sandbox_config load_file load_text
  load_sandbox_config-IsAccepted d d' dir fn dflt type cfg e =
      elim (Bool-cases (has_ext fn cfg_ext)) [
        | inr other ↦ let absent = rw (other) at e in cc
        | inl has ↦ elim (Option-cases (get_fqfn dir fn max_path)) [
          | inl long ↦ let absent = rw (has, long) at e in cc
          | inr (fqfn, fitting) ↦ elim (Option-cases (d.content fqfn)) [
            | inl missing ↦ let absent = rw (has, fitting, missing) at e in cc
            | inr (cfg_lua, there) ↦
                let (same, options) =
                  text_lem d d' dir fn dflt type cfg cfg_lua (rw (has, fitting, there) at e) in
                (same, has, options)
          ]
        ]
      ]
