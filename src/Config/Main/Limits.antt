-- ===== src/Config/Main/Limits.antt =====
-- A configuration that is accepted lies within the limits that the rest of the program relies on.
use mathlib.Core.Path.{subst}
use hindsight.Base.{
  ℕ, ◌≤◌, ◌≡◌, refl, ap, Bool, true, false, not, ◌||◌, none, some, [], ◌++◌, arith, ltb,
}
use hindsight.Base.Run.{Run, ok, exit_failure, ok-injective}
use hindsight.CString.{Bytes, codes}
use hindsight.Config.Options.{
  LuaNumber, Checked, invalid, valid, ◌>>=◌, >>=-eq-valid, valid-injective, or_keep,
  get_unsigned_int, get_uint8, get_string_item, check_for_unknown_options,
}
use hindsight.Config.Defaults.{Globals, LuaState, and_then, load_sandbox_defaults}
use hindsight.Config.Main.{
  HsConfig, init_config, require, load_sizes, load_paths, check_config, load_defaults, load_config,
}

pub record IsWithin (cfg : HsConfig) : Type 0 where
  pub message_size : 1024 ≤ cfg.max_message_size
  pub utilization : cfg.analysis_utilization_limit ≤ 100
  pub some_thread : 1 ≤ cfg.analysis_threads
  pub few_threads : cfg.analysis_threads ≤ 64
  pub input_output : cfg.ipd.output_limit ≤ cfg.max_message_size
  pub analysis_output : cfg.apd.output_limit ≤ cfg.max_message_size
  pub output_output : cfg.opd.output_limit ≤ cfg.max_message_size

require_lem :
    {A : Type 0} (holds : Bool) (message : Bytes) (a b : A)
    → require holds message a ≡ valid b
    → (holds ≡ true) × (a ≡ b)
unfolding require
require_lem true message a b e = (refl, valid-injective e)
require_lem false message a b e = cc

and_then-eq :
    {A B : Type 0} (first : Run (Checked A)) (next : A → Run (Checked B)) (b : B)
    → and_then first next ≡ ok (valid b)
    → (a : A) × (first ≡ ok (valid a)) × (next a ≡ ok (valid b))
and_then-eq exit_failure next b e = cc
and_then-eq (ok (invalid message)) next b e = cc
and_then-eq (ok (valid a)) next b e = (a, refl, e)

check_config_lem :
    (cfg cfg' : HsConfig) (s : LuaState)
    → check_config cfg s ≡ valid cfg'
    → (cfg ≡ cfg')
      × (cfg.ipd.output_limit ≤ cfg.max_message_size)
      × (cfg.apd.output_limit ≤ cfg.max_message_size)
      × (cfg.opd.output_limit ≤ cfg.max_message_size)
      × (check_for_unknown_options s.globals none ≡ valid tt)
unfolding check_config
check_config_lem cfg cfg' s e =
    let exceeds =
      ltb cfg.max_message_size cfg.ipd.output_limit
      || ltb cfg.max_message_size cfg.apd.output_limit
      || ltb cfg.max_message_size cfg.opd.output_limit in
    let message =
      codes "max_message_size must be greater than or equal to the sandbox output_limit" in
    let (_, required, e1) = >>=-eq-valid (require (not exceeds) message cfg) _ e in
    let (_, known, is) = >>=-eq-valid (check_for_unknown_options s.globals none) _ e1 in
    let (within, _) = require_lem (not exceeds) message cfg _ required in
    (
      valid-injective is,
      ground (arith, within),
      ground (arith, within),
      ground (arith, within),
      known,
    )

at_least : (n m low : ℕ) → not (ltb n low) ≡ true → n ≡ m → low ≤ m
at_least n m low holds is = ground arith

at_most : (n m high : ℕ) → not (ltb high n) ≡ true → n ≡ m → m ≤ high
at_most n m high holds is = ground arith

between : (n m low high : ℕ) → not (ltb n low || ltb high n) ≡ true → n ≡ m → (low ≤ m) × (m ≤ high)
between n m low high holds is = (ground arith, ground arith)

module _ (print : LuaNumber → Bytes) where
  load_sizes_lem :
      (cfg : HsConfig) (s : LuaState) (r : HsConfig × LuaState)
      → load_sizes print cfg s ≡ valid r
      → (1024 ≤ r.0.max_message_size) × (r.0.analysis_utilization_limit ≤ 100)
  unfolding load_sizes
  load_sizes_lem cfg s r e =
      let name = codes "max_message_size" in
      let kept =
        or_keep (get_unsigned_int s.globals name cfg.max_message_size)
          (cfg.max_message_size, s.globals) in
      let ((max_size, t1), size, e1) =
        >>=-eq-valid (require (not (ltb kept.0 1024)) (name ++ codes " must be > 1023") kept) _ e in
      let ((_, t2), _, e2) =
        >>=-eq-valid (get_string_item print t1 (codes "output_path") none) _ e1 in
      let ((_, t3), _, e3) =
        >>=-eq-valid (get_unsigned_int t2 (codes "output_size") cfg.output_size) _ e2 in
      let ((_, t4), _, e4) =
        >>=-eq-valid (get_unsigned_int t3 (codes "backpressure") cfg.backpressure) _ e3 in
      let ((_, t5), _, e5) =
        >>=-eq-valid (get_unsigned_int t4 (codes "backpressure_disk_free") cfg.backpressure_df) _
          e4 in
      let ((_, t6), _, e6) =
        >>=-eq-valid (get_string_item print t5 (codes "sandbox_load_path") (some [])) _ e5 in
      let limit_name = codes "analysis_utilization_limit" in
      let kept' =
        or_keep (get_uint8 t6 limit_name cfg.analysis_utilization_limit)
          (cfg.analysis_utilization_limit, t6) in
      let (limit, utilization, is) =
        >>=-eq-valid (require (not (ltb 100 kept'.0)) (limit_name ++ codes " must be 0-100") kept')
          _ e6 in
      let (large, same) =
        require_lem (not (ltb kept.0 1024)) (name ++ codes " must be > 1023") kept (max_size, t1)
          size in
      let (small, same') =
        require_lem (not (ltb 100 kept'.0)) (limit_name ++ codes " must be 0-100") kept' limit
          utilization in
      let max_is : kept.0 ≡ max_size = ap (λ (x : ℕ × Globals). x.0) same in
      let limit_is : kept'.0 ≡ limit.0 = ap (λ (x : ℕ × Globals). x.0) same' in
      subst
        (λ (x : HsConfig × LuaState).
          (1024 ≤ x.0.max_message_size) × (x.0.analysis_utilization_limit ≤ 100))
        (valid-injective is)
        (at_least kept.0 max_size 1024 large max_is, at_most kept'.0 limit.0 100 small limit_is)

  load_paths_lem :
      (host : Bytes) (cfg : HsConfig) (s : LuaState) (r : HsConfig × LuaState)
      → load_paths print host (cfg, s) ≡ valid r
      → (r.0.max_message_size ≡ cfg.max_message_size)
        × (r.0.analysis_utilization_limit ≡ cfg.analysis_utilization_limit)
        × (1 ≤ r.0.analysis_threads)
        × (r.0.analysis_threads ≤ 64)
  unfolding load_paths
  load_paths_lem host cfg s r e =
      let ((_, t1), _, e1) =
        >>=-eq-valid (get_string_item print s.globals (codes "sandbox_run_path") none) _ e in
      let ((_, t2), _, e2) =
        >>=-eq-valid
          (get_string_item print t1 (codes "sandbox_install_path")
            (some (codes "/usr/share/luasandbox/sandboxes/heka")))
          _ e1 in
      let ((_, t3), _, e3) =
        >>=-eq-valid (get_string_item print t2 (codes "io_lua_path") none) _ e2 in
      let ((_, t4), _, e4) =
        >>=-eq-valid (get_string_item print t3 (codes "io_lua_cpath") none) _ e3 in
      let ((_, t5), _, e5) =
        >>=-eq-valid (get_string_item print t4 (codes "analysis_lua_path") none) _ e4 in
      let ((_, t6), _, e6) =
        >>=-eq-valid (get_string_item print t5 (codes "analysis_lua_cpath") none) _ e5 in
      let ((_, t7), _, e7) =
        >>=-eq-valid (get_string_item print t6 (codes "hostname") (some host)) _ e6 in
      let name = codes "analysis_threads" in
      let kept = or_keep (get_uint8 t7 name cfg.analysis_threads) (cfg.analysis_threads, t7) in
      let holds = not (ltb kept.0 1 || ltb 64 kept.0) in
      let (threads, number, is) =
        >>=-eq-valid (require holds (name ++ codes " must be 1-64") kept) _ e7 in
      let (fits, same) = require_lem holds (name ++ codes " must be 1-64") kept threads number in
      let threads_is : kept.0 ≡ threads.0 = ap (λ (x : ℕ × Globals). x.0) same in
      let (low, high) = between kept.0 threads.0 1 64 fits threads_is in
      subst
        (λ (x : HsConfig × LuaState).
          (x.0.max_message_size ≡ cfg.max_message_size)
          × (x.0.analysis_utilization_limit ≡ cfg.analysis_utilization_limit)
          × (1 ≤ x.0.analysis_threads)
          × (x.0.analysis_threads ≤ 64))
        (valid-injective is) (refl, refl, low, high)

load_defaults_lem :
    (cfg cfg' : HsConfig) (s : LuaState)
    → load_defaults (cfg, s) ≡ ok (valid cfg')
    → (cfg'.max_message_size ≡ cfg.max_message_size)
      × (cfg'.analysis_utilization_limit ≡ cfg.analysis_utilization_limit)
      × (cfg'.analysis_threads ≡ cfg.analysis_threads)
      × (cfg'.ipd.output_limit ≤ cfg'.max_message_size)
      × (cfg'.apd.output_limit ≤ cfg'.max_message_size)
      × (cfg'.opd.output_limit ≤ cfg'.max_message_size)
unfolding load_defaults
load_defaults_lem cfg cfg' s e =
    let ((ipd, s1), _, e1) =
      and_then-eq (load_sandbox_defaults (codes "input_defaults") cfg.ipd s) _ cfg' e in
    let ((apd, s2), _, e2) =
      and_then-eq (load_sandbox_defaults (codes "analysis_defaults") cfg.apd s1) _ cfg' e1 in
    let ((opd, s3), _, e3) =
      and_then-eq (load_sandbox_defaults (codes "output_defaults") cfg.opd s2) _ cfg' e2 in
    let (is, i, a, o, _) =
      check_config_lem (record cfg { ipd = ipd; apd = apd; opd = opd }) cfg' s3 (ok-injective e3) in
    subst
      (λ (x : HsConfig).
        (x.max_message_size ≡ cfg.max_message_size)
        × (x.analysis_utilization_limit ≡ cfg.analysis_utilization_limit)
        × (x.analysis_threads ≡ cfg.analysis_threads)
        × (x.ipd.output_limit ≤ x.max_message_size)
        × (x.apd.output_limit ≤ x.max_message_size)
        × (x.opd.output_limit ≤ x.max_message_size))
      is (refl, refl, refl, i, a, o)

-- When hs_load_config succeeds, whatever globals the file leaves, the limit of a message is 1024 bytes
-- or more, that of the utilization is a percentage, there are 1 to 64 analysis threads, and no
-- default limit of a sandbox's output is above that of a message.
pub load_config-IsWithin :
    (print : LuaNumber → Bytes) (pid : ℕ) (host : Bytes) (run : Checked Globals) (cfg : HsConfig)
    → load_config print pid host run ≡ ok (valid cfg)
    → IsWithin cfg
unfolding load_config
load_config-IsWithin print pid host run cfg e =
    let sizes : Globals → Checked (HsConfig × LuaState) =
      λ globals. load_sizes print (init_config pid) (record { bottom = none; globals = globals }) in
    let ((c2, s2), first, last) =
      and_then-eq (ok (run >>= λ globals. sizes globals >>= load_paths print host)) load_defaults
        cfg e in
    let (globals, _, e1) =
      >>=-eq-valid run (λ globals. sizes globals >>= load_paths print host) (ok-injective first) in
    let ((c1, s1), e2, e3) = >>=-eq-valid (sizes globals) (load_paths print host) e1 in
    let (size, share) =
      load_sizes_lem print (init_config pid) (record { bottom = none; globals = globals }) (c1, s1)
        e2 in
    let (size', share', low, high) = load_paths_lem print host c1 s1 (c2, s2) e3 in
    let (size'', share'', threads, i, a, o) = load_defaults_lem c2 cfg s2 last in
    record {
      message_size = rw (size'', size') size;
      utilization = rw (share'', share') share;
      some_thread = rw (threads) low;
      few_threads = rw (threads) high;
      input_output = i;
      analysis_output = a;
      output_output = o;
    }
