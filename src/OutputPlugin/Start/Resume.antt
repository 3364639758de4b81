-- ===== src/OutputPlugin/Start/Resume.antt =====
-- Where an output plugin begins to read.
use mathlib.Core.Path.{subst}
use hindsight.Base.{ℕ, zero, suc, ◌^◌, ◌<◌, ◌≡◌, refl, ap, Option, some, arith, leb, get_elem?}
use hindsight.Base.Run.{ok, >>=-eq-ok, ok-injective}
use hindsight.CString.{Bytes, str_eq}
use hindsight.CString.Decimal.{decimal}
use hindsight.Disk.{Disk}
use hindsight.Util.{input_dir, analysis_dir}
use hindsight.Checkpoint.{Checkpoint, CheckpointPair}
use hindsight.CheckpointReader.{
  Table, key_of, found_or_missing, update_input_checkpoint, lookup_input_checkpoint,
}
use hindsight.CheckpointReader.RoundTrip.{lookup-update, get-update_input_checkpoint, stored-update}
use hindsight.CheckpointWriter.{store_plugin}
use hindsight.OutputPlugin.{OutputPlugin}
use hindsight.OutputPlugin.Advance.{Precedes, Precedes-refl, IsBehind}
use hindsight.OutputPlugin.Start.{
  SandboxConfig, origins, origin, empty_ring, create_output_plugin, sync_queue, at_place,
  sync_checkpoints,
}

first_Precedes : (c : CheckpointPair) → Precedes origins c
first_Precedes c = record { input = ground arith; analysis = ground arith }

empty_ring-Precedes :
    (n i : ℕ) (x c : CheckpointPair) → get_elem? (empty_ring n) i ≡ some x → Precedes x c
unfolding empty_ring
empty_ring-Precedes zero i x c e = cc
empty_ring-Precedes (suc n) zero x c e =
    let same : origins ≡ x = cc in
    subst (λ (y : CheckpointPair). Precedes y c) same (first_Precedes c)
empty_ring-Precedes (suc n) (suc i) x c e = empty_ring-Precedes n i x c e

at_place-IsBehind :
    (sbc : SandboxConfig) (expires : ℕ) (input analysis : Checkpoint)
    → IsBehind (at_place input analysis (create_output_plugin sbc expires))
unfolding create_output_plugin
at_place-IsBehind sbc expires input analysis = record {
  cp = Precedes-refl _;
  ring = λ i x e. empty_ring-Precedes sbc.async_buffer_size i x _ e;
}

module _ {Number : Type 0} where
  -- When an output plugin is created and its checkpoints are found, it is in the state from which its
  -- checkpoints only move forward: neither they nor its ring are further on than what it has read.
  pub sync_checkpoints-IsBehind :
      (d : Disk) (t t' : Table Number) (name : Bytes) (path : Option Bytes) (sbc : SandboxConfig)
      (expires : ℕ) (p : OutputPlugin)
      → sync_checkpoints d t name path (create_output_plugin sbc expires) ≡ ok (t', p)
      → IsBehind p
  unfolding sync_checkpoints
  sync_checkpoints-IsBehind d t t' name path sbc expires p h =
      let fresh = create_output_plugin sbc expires in
      let ((t1, input), _, rest) =
        >>=-eq-ok (sync_queue d t input_dir name path b'i' (leb b'b' fresh.read_queue)) _ h in
      let ((t2, analysis), _, same) =
        >>=-eq-ok (sync_queue d t1 analysis_dir name path b'a' (leb fresh.read_queue b'b')) _
          rest in
      let here : at_place input analysis fresh ≡ p =
        ap (λ (x : Table Number × OutputPlugin). x.1) (ok-injective same) in
      subst IsBehind here (at_place-IsBehind sbc expires input analysis)

  lookup-both :
      (d : Disk) (t : Table Number) (print : ℕ → Bytes) (name : Bytes) (path : Option Bytes)
      (input analysis start : Checkpoint)
      → ((n : ℕ) → n < 10 ^ 14 → print n ≡ decimal n)
      → input.id < 10 ^ 14
      → input.offset < 10 ^ 14
      → lookup_input_checkpoint d
          (update_input_checkpoint print
            (update_input_checkpoint print t input_dir (some name) input)
            analysis_dir
            (some name)
            analysis)
          input_dir
          (some name)
          path
          start
        ≡ ok input
  unfolding lookup_input_checkpoint found_or_missing str_eq
  lookup-both d t print name path input analysis start prints i o =
      rw
        (
          get-update_input_checkpoint (key_of input_dir (some name))
              (update_input_checkpoint print t input_dir (some name) input) print analysis_dir
              (some name) analysis,
          stored-update t print input_dir (some name) input prints i o,
        )
        refl

  -- An output plugin that reads both queues, and whose checkpoints were stored with numbers below
  -- 10^14, begins at exactly those checkpoints when a plugin of its name is created and added again,
  -- whatever the settings, the disk and the rest of the table: the starting step returns, the table
  -- stays, and the place that is read first is the stored checkpoint.
  pub sync_checkpoints-store_plugin :
      (d : Disk) (t : Table Number) (print : ℕ → Bytes) (name : Bytes) (path : Option Bytes)
      (p : OutputPlugin) (sbc : SandboxConfig) (expires : ℕ)
      → ((n : ℕ) → n < 10 ^ 14 → print n ≡ decimal n)
      → p.read_queue ≡ b'b'
      → sbc.read_queue ≡ b'b'
      → p.cp.input.id < 10 ^ 14
      → p.cp.input.offset < 10 ^ 14
      → p.cp.analysis.id < 10 ^ 14
      → p.cp.analysis.offset < 10 ^ 14
      → sync_checkpoints d
          (store_plugin print t name p)
          name
          path
          (create_output_plugin sbc expires)
        ≡ ok (
          store_plugin print t name p,
          record (create_output_plugin sbc expires) { cp = p.cp; cur = p.cp },
        )
  unfolding sync_checkpoints sync_queue store_plugin create_output_plugin
  sync_checkpoints-store_plugin d t print name path p sbc expires prints both both' i1 o1 i2 o2 =
      rw
        (
          both,
          both',
          lookup-both d t print name path p.cp.input p.cp.analysis origin prints i1 o1,
          lookup-update d (update_input_checkpoint print t input_dir (some name) p.cp.input) print
              analysis_dir (some name) path p.cp.analysis origin prints i2 o2,
        )
        refl
