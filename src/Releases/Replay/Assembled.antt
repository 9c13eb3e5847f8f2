-- ===== src/Releases/Replay/Assembled.antt =====
-- An assembled release at replay: the checks of releases/replay.py that need only its documents.
use qveris_capability_benchm.Prelude.{
  ◌≡◌, Bool, true, List, [], string_eq, nat_eq, bool_eq, option_eq, list_eq, ok,
}
use qveris_capability_benchm.Prelude.Dict.{Dict}
use qveris_capability_benchm.Models.Enums.{run_mode_eq}
use qveris_capability_benchm.Models.Run.{RunCell, source_reference_eq}
use qveris_capability_benchm.Models.Value.{Value}
use qveris_capability_benchm.Execution.DirectBinding.{DirectBinding}
use qveris_capability_benchm.Releases.Metrics.{Digests}
use qveris_capability_benchm.Releases.Terminal.{Codec, PublicTerminalReleaseArtifacts}
use qveris_capability_benchm.Releases.Replay.{
  same_identity, validate_cell_topology, validate_provenance, validate_rebuilt, validate_run_keys,
}

module _ (input_eq : Value → Value → Bool) (input_eq-refl : (v : Value) → input_eq v v ≡ true) where
  abbrev IsSame : RunCell → RunCell → Type 0
  IsSame p c = same_identity input_eq p c ≡ true

  module _ (digests : Digests) (codec : Codec) where
    -- The artifacts pass four steps of `replay_release_dir`: the comparison of plan and release, of
    -- plan and cells, the run keys of the plan, and the rebuilding of the release.
    pub record Rebuilds (artifacts : PublicTerminalReleaseArtifacts) : Type 0 where
      pub provenance :
          validate_provenance
            (codec.sha256_digest (codec.run_plan_bytes artifacts.run_plan))
            artifacts.run_plan
            artifacts.release
          ≡ ok tt
      pub topology :
          validate_cell_topology input_eq artifacts.run_plan.cells artifacts.cells ≡ ok tt
      pub keys_hold : validate_run_keys artifacts.run_plan ≡ ok tt
      pub rebuilt :
          validate_rebuilt digests codec.canonical_release_bytes artifacts.release artifacts.cells
            artifacts.evidence [] artifacts.release_bytes
          ≡ ok tt
