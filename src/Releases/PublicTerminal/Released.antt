-- ===== src/Releases/PublicTerminal/Released.antt =====
-- What the loop over the planned cells makes: each cell is released with its terminal.
use qveris_capability_benchm.Prelude.{
  else_branch, then_branch, String, ◌≡◌, refl, ap, ◌⊎◌, inl, inr, true, false, some, List, [], ◌∷◌,
  ◌++◌, map, string_eq, Bool-cases, Result, ok, >>=-eq-ok, >>-eq-ok, require-eq-ok, ok-injective,
}
use mathlib.Core.List.{Memᴰ}
use qveris_capability_benchm.Prelude.Dict.{Dict, lookup}
use qveris_capability_benchm.Prelude.Index.{indexed}
use qveris_capability_benchm.Models.Evidence.{EvidenceBundle}
use qveris_capability_benchm.Models.Run.{RunCell}
use qveris_capability_benchm.Models.Suite.{BenchmarkCase}
use qveris_capability_benchm.Models.Value.{Value}
use qveris_capability_benchm.Execution.DirectBinding.{DirectBinding}
use qveris_capability_benchm.Suites.Matrix.{run_keys}
use qveris_capability_benchm.Releases.PublicTerminal.{
  get_item, check_terminal, released, bundle_of, release_cell, release_cells, Made,
}
use qveris_capability_benchm.Releases.Terminal.{Loaded, Codec, Assembly, ValidatedTerminalOutcome}
use qveris_capability_benchm.Releases.PublicTerminal.Cells.{
  Zipped, Validated, check_terminal-Validated,
}

Memᴰ-left {ℓ} : {A : Type ℓ} (xs ys : List A) {x : A} → Memᴰ x xs → Memᴰ x (xs ++ ys)
Memᴰ-left [] ys m = elim m [ ]
Memᴰ-left (z ∷ zs) ys (Memᴰ.head e) = Memᴰ.head e
Memᴰ-left (z ∷ zs) ys (Memᴰ.tail m) = Memᴰ.tail (Memᴰ-left zs ys m)

Memᴰ-right {ℓ} : {A : Type ℓ} (xs ys : List A) {x : A} → Memᴰ x ys → Memᴰ x (xs ++ ys)
Memᴰ-right [] ys m = m
Memᴰ-right (z ∷ zs) ys m = Memᴰ.tail (Memᴰ-right zs ys m)

abbrev pub key_of_cell : RunCell → String
key_of_cell cell = cell.run_key

pub map-run_keys : (cells : List RunCell) → map key_of_cell cells ≡ run_keys cells
map-run_keys [] = refl
map-run_keys (cell ∷ cells) = ap (λ ks. cell.run_key ∷ ks) (map-run_keys cells)

module _ (codec : Codec)
    (outcome_validator : BenchmarkCase
      → DirectBinding
      → Value
      → Result String ValidatedTerminalOutcome)
    (assembly : Assembly) where
  -- An applicable cell is released with the terminal of its key and has its evidence.
  pub record Backed (terminals : Dict String Loaded) (evidence : List EvidenceBundle)
      (p c : RunCell) : Type 0 where
    pub loaded : Loaded
    pub found : lookup p.run_key terminals ≡ some loaded
    pub validated : Validated codec outcome_validator assembly loaded p
    pub cell : c ≡ released loaded.terminal p
    pub bundle : Memᴰ (bundle_of codec outcome_validator assembly p.run_key loaded p) evidence

  abbrev pub IsReleased : Dict String Loaded → List EvidenceBundle → RunCell → RunCell → Type 0
  IsReleased terminals evidence p c =
      ((p.applicable ≡ false) × (c ≡ p)) ⊎ ((p.applicable ≡ true) × Backed terminals evidence p c)

  release_cell-IsReleased :
      (terminals : Dict String Loaded) (p : RunCell) {made : Made codec outcome_validator assembly}
      → release_cell codec outcome_validator assembly terminals p.run_key p ≡ ok made
      → IsReleased terminals made.1 p made.0
  unfolding release_cell
  release_cell-IsReleased terminals p h = elim (Bool-cases p.applicable) [
    | inl t ↦
        (let h0 = else_branch _ _ p.applicable t h in
          let (loaded, found, h1) = >>=-eq-ok (get_item terminals p.run_key) _ h0 in
          let (checked, h2) =
            >>-eq-ok (check_terminal codec outcome_validator assembly loaded p) _ h1 in
          let same = ok-injective h2 in
          rw same (
            inr (
              t,
              record {
                loaded = loaded;
                found = require-eq-ok _ _ found;
                validated =
                    check_terminal-Validated codec outcome_validator assembly loaded p checked;
                cell = refl;
                bundle = Memᴰ.head refl;
              },
            )))
    | inr f ↦ (let h0 = then_branch _ _ p.applicable f h in rw (ok-injective h0) (inl (f, refl)))
  ]

  more_evidence :
      (terminals : Dict String Loaded) {old new : List EvidenceBundle} {p c : RunCell}
      → ((b : EvidenceBundle) → Memᴰ b old → Memᴰ b new)
      → IsReleased terminals old p c
      → IsReleased terminals new p c
  more_evidence terminals f (inl r) = inl r
  more_evidence terminals f (inr (t, r)) = inr (
    t,
    record {
      loaded = r.loaded;
      found = r.found;
      validated = r.validated;
      cell = r.cell;
      bundle = f _ r.bundle;
    },
  )

  pub release_cells-Zipped :
      (terminals : Dict String Loaded) (ps : List RunCell) (evidence : List EvidenceBundle)
      {made : List RunCell × List EvidenceBundle × List String}
      → release_cells codec outcome_validator assembly terminals (indexed key_of_cell ps) ≡ ok made
      → ((b : EvidenceBundle) → Memᴰ b made.1 → Memᴰ b evidence)
      → Zipped (IsReleased terminals evidence) ps made.0
  unfolding release_cells
  release_cells-Zipped terminals [] evidence h f = rw (ok-injective h) tt
  release_cells-Zipped terminals (p ∷ ps) evidence h f =
      let (one, a, h1) =
        >>=-eq-ok (release_cell codec outcome_validator assembly terminals p.run_key p) _ h in
      let (rest, b, h2) =
        >>=-eq-ok
          (release_cells codec outcome_validator assembly terminals (indexed key_of_cell ps)) _
          h1 in
      let same = ok-injective h2 in
      let g = rw same at f in
      rw same (
        more_evidence terminals (λ x m. g x (Memᴰ-left one.1 rest.1 m))
            (release_cell-IsReleased terminals p a),
        release_cells-Zipped terminals ps evidence b (λ x m. g x (Memᴰ-right one.1 rest.1 m)),
      )
