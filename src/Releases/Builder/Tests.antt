-- ===== src/Releases/Builder/Tests.antt =====
-- Two documents that differ at one key.
use qveris_capability_benchm.Prelude.{
  ℕ, String, ◌≡◌, ◌≢◌, ◌↔◌, true, contains, [], ◌∷◌, nat_eq, string_eq,
}
use qveris_capability_benchm.Prelude.Dict.{Dict}
use qveris_capability_benchm.Releases.Builder.{get, diff_releases}
use qveris_capability_benchm.Releases.Builder.Differences.{diff_releases_iff}

abbrev before : Dict String ℕ
before = ("version", 1) ∷ ("limit", 3) ∷ []

abbrev after : Dict String ℕ
after = ("limit", 3) ∷ ("version", 2) ∷ []

diff_releases_iff_example :
    (contains (diff_releases 0 before after) "version" ≡ true)
    ↔ (get 0 before "version" ≢ get 0 after "version")
diff_releases_iff_example = diff_releases_iff 0 before after "version"
