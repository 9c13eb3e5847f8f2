-- ===== src/Releases/Builder/Differences.antt =====
-- What `diff_releases` lists.
use qveris_capability_benchm.Prelude.{
  String, ◌≡◌, ◌≢◌, ◌↔◌, refl, ap, ◌∙◌, sym, Bool, true, false, not, ◌&&◌, ◌||◌, ◌++◌, arith, ◌==◌,
  ==_iff, Eq, string_eq, contains, contains-select, contains-append, contains-to_set, select,
  to_set, Bool-cases, Option-cases, inl, inr,
}
use qveris_capability_benchm.Prelude.Dict.{Dict, lookup, keys, contains-keys}
use qveris_capability_benchm.Prelude.Sort.{str_lt, contains-sort_by}
use qveris_capability_benchm.Releases.Builder.{get, diff_releases}

module _ {V : Type 0} ⦃e : Eq V⦄ (null : V) where
  -- A key that is missing reads as `None`.
  get-missing : (d : Dict String V) (k : String) → contains (keys d) k ≡ false → get null d k ≡ null
  get-missing d k h = elim (Option-cases (lookup k d)) [
    | inl n ↦ rw n refl
    | inr (v, f) ↦
        (let found : contains (keys d) k ≡ true = (contains-keys d k).1 (λ n. cc) in absurd (cc))
  ]

  unequal :
      (before after : Dict String V) (k : String)
      → get null before k ≢ get null after k
      → (get null before k == get null after k) ≡ false
  unequal before after k n = elim (Bool-cases (get null before k == get null after k)) [
    | inl t ↦ absurd (n ((==_iff (get null before k) (get null after k)).0 t))
    | inr f ↦ f
  ]

  -- The differences of two releases are the keys at which they differ, where a key that is missing
  -- reads as `None`.
  pub diff_releases_iff :
      (before after : Dict String V) (k : String)
      → (contains (diff_releases null before after) k ≡ true)
        ↔ (get null before k ≢ get null after k)
  unfolding diff_releases
  diff_releases_iff before after k =
      let all_keys = keys before ++ keys after in
      let differs : String → Bool = λ j. not (get null before j == get null after j) in
      let listed : contains (diff_releases null before after) k
          ≡ ((contains (keys before) k || contains (keys after) k) && differs k) =
        contains-sort_by str_lt (select differs (to_set all_keys)) k
        ∙ contains-select differs (to_set all_keys) k
        ∙ ap (λ b. b && differs k)
            (contains-to_set all_keys k ∙ contains-append (keys before) (keys after) k) in
      (
        λ h s. let same = (==_iff (get null before k) (get null after k)).1 s in ground arith,
        λ n. elim (Bool-cases (contains (keys before) k || contains (keys after) k)) [
          | inl t ↦
              (let differ : (get null before k == get null after k) ≡ false =
                  unequal before after k n in
                listed ∙ ground arith)
          | inr f ↦
              absurd
                (n (get-missing before k (ground arith) ∙ sym (get-missing after k (ground arith))))
        ],
      )
