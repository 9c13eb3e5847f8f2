-- ===== src/QuestionBank/Packs.antt =====
-- The CAP packs of a question bank: which packs the files give for a capability, and what the
-- checks of a capability against its packs show.
use qveris_capability_benchm.Prelude.{
  String, ◌≡◌, ◌≢◌, refl, Result, Result-cases, Bool, true, false, not, Option, none, some, ◌++◌,
  ok-injective, ap, ◌∙◌, sym, ◌&&◌, if◌then◌else◌, List, [], ◌∷◌, arith, ◌==◌, ==_iff, string_eq,
  contains, any, any-false-All, All, All-map, Bool-cases, inl, inr, ok, raise_if, >>-eq-ok,
  raise_if-eq-ok,
}
use mathlib.Core.List.{Memᴰ, append-nil, append_assoc}
use qveris_capability_benchm.Prelude.Dict.{Dict, lookup, insert, lookup-insert, keys, contains-keys}
use qveris_capability_benchm.Models.Release.{is_empty}
use qveris_capability_benchm.AgentTrial.ParamFill.Passed.{nothing, test_or-some}
use qveris_capability_benchm.Models.Run.{SourceReference}
use qveris_capability_benchm.Suites.Compiler.{
  CapDefinition, CompiledSuite, Documents, Snapshot, compile_suite,
}
use qveris_capability_benchm.QuestionBank.{
  runnable, candidate, question_role_eq, Lifecycle, CandidateCapability, PackFile, CapPack,
  has_returned, pack_compiles, matches_harbor, check_runnable, packs_of, check_packs,
  check_lifecycle, cap_packs_by_id, no_pack, no_compilable_pack, harbor_mismatch,
}

pub any-found {ℓ} :
    {A : Type ℓ} (test : A → Bool) (xs : List A)
    → any test xs ≡ true
    → (x : A) × Memᴰ x xs × (test x ≡ true)
any-found test [] h = absurd (cc)
any-found test (x ∷ xs) h = elim (Bool-cases (test x)) [
  | inl t ↦ (x, Memᴰ.head refl, t)
  | inr f ↦ (let (y, m, t) = any-found test xs (ground arith) in (y, Memᴰ.tail m, t))
]

pub not-true : (b : Bool) → not b ≡ false → b ≡ true
not-true b h = ground arith

-- The packs that the public files give for an identity, in the order of the files
abbrev pub packs_for : String → List PackFile → List CapPack
packs_for i [] = []
packs_for i (file ∷ files) =
    let rest = packs_for i files in
    elim file.cap [
      | none ↦ rest
      | some cap ↦
          if not file.is_private && i == cap.cap_id
          then record { cap = cap; documents = file.documents } ∷ rest
          else rest
    ]

-- Every public file holds a CAP.
abbrev pub Readable : PackFile → Type 0
Readable file = file.is_private ≡ false → (cap : CapDefinition) × (file.cap ≡ some cap)

packs_of-insert :
    (i j : String) (own : List CapPack) (packs : Dict String (List CapPack))
    → packs_of (insert j own packs) i ≡ (if i == j then own else packs_of packs i)
packs_of-insert i j own packs =
    ap (λ (o : Option (List CapPack)). elim o [ none ↦ [] | some ps ↦ ps ])
      (lookup-insert i j own packs)
    ∙ go (i == j)
  where
    go :
        (b : Bool)
        → (elim (if b then some own else lookup i packs) [ none ↦ [] | some ps ↦ ps ])
          ≡ (if b then own else packs_of packs i)
    go true = refl
    go false = refl

own_or_other :
    (i j : String) (packs : Dict String (List CapPack)) (pack : CapPack) (others : List CapPack)
    → (if i == j then packs_of packs j ++ pack ∷ [] else packs_of packs i) ++ others
      ≡ packs_of packs i ++ (if i == j then pack ∷ others else others)
own_or_other i j packs pack others = elim (Bool-cases (i == j)) [
  | inl e ↦ rw e (
      append_assoc (packs_of packs j) (pack ∷ []) others
      ∙ ap (λ k. packs_of packs k ++ pack ∷ others) (sym ((==_iff i j).0 e)))
  | inr e ↦ rw e refl
]

pub cap_packs_by_id-packs_for :
    (files : List PackFile) (packs result : Dict String (List CapPack)) (i : String)
    → cap_packs_by_id packs files ≡ ok result
    → packs_of result i ≡ packs_of packs i ++ packs_for i files
unfolding cap_packs_by_id
cap_packs_by_id-packs_for [] packs result i h =
    ap (λ r. packs_of r i) (ok-injective h) ∙ sym (append-nil (packs_of packs i))
cap_packs_by_id-packs_for (file ∷ files) packs result i h =
    go file.is_private file.cap refl refl (λ p. cap_packs_by_id-packs_for files p result i)
  where
    go :
        (b : Bool) (c : Option CapDefinition)
        → file.is_private ≡ b
        → file.cap ≡ c
        → ((p : Dict String (List CapPack))
            → cap_packs_by_id p files ≡ ok result
            → packs_of result i ≡ packs_of p i ++ packs_for i files)
        → packs_of result i ≡ packs_of packs i ++ packs_for i (file ∷ files)
    go true none b c rest = rw c (rest packs (rw b at h))
    go true (some cap) b c rest = rw (c, b) (rest packs (rw b at h))
    go false none b c rest = absurd (cc (rw (b, c) at h))
    go false (some cap) b c rest =
        let pack : CapPack = record { cap = cap; documents = file.documents } in
        let own = packs_of packs cap.cap_id ++ pack ∷ [] in
        let held = rest (insert cap.cap_id own packs) (rw (b, c) at h) in
        let now =
          held ∙ ap (λ ps. ps ++ packs_for i files) (packs_of-insert i cap.cap_id own packs) in
        rw (c, b) (now ∙ own_or_other i cap.cap_id packs pack (packs_for i files))

pub cap_packs_by_id-Readable :
    (files : List PackFile) (packs result : Dict String (List CapPack))
    → cap_packs_by_id packs files ≡ ok result
    → All Readable files
unfolding cap_packs_by_id
cap_packs_by_id-Readable [] packs result h = tt
cap_packs_by_id-Readable (file ∷ files) packs result h =
    go file.is_private file.cap refl refl (λ p. cap_packs_by_id-Readable files p result)
  where
    go :
        (b : Bool) (c : Option CapDefinition)
        → file.is_private ≡ b
        → file.cap ≡ c
        → ((p : Dict String (List CapPack))
            → cap_packs_by_id p files ≡ ok result
            → All Readable files)
        → All Readable (file ∷ files)
    go true c b e rest = (λ f. absurd (cc), rest packs (rw b at h))
    go false none b e rest = absurd (cc (rw (b, e) at h))
    go false (some cap) b e rest = (λ f. (cap, e), rest _ (rw (b, e) at h))

pub packs_for-keys :
    (files : List PackFile) (packs : Dict String (List CapPack)) (i : String)
    → cap_packs_by_id [] files ≡ ok packs
    → packs_for i files ≢ []
    → contains (keys packs) i ≡ true
unfolding lookup
packs_for-keys files packs i h some_pack = (contains-keys packs i).1 (λ gone. some_pack (
    sym (cap_packs_by_id-packs_for files [] packs i h)
    ∙ ap (λ (o : Option (List CapPack)). elim o [ none ↦ [] | some ps ↦ ps ]) gone))

-- A source of the CAP has the capability's Harbor identity.
pub FromHarbor : CandidateCapability → CapPack → Type 0
FromHarbor capability pack =
    (source : SourceReference) × Memᴰ source pack.cap.sources
    × (source.harbor_capability_id ≡ capability.harbor_capability_id)

matches-FromHarbor :
    (capability : CandidateCapability) (p : CapPack)
    → matches_harbor capability p ≡ true
    → FromHarbor capability p
unfolding FromHarbor
matches-FromHarbor capability p h =
    let (source, m, e) =
      any-found (λ (s : SourceReference). s.harbor_capability_id == capability.harbor_capability_id)
        p.cap.sources h in
    (source, m, (==_iff _ _).0 e)

module _ (validate_harbor_source : SourceReference → Result String (Unit {0}))
    (suite_fingerprint : Snapshot → String) where
  -- The suite of the pack compiles.
  pub Compilable : CapPack → Type 0
  Compilable pack =
      (documents : Documents) × (pack.documents ≡ some documents)
      × (compiled : CompiledSuite) × (compile_suite validate_harbor_source suite_fingerprint
            documents
          ≡ ok compiled)

  -- A runnable capability has a pack that compiles, and each of its packs has a source with the
  -- capability's Harbor identity; a candidate has no pack.
  pub record IsPlaced (files : List PackFile) (capability : CandidateCapability) : Type 0 where
    pub ready :
        capability.lifecycle ≡ runnable
        → ((p : CapPack) × Memᴰ p (packs_for capability.cap_id files) × Compilable p)
          × All (FromHarbor capability) (packs_for capability.cap_id files)
    pub waiting : capability.lifecycle ≡ candidate → packs_for capability.cap_id files ≡ []

  pack_compiles-Compilable :
      (p : CapPack) → pack_compiles validate_harbor_source suite_fingerprint p ≡ true → Compilable p
  unfolding Compilable
  pack_compiles-Compilable p h =
      let (documents, e, r) =
        test_or-some (λ d. has_returned (compile_suite validate_harbor_source suite_fingerprint d))
          p.documents h in
      elim (Result-cases (compile_suite validate_harbor_source suite_fingerprint documents)) [
        | inl (compiled, c) ↦ (documents, e, compiled, c)
        | inr (f, c) ↦ absurd (cc (rw c at r))
      ]

  packs-runnable :
      (capability : CandidateCapability) (own : List CapPack) (l : Lifecycle)
      → check_packs validate_harbor_source suite_fingerprint l capability own ≡ ok tt
      → l ≡ runnable
      → ((p : CapPack) × Memᴰ p own × Compilable p) × All (FromHarbor capability) own
  unfolding check_packs check_runnable
  packs-runnable capability own candidate h e = absurd (cc)
  packs-runnable capability own runnable h e =
      let compiles = pack_compiles validate_harbor_source suite_fingerprint in
      let (a, h1) = >>-eq-ok (raise_if (is_empty own) (no_pack capability.cap_id)) _ h in
      let (b, h2) = >>-eq-ok (raise_if (not (any compiles own)) no_compilable_pack) _ h1 in
      let matched =
        any-false-All (λ p. not (matches_harbor capability p)) own
          (raise_if-eq-ok (any (λ p. not (matches_harbor capability p)) own)
            (harbor_mismatch capability.cap_id) h2) in
      let (found, listed, c) =
        any-found compiles own
          (not-true _ (raise_if-eq-ok (not (any compiles own)) no_compilable_pack b)) in
      (
        (found, listed, pack_compiles-Compilable found c),
        All-map (λ p f. matches-FromHarbor capability p (not-true _ f)) own matched,
      )

  packs-candidate :
      (capability : CandidateCapability) (own : List CapPack) (l : Lifecycle)
      → check_packs validate_harbor_source suite_fingerprint l capability own ≡ ok tt
      → l ≡ candidate
      → own ≡ []
  unfolding check_packs
  packs-candidate capability own runnable h e = absurd (cc)
  packs-candidate capability own candidate h e = nothing own (not-true _ (raise_if-eq-ok _ _ h))

  pub capability-IsPlaced :
      (files : List PackFile) (packs : Dict String (List CapPack))
      (capability : CandidateCapability)
      → packs_of packs capability.cap_id ≡ packs_for capability.cap_id files
      → check_lifecycle validate_harbor_source suite_fingerprint packs capability ≡ ok tt
      → IsPlaced files capability
  unfolding check_lifecycle
  capability-IsPlaced files packs capability same h =
      let checked = rw same at h in
      record {
        ready = packs-runnable capability _ capability.lifecycle checked;
        waiting = packs-candidate capability _ capability.lifecycle checked;
      }
