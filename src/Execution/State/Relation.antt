-- ===== src/Execution/State/Relation.antt =====
-- The life of a cell as a step relation, and `transition` as its decision procedure.
use qveris_capability_benchm.Prelude.{
  String, ◌≡◌, ◌≢◌, ◌↔◌, refl, sym, subst, ◌∙◌, Option, some, arith, ok,
}
use qveris_capability_benchm.Models.Enums.{
  CellState, planned, running, completed, provider_negative, infra_blocked, not_applicable,
  excluded, cell_state_eq,
}
use qveris_capability_benchm.Execution.State.{transition}

-- How a cell may move, with the digest that the move carries.
pub data Move : CellState → CellState → Option String → Type 0 where
  start : {d : Option String} → Move planned running d
  skip : {d : Option String} → Move planned not_applicable d
  restart : {d : Option String} → Move infra_blocked running d
  complete : {d : Option String} → Move running completed d
  refuse : {d : Option String} → Move running provider_negative d
  block : {d : Option String} → Move running infra_blocked d
  exclude_planned : (digest : String) → Move planned excluded (some digest)
  exclude_blocked : (digest : String) → Move infra_blocked excluded (some digest)
  exclude_running : (digest : String) → Move running excluded (some digest)
  stay : {s : CellState} {d : Option String} → s ≢ excluded → Move s s d
  stay_excluded : (digest : String) → Move excluded excluded (some digest)

transition-Move :
    (current target : CellState) (d : Option String)
    → transition current target d ≡ ok target
    → Move current target d
unfolding transition
transition-Move planned planned d h = stay (ground arith)
transition-Move planned running d h = start
transition-Move planned not_applicable d h = skip
transition-Move planned excluded (some x) h = exclude_planned x
transition-Move running running d h = stay (ground arith)
transition-Move running completed d h = complete
transition-Move running provider_negative d h = refuse
transition-Move running infra_blocked d h = block
transition-Move running excluded (some x) h = exclude_running x
transition-Move infra_blocked infra_blocked d h = stay (ground arith)
transition-Move infra_blocked running d h = restart
transition-Move infra_blocked excluded (some x) h = exclude_blocked x
transition-Move completed completed d h = stay (ground arith)
transition-Move provider_negative provider_negative d h = stay (ground arith)
transition-Move not_applicable not_applicable d h = stay (ground arith)
transition-Move excluded excluded (some x) h = stay_excluded x
transition-Move _ _ _ h = absurd (ground arith)

Move-transition :
    {current target : CellState} {d : Option String}
    → Move current target d
    → transition current target d ≡ ok target
unfolding transition
Move-transition start = refl
Move-transition skip = refl
Move-transition restart = refl
Move-transition complete = refl
Move-transition refuse = refl
Move-transition block = refl
Move-transition (exclude_planned x) = refl
Move-transition (exclude_blocked x) = refl
Move-transition (exclude_running x) = refl
Move-transition (stay {s} n) = ground arith
Move-transition (stay_excluded x) = refl

transition-target :
    (current target : CellState) (d : Option String) {s : CellState}
    → transition current target d ≡ ok s
    → s ≡ target
unfolding transition
transition-target current target d h = ground arith

-- `transition` returns exactly where the step relation allows the move, and returns its target.
pub transition-iff-Move :
    (current target s : CellState) (d : Option String)
    → (transition current target d ≡ ok s) ↔ (Move current target d × (s ≡ target))
transition-iff-Move current target s d = (
  λ h.
      let e : s ≡ target = transition-target current target d h in
      (transition-Move current target d (cc), e),
  λ (m, e). cc (Move-transition m),
)

-- A history of calls of `transition` that returned, newest last.
pub data Reach (s : CellState) : CellState → Type 0 where
  here : Reach s s
  next :
      {t v : CellState} (u : CellState) (d : Option String)
      → Reach s t
      → transition t u d ≡ ok v
      → Reach s v

abbrev pub IsFinal : CellState → Type 0
IsFinal completed = Unit
IsFinal provider_negative = Unit
IsFinal excluded = Unit
IsFinal not_applicable = Unit
IsFinal _ = ⊥

Move_final : {s t : CellState} {d : Option String} → Move s t d → IsFinal s → t ≡ s
Move_final start f = absurd f
Move_final skip f = absurd f
Move_final restart f = absurd f
Move_final complete f = absurd f
Move_final refuse f = absurd f
Move_final block f = absurd f
Move_final (exclude_planned x) f = absurd f
Move_final (exclude_blocked x) f = absurd f
Move_final (exclude_running x) f = absurd f
Move_final (stay n) f = refl
Move_final (stay_excluded x) f = refl

-- A cell in one of the states COMPLETED, PROVIDER_NEGATIVE, EXCLUDED and NOT_APPLICABLE never
-- leaves it, whatever history of transitions follows.
pub Reach-final : {s t : CellState} → Reach s t → IsFinal s → t ≡ s
Reach-final here f = refl
Reach-final (next {t} {v} u d r h) f =
    let e = Reach-final r f in
    let (m, same) = (transition-iff-Move t u v d).0 h in
    same ∙ Move_final m (subst IsFinal (sym e) f) ∙ e
