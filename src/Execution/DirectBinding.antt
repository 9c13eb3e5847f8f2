-- ===== src/Execution/DirectBinding.antt =====
-- src/qveris_bench/execution/direct_binding.py: the registry that says how each applicable cell is
-- called. Reading the registry's file and its digest are left out.
pub mod Cells
use qveris_capability_benchm.Prelude.{
  ℕ, String, Bool, true, false, not, ◌&&◌, ◌||◌, Option, none, some, List, [], ◌∷◌, ◌==◌, contains,
  select, string_eq, pair_eq, same_set, is_distinct, length, nat_eq, to_set, if◌then◌else◌, Result,
  ok, err, ◌>>=◌, ◌>>◌, raise_if, for_each,
}
use qveris_capability_benchm.Prelude.Dict.{Dict, lookup, insert}
use qveris_capability_benchm.Models.Enums.{
  AccessPathType, native_mcp, qveris_connector, access_path_type_eq,
}
use qveris_capability_benchm.Models.Provider.{AccessPath}
use qveris_capability_benchm.Models.Run.{RunCell}
use qveris_capability_benchm.Models.Suite.{is_none, is_some}
use qveris_capability_benchm.Models.Value.{Value}
use qveris_capability_benchm.Suites.Compiler.{CompiledSuite}

-- `parameters` and `request_identity` are JSON.
pub record DirectBinding : Type 0 where
  pub binding_id : String
  pub suite_id : String
  pub version : String
  pub case_id : String
  pub access_path_id : String
  pub provider_id : String
  pub transport : AccessPathType
  pub source_digest : String
  pub tool_id : String
  pub parameters : Value
  pub discovery_query : Option String
  pub request_identity : Option Value

pub data DirectBindingError : Type 0 where
  unsupported_transport : DirectBindingError
  requires_discovery_query : DirectBindingError
  forbids_discovery_query : DirectBindingError
  not_one_binding : DirectBindingError
  duplicate_binding_id : DirectBindingError
  not_the_applicable_cells : DirectBindingError
  suite_mismatch : DirectBindingError
  key_error : DirectBindingError
  provider_mismatch : DirectBindingError
  transport_mismatch : DirectBindingError

-- `DirectBinding.validate_transport_contract`
unfoldable pub validate_transport_contract : DirectBinding → Result DirectBindingError (Unit {0})
validate_transport_contract binding = do
  raise_if (not (binding.transport == native_mcp || binding.transport == qveris_connector))
      unsupported_transport
  raise_if (binding.transport == qveris_connector && is_none binding.discovery_query)
      requires_discovery_query
  raise_if (binding.transport == native_mcp && is_some binding.discovery_query)
      forbids_discovery_query

abbrev pub Cell : Type 0
Cell = String × String

abbrev pub cell_of : DirectBinding → Cell
cell_of binding = (binding.case_id, binding.access_path_id)

abbrev pub only : List DirectBinding → Result DirectBindingError DirectBinding
only [] = err not_one_binding
only (b ∷ []) = ok b
only (b ∷ c ∷ bs) = err not_one_binding

-- `DirectBindingRegistry.for_cell`
unfoldable pub for_cell :
    List DirectBinding → String → String → Result DirectBindingError DirectBinding
for_cell bindings case_id access_path_id = only (
    select (λ (b : DirectBinding). b.case_id == case_id && b.access_path_id == access_path_id)
      bindings)

abbrev pub binding_ids : List DirectBinding → List String
binding_ids [] = []
binding_ids (b ∷ bs) = b.binding_id ∷ binding_ids bs

-- `load_direct_binding_registry`, behind the parser
pub load_direct_binding_registry :
    List DirectBinding → Result DirectBindingError (List DirectBinding)
load_direct_binding_registry bindings = do
  raise_if (not (is_distinct (binding_ids bindings))) duplicate_binding_id
  ok bindings

abbrev pub cells_of : List DirectBinding → List Cell
cells_of [] = []
cells_of (b ∷ bs) = cell_of b ∷ cells_of bs

-- `expected`, as a list
abbrev pub applicable_cells : List RunCell → List Cell
applicable_cells [] = []
applicable_cells (cell ∷ cells) =
    let rest = applicable_cells cells in
    if cell.applicable then (cell.case_id, cell.access_path_id) ∷ rest else rest

paths_by_id : Dict String AccessPath → List AccessPath → Dict String AccessPath
paths_by_id d [] = d
paths_by_id d (p ∷ ps) = paths_by_id (insert p.access_path_id p d) ps

check_path : DirectBinding → Option AccessPath → Result DirectBindingError (Unit {0})
check_path binding none = err key_error
check_path binding (some path) = do
  raise_if (not (binding.provider_id == path.provider_id)) provider_mismatch
  raise_if (not (binding.transport == path.path_type)) transport_mismatch

check_binding : CompiledSuite → DirectBinding → Result DirectBindingError (Unit {0})
unfolding paths_by_id check_path
check_binding compiled binding = do
  raise_if (not (binding.suite_id == compiled.suite.suite_id)) suite_mismatch
  check_path binding (lookup binding.access_path_id (paths_by_id [] compiled.access_paths))

-- `validate_direct_binding_registry`, of the compiled suite
unfoldable pub validate_direct_binding_registry :
    List DirectBinding → CompiledSuite → Result DirectBindingError (Unit {0})
unfolding check_binding
validate_direct_binding_registry bindings compiled = do
  raise_if
      (not (is_distinct (cells_of bindings))
        || not (same_set (cells_of bindings) (applicable_cells compiled.run_plan.cells)))
      not_the_applicable_cells
  for_each (check_binding compiled) bindings
