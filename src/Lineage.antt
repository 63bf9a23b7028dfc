-- ===== src/Lineage.antt =====
-- ai-engine/creditiq_ai/model_operations/lineage/graph.py: the ancestry of the versions of a model.
pub mod Ancestry
use credit_iq_ai.Prelude.{
  ℕ, zero, suc, ◌+◌, String, Bool, true, false, not, ◌&&◌, ◌||◌, Option, none, some, is_none, List,
  [], ◌∷◌, ◌++◌, length, find, exists, select, update_first, if◌then◌else◌,
}
use credit_iq_ai.Prelude.Text.{same, text_leb}
use credit_iq_ai.Prelude.Sorting.{sort_by}
use credit_iq_ai.Errors.{Outcome, ok, err, raise_if, or_raise, ◌>>=◌, ◌>>◌}
use credit_iq_ai.Registry.Domain.{ModelIdentity, key, ModelLineage, ModelVersion}

-- `rounds_ended` stands for a walk that is longer than the rounds it is given.
pub data LineageError : Type 0 where
  lineage_error : String → LineageError
  rounds_ended : LineageError

abbrev pub has_version : String → ModelVersion → Bool
has_version v m = same m.version v

-- `self._versions[item.version] = item`: the values of the dictionary, in the order of its keys.
abbrev pub put_version : ModelVersion → List ModelVersion → List ModelVersion
put_version m graph =
    if exists (has_version m.version) graph
    then update_first (has_version m.version) (λ old. m) graph
    else graph ++ (m ∷ [])

abbrev pub index_versions : List ModelVersion → List ModelVersion → List ModelVersion
index_versions graph [] = graph
index_versions graph (m ∷ ms) = index_versions (put_version m graph) ms

-- `len({item.identity.key for item in versions}) > 1`
abbrev pub has_many_identities : List ModelVersion → Bool
has_many_identities [] = false
has_many_identities (m ∷ ms) = exists (λ x. not (same (key x.identity) (key m.identity))) ms

-- `_get`
abbrev pub get_version : List ModelVersion → String → Outcome LineageError ModelVersion
get_version graph v =
    or_raise (find (has_version v) graph) (lineage_error "Lineage version was not found")

abbrev filled : Option String → Option String
filled none = none
filled (some parent) = if same parent "" then none else some parent

-- A parent that is named by the empty text ends the walk as well.
abbrev pub parent_of : ModelVersion → Option String
parent_of m = filled m.lineage.parent_version

-- `version in visited`
abbrev pub is_visited : List String → String → Bool
is_visited visited v = exists (same v) visited

-- One round of the loop of `ancestors`; `walk` is the rest of it.
abbrev pub climb_step :
    (ModelVersion → List String → Outcome LineageError (List ModelVersion))
    → List ModelVersion
    → Option String
    → List String
    → Outcome LineageError (List ModelVersion)
climb_step walk graph none visited = ok []
climb_step walk graph (some parent) visited = do
  raise_if (is_visited visited parent) (lineage_error "Circular model lineage detected")
  current ← get_version graph parent
  rest ← walk current (parent ∷ visited)
  ok (current ∷ rest)

abbrev pub climb :
    ℕ → List ModelVersion → ModelVersion → List String → Outcome LineageError (List ModelVersion)
climb zero graph current visited = err rounds_ended
climb (suc rounds) graph current visited =
    climb_step (climb rounds graph) graph (parent_of current) visited

unfoldable pub ancestors : List ModelVersion → String → Outcome LineageError (List ModelVersion)
ancestors graph v = do
  current ← get_version graph v
  climb (suc (length graph)) graph current (v ∷ [])

abbrev pub names_parent : String → Option String → Bool
names_parent v none = false
names_parent v (some parent) = same parent v

unfoldable pub children : List ModelVersion → String → Outcome LineageError (List ModelVersion)
children graph v = do
  m ← get_version graph v
  ok (
      sort_by (λ a b. text_leb a.version b.version)
        (select (λ x. names_parent v x.lineage.parent_version) graph))

abbrev pub is_unknown : List ModelVersion → Option String → Bool
is_unknown graph none = false
is_unknown graph (some parent) = not (exists (has_version parent) graph)

-- `_validate`, from one entry of the dictionary on
unfoldable pub validate_lineage :
    List ModelVersion → List ModelVersion → Outcome LineageError (Unit {0})
validate_lineage graph [] = ok tt
validate_lineage graph (m ∷ ms) = do
  raise_if (is_unknown graph m.lineage.parent_version)
      (lineage_error "Model lineage references an unknown parent")
  line ← ancestors graph m.version
  validate_lineage graph ms

-- `LineageGraph(versions)`
unfoldable pub lineage_graph : List ModelVersion → Outcome LineageError (List ModelVersion)
lineage_graph versions = do
  raise_if (has_many_identities versions)
      (lineage_error "Lineage graph requires one model identity")
  validate_lineage (index_versions [] versions) (index_versions [] versions)
  ok (index_versions [] versions)

-- `identity`
abbrev pub graph_identity : List ModelVersion → Option ModelIdentity
graph_identity [] = none
graph_identity (m ∷ ms) = some m.identity
