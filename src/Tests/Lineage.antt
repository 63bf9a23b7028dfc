-- ===== src/Tests/Lineage.antt =====
-- Lines of ancestors on small graphs, one of them circular.
use credit_iq_ai.Prelude.{
  ◌≡◌, ◌≢◌, refl, ◌<◌, String, Option, none, some, List, [], ◌∷◌, length, map,
}
use credit_iq_ai.Errors.{Outcome, ok, err}
use credit_iq_ai.Registry.Domain.{champion, ModelVersion}
use credit_iq_ai.Lineage.{
  LineageError, lineage_error, rounds_ended, ancestors, children, validate_lineage, lineage_graph,
}
use credit_iq_ai.Lineage.Ancestry.{IsLine, ancestors_end, ancestors-IsLine}
use credit_iq_ai.Tests.Models.{model, registry}

unfoldable pub lineages : Unit {0}
unfolding registry ancestors children validate_lineage lineage_graph
lineages = tt

abbrev named : String → Option String → ModelVersion
named v parent = record (model champion) {
  version = v;
  lineage = record { parent_version = parent };
}

abbrev versions : List ModelVersion
versions = named "1" none ∷ named "3" (some "2") ∷ named "2" (some "1") ∷ []

abbrev circle : List ModelVersion
circle = named "1" (some "2") ∷ named "2" (some "1") ∷ []

abbrev names : Outcome LineageError (List ModelVersion) → Outcome LineageError (List String)
names (ok ms) = ok (map (λ m. m.version) ms)
names (err e) = err e

line_of_3 : names (ancestors versions "3") ≡ ok ("2" ∷ "1" ∷ [])
unfolding lineages
line_of_3 = refl

children_of_1 : names (children versions "1") ≡ ok ("2" ∷ [])
unfolding lineages
children_of_1 = refl

circle_refused :
    names (lineage_graph circle) ≡ err (lineage_error "Circular model lineage detected")
unfolding lineages
circle_refused = refl

ancestors_end_example : ancestors circle "1" ≢ err rounds_ended
ancestors_end_example = ancestors_end circle "1"

ancestors-IsLine_example :
    (line : List ModelVersion) × (ancestors versions "3" ≡ ok line)
    × IsLine versions (named "3" (some "2")) ("3" ∷ []) line
    × (length line < length versions)
unfolding lineages
ancestors-IsLine_example =
    ancestors-IsLine versions "3" {graph = versions} {m = named "3" (some "2")} refl refl
