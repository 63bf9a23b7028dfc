-- ===== src/Lineage/Ancestry.antt =====
-- ai-engine/creditiq_ai/model_operations/lineage/graph.py: walks to the ancestors end.
use credit_iq_ai.Prelude.{
  ◌≡◌, ◌≢◌, ◌⊎◌, refl, sym, ap, subst, ◌∙◌, ℕ, zero, suc, ◌≤◌, ◌<◌, String, Bool, true, false, not,
  Option, none, some, List, [], ◌∷◌, length, find, All, find-All, find-holds, arith, inl, inr,
  Bool-cases, some-injective, Option-cases,
}
use credit_iq_ai.Prelude.Positions.{count}
use credit_iq_ai.Prelude.Text.{same, same_iff}
use credit_iq_ai.Errors.{
  Outcome, ok, err, raise_if, or_raise, ◌>>=◌, >>=-ok_inv, ok-injective, raise_if-passed,
  or_raise-found,
}
use credit_iq_ai.Registry.Domain.{ModelVersion}
use credit_iq_ai.Lineage.{
  lineage_error, rounds_ended, has_version, get_version, parent_of, is_visited, climb_step, climb,
  ancestors, validate_lineage, lineage_graph, index_versions, is_unknown, has_many_identities,
}

-- The versions of the graph that a walk has not been at.
abbrev unvisited : List ModelVersion → List String → ℕ
unvisited graph visited = count (λ m. not (is_visited visited m.version)) graph

-- Parent after parent, none twice, up to a version without a parent.
pub data IsLine (graph : List ModelVersion)
    : ModelVersion → List String → List ModelVersion → Type 0 where
  root : {m : ModelVersion} {visited : List String} → parent_of m ≡ none → IsLine graph m visited []
  child :
      {m : ModelVersion} {visited : List String} {rest : List ModelVersion} (parent : String)
      (found : ModelVersion)
      → parent_of m ≡ some parent
      → is_visited visited parent ≡ false
      → find (has_version parent) graph ≡ some found
      → IsLine graph found (parent ∷ visited) rest
      → IsLine graph m visited (found ∷ rest)

unvisited_bounded :
    (graph : List ModelVersion) (visited : List String) → unvisited graph visited ≤ length graph
unvisited_bounded [] visited = omega arith
unvisited_bounded (m ∷ graph) visited = let later = unvisited_bounded graph visited in ground arith

unvisited_fewer :
    (graph : List ModelVersion) (visited : List String) (v : String)
    → unvisited graph (v ∷ visited) ≤ unvisited graph visited
unvisited_fewer [] visited v = omega arith
unvisited_fewer (m ∷ graph) visited v = let later = unvisited_fewer graph visited v in ground arith

-- A version that is visited for the first time is one less to visit.
unvisited_less :
    (graph : List ModelVersion) (visited : List String) (v : String) {m : ModelVersion}
    → find (has_version v) graph ≡ some m
    → is_visited visited v ≡ false
    → unvisited graph (v ∷ visited) < unvisited graph visited
unvisited_less [] visited v h new = cc
unvisited_less (x ∷ graph) visited v h new = elim (Bool-cases (same x.version v)) [
  | inl hit ↦
      let named : x.version ≡ v = (same_iff x.version v).0 hit in
      let first : is_visited visited x.version ≡ false =
        subst (λ w. is_visited visited w ≡ false) (sym named) new in
      let later = unvisited_fewer graph visited v in ground arith
  | inr miss ↦ let later = unvisited_less graph visited v (rw miss at h) new in ground arith
]

err-injective : {E A : Type 0} {x y : E} → ◌≡◌ {A = Outcome E A} (err x) (err y) → x ≡ y
err-injective h = cc

err_inv :
    {E A B : Type 0} (first : Outcome E A) (rest : A → Outcome E B) {e : E}
    → (first >>= rest) ≡ err e
    → (first ≡ err e) ⊎ ((a : A) × (first ≡ ok a) × (rest a ≡ err e))
err_inv (err x) rest h = inl (ap err (err-injective h))
err_inv (ok a) rest h = inr (a, refl, h)

refuses_otherwise :
    (b : Bool) (message : String) → raise_if b (lineage_error message) ≢ err rounds_ended
refuses_otherwise true message e = cc
refuses_otherwise false message e = cc

misses_otherwise :
    (o : Option ModelVersion) (message : String)
    → or_raise o (lineage_error message) ≢ err rounds_ended
misses_otherwise none message e = cc
misses_otherwise (some m) message e = cc

-- A walk with more rounds than versions left does not run out of them.
climb_ends :
    (rounds : ℕ) (graph : List ModelVersion) (current : ModelVersion) (visited : List String)
    → unvisited graph visited < rounds
    → climb rounds graph current visited ≢ err rounds_ended
climb_ends zero graph current visited h e = omega arith
climb_ends (suc rounds) graph current visited h e = elim (Option-cases (parent_of current)) [
  | inl top ↦
      let e0 : climb_step (climb rounds graph) graph none visited ≡ err rounds_ended =
        subst (λ o. climb_step (climb rounds graph) graph o visited ≡ err rounds_ended) top e in
      cc
  | inr (parent, up) ↦
      let e0 : climb_step (climb rounds graph) graph (some parent) visited ≡ err rounds_ended =
        subst (λ o. climb_step (climb rounds graph) graph o visited ≡ err rounds_ended) up e in
      elim (err_inv (raise_if (is_visited visited parent) _) _ e0) [
        | inl again ↦ refuses_otherwise (is_visited visited parent) _ again
        | inr (u, hv, e1) ↦ elim (err_inv (get_version graph parent) _ e1) [
          | inl missing ↦ misses_otherwise (find (has_version parent) graph) _ missing
          | inr (found, hf, e2) ↦
              let new = raise_if-passed (is_visited visited parent) _ hv in
              let at = or_raise-found (find (has_version parent) graph) _ hf in
              let less = unvisited_less graph visited parent at new in
              elim (err_inv (climb rounds graph found (parent ∷ visited)) _ e2) [
                | inl out ↦ climb_ends rounds graph found (parent ∷ visited) (omega arith) out
                | inr (rest, hr, e3) ↦ cc
              ]
        ]
      ]
]

climb-IsLine :
    (rounds : ℕ) (graph : List ModelVersion) (current : ModelVersion) (visited : List String)
    {line : List ModelVersion}
    → climb rounds graph current visited ≡ ok line
    → IsLine graph current visited line × (length line ≤ unvisited graph visited)
climb-IsLine zero graph current visited h = cc
climb-IsLine (suc rounds) graph current visited {line} h = elim (Option-cases (parent_of current)) [
  | inl top ↦
      let h0 : climb_step (climb rounds graph) graph none visited ≡ ok line =
        subst (λ o. climb_step (climb rounds graph) graph o visited ≡ ok line) top h in
      subst (λ l. IsLine graph current visited l × (length l ≤ unvisited graph visited))
        (ok-injective h0) (root top, omega arith)
  | inr (parent, up) ↦
      let h0 : climb_step (climb rounds graph) graph (some parent) visited ≡ ok line =
        subst (λ o. climb_step (climb rounds graph) graph o visited ≡ ok line) up h in
      let (u, hv, h1) = >>=-ok_inv (raise_if (is_visited visited parent) _) _ h0 in
      let (found, hf, h2) = >>=-ok_inv (get_version graph parent) _ h1 in
      let (rest, hr, h3) = >>=-ok_inv (climb rounds graph found (parent ∷ visited)) _ h2 in
      let new = raise_if-passed (is_visited visited parent) _ hv in
      let at = or_raise-found (find (has_version parent) graph) _ hf in
      let (upper, short) = climb-IsLine rounds graph found (parent ∷ visited) hr in
      let less = unvisited_less graph visited parent at new in
      subst (λ l. IsLine graph current visited l × (length l ≤ unvisited graph visited))
        (ok-injective h3) (child parent found up new at upper, omega arith)
]

-- In any graph, the walk to the ancestors ends within as many rounds as the graph has versions and
-- one more, with a line or with an error.
pub ancestors_end : (graph : List ModelVersion) (v : String) → ancestors graph v ≢ err rounds_ended
unfolding ancestors
ancestors_end graph v e = elim (err_inv (get_version graph v) _ e) [
  | inl missing ↦ misses_otherwise (find (has_version v) graph) _ missing
  | inr (m, hm, e1) ↦
      let few = unvisited_bounded graph (v ∷ []) in
      climb_ends (suc (length graph)) graph m (v ∷ []) (omega arith) e1
]

abbrev HasLine : List ModelVersion → ModelVersion → Type 0
HasLine graph m = (line : List ModelVersion) × (ancestors graph m.version ≡ ok line)

validate_lineage-HasLine :
    (graph ms : List ModelVersion) {u : Unit {0}}
    → validate_lineage graph ms ≡ ok u
    → All (HasLine graph) ms
unfolding validate_lineage
validate_lineage-HasLine graph [] h = tt
validate_lineage-HasLine graph (m ∷ ms) h =
    let (u, hk, h1) = >>=-ok_inv (raise_if (is_unknown graph m.lineage.parent_version) _) _ h in
    let (line, hl, h2) = >>=-ok_inv (ancestors graph m.version) _ h1 in
    ((line, hl), validate_lineage-HasLine graph ms h2)

-- In a graph that was built, the ancestors of each of its versions are answered: parent after
-- parent from the version on, no version twice, up to one without a parent, and fewer than the
-- versions of the graph.
pub ancestors-IsLine :
    (versions : List ModelVersion) (v : String) {graph : List ModelVersion} {m : ModelVersion}
    → lineage_graph versions ≡ ok graph
    → find (has_version v) graph ≡ some m
    → (line : List ModelVersion) × (ancestors graph v ≡ ok line)
      × IsLine graph m (v ∷ []) line
      × (length line < length graph)
unfolding lineage_graph ancestors
ancestors-IsLine versions v {graph} {m} h at =
    let (u, hi, h1) = >>=-ok_inv (raise_if (has_many_identities versions) _) _ h in
    let (u2, hv, h2) =
      >>=-ok_inv (validate_lineage (index_versions [] versions) (index_versions [] versions)) _
        h1 in
    let built : index_versions [] versions ≡ graph = ok-injective h2 in
    let checked =
      subst (λ g. All (HasLine g) g) built
        (validate_lineage-HasLine (index_versions [] versions) (index_versions [] versions) hv) in
    let (line, hl) = find-All (HasLine graph) (has_version v) graph at checked in
    let named : m.version ≡ v = (same_iff m.version v).0 (find-holds (has_version v) graph at) in
    let answered : ancestors graph v ≡ ok line =
      subst (λ w. ancestors graph w ≡ ok line) named hl in
    let (first, hf, walk) = >>=-ok_inv (get_version graph v) _ answered in
    let same_first : first ≡ m =
      some-injective (sym (or_raise-found (find (has_version v) graph) _ hf) ∙ at) in
    let (upper, short) = climb-IsLine (suc (length graph)) graph first (v ∷ []) walk in
    let less = unvisited_less graph [] v at refl in
    let few = unvisited_bounded graph [] in
    (line, answered, subst (λ x. IsLine graph x (v ∷ []) line) same_first upper, omega arith)
