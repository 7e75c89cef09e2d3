-- ===== src/Rig.antt =====
-- packages/core/src/schema/rig.ts, packages/rig/src/extractor.ts and dispatcher.ts: the
-- architecture graphs of the extractors and their merge. `locale_le a b` stands for
-- `a.localeCompare(b) <= 0`, the collation of the JavaScript engine.
pub mod Unions
pub mod Components
pub mod Arrivals
pub mod Merge
use codesoul.Prelude.{
  ℕ, Text, codes, Bool, true, false, Option, none, some, List, [], ◌∷◌, ◌++◌, foldl, map, sort_by,
  sort, if◌then◌else◌,
}
use codesoul.JsMap.{JsMap, JsSet, get, has, set, values, add}
use codesoul.Core.Errors.{Result, ok, raise, ◌>>=◌}

pub data ComponentKind : Type 0 where
  package_kind workspace_kind app_kind library_kind binary_kind : ComponentKind

pub data TargetKind : Type 0 where
  build_kind run_kind publish_kind : TargetKind

pub record RigComponent : Type 0 where
  pub id : Text
  pub name : Text
  pub kind : ComponentKind
  pub path : Text
  pub depends_on : List Text

pub record RigTarget : Type 0 where
  pub id : Text
  pub component_id : Text
  pub name : Text
  pub kind : TargetKind

pub record RigTest : Type 0 where
  pub id : Text
  pub component_id : Text
  pub name : Text
  pub framework : Option Text

pub record RigGraph : Type 0 where
  pub extractor : Text
  pub extractor_version : Text
  pub components : List RigComponent
  pub targets : List RigTarget
  pub tests : List RigTest
  pub version : ℕ

-- The three maps of `mergeRigGraphs`.
pub record Merged : Type 0 where
  pub components : JsMap RigComponent
  pub targets : JsMap RigTarget
  pub tests : JsMap RigTest

-- `Array.from(new Set(l))`
unfoldable pub dedupe : List Text → JsSet
dedupe = foldl (λ s x. add x s) []

unfoldable pub merge_component : JsMap RigComponent → RigComponent → JsMap RigComponent
merge_component m c = elim (get c.id m) [
  | none ↦ set c.id (record c { depends_on = sort c.depends_on }) m
  | some existing ↦
      set c.id
        (record existing { depends_on = sort (dedupe (existing.depends_on ++ c.depends_on)) }) m
]

-- `if (!m.has(t.id)) m.set(t.id, t)`
unfoldable pub keep_first : {A : Type 0} → (A → Text) → JsMap A → A → JsMap A
keep_first id m a = if has (id a) m then m else set (id a) a m

unfoldable pub merge_graph : Merged → RigGraph → Merged
merge_graph m g = record {
  components = foldl merge_component m.components g.components;
  targets = foldl (keep_first (λ t. t.id)) m.targets g.targets;
  tests = foldl (keep_first (λ t. t.id)) m.tests g.tests;
}

abbrev pub no_graph : Merged
no_graph = record { components = []; targets = []; tests = [] }

module _ (locale_le : Text → Text → Bool) where
  unfoldable pub merge_rig_graphs : List RigGraph → RigGraph
  merge_rig_graphs graphs =
      let m = foldl merge_graph no_graph graphs in
      record {
        extractor = codes "rig-dispatcher";
        extractor_version = codes "0.0.0";
        components = sort_by (λ a b. locale_le a.id b.id) (values m.components);
        targets = sort_by (λ a b. locale_le a.id b.id) (values m.targets);
        tests = sort_by (λ a b. locale_le a.id b.id) (values m.tests);
        version = 1;
      }

-- The interface `RigExtractor`, over the path of the repository.
pub record RigExtractor : Type 0 where
  pub name : Text
  pub can_extract : Text → Result Bool
  pub extract : Text → Result RigGraph

-- `RigDispatcher.canExtract`
unfoldable pub dispatch_can_extract : List RigExtractor → Text → Result Bool
dispatch_can_extract [] path = ok false
dispatch_can_extract (e ∷ es) path =
    let later = dispatch_can_extract es path in
    e.can_extract path >>= λ can. if can then ok true else later

-- The loop of `RigDispatcher.extract`.
unfoldable pub collect_graphs : List RigExtractor → Text → Result (List RigGraph)
collect_graphs [] path = ok []
collect_graphs (e ∷ es) path = do
  can ← e.can_extract path
  let rest = collect_graphs es path
  if can then (do g ← e.extract path; gs ← rest; ok (g ∷ gs)) else rest

unfoldable pub dispatch_extract : (Text → Text → Bool) → List RigExtractor → Text → Result RigGraph
dispatch_extract locale_le extractors path = do
  graphs ← collect_graphs extractors path
  ok (merge_rig_graphs locale_le graphs)

-- The dispatcher is itself an extractor.
unfoldable pub rig_dispatcher : (Text → Text → Bool) → List RigExtractor → RigExtractor
rig_dispatcher locale_le extractors = record {
  name = codes "rig-dispatcher";
  can_extract = dispatch_can_extract extractors;
  extract = dispatch_extract locale_le extractors;
}
