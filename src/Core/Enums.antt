-- ===== src/Core/Enums.antt =====
-- The enumerations of packages/core/src/schema. In the source a value is its string, so each type
-- has the function to that string, and `===` compares the strings.
use codesoul.Prelude.{Text, codes, ◌==◌, ◌≡◌, Bool, arith}

pub data BatchStatus : Type 0 where
  pending committed failed dry_run : BatchStatus

unfoldable pub status_name : BatchStatus → Text
status_name pending = codes "pending"
status_name committed = codes "committed"
status_name failed = codes "failed"
status_name dry_run = codes "dry_run"

pub data EdgeType : Type 0 where
  contains calls imports implements extends defined_in depends_on declared_by : EdgeType

unfoldable pub edge_type_name : EdgeType → Text
edge_type_name contains = codes "CONTAINS"
edge_type_name calls = codes "CALLS"
edge_type_name imports = codes "IMPORTS"
edge_type_name implements = codes "IMPLEMENTS"
edge_type_name extends = codes "EXTENDS"
edge_type_name defined_in = codes "DEFINED_IN"
edge_type_name depends_on = codes "DEPENDS_ON"
edge_type_name declared_by = codes "DECLARED_BY"

pub data NodeKind : Type 0 where
  file_kind module_kind class_kind function_kind method_kind import_kind block_kind : NodeKind
  rig_component rig_target rig_test : NodeKind

unfoldable pub node_kind_name : NodeKind → Text
node_kind_name file_kind = codes "File"
node_kind_name module_kind = codes "Module"
node_kind_name class_kind = codes "Class"
node_kind_name function_kind = codes "Function"
node_kind_name method_kind = codes "Method"
node_kind_name import_kind = codes "Import"
node_kind_name block_kind = codes "Block"
node_kind_name rig_component = codes "RigComponent"
node_kind_name rig_target = codes "RigTarget"
node_kind_name rig_test = codes "RigTest"

pub data Language : Type 0 where
  typescript javascript python markdown unknown : Language

unfoldable pub language_name : Language → Text
language_name typescript = codes "typescript"
language_name javascript = codes "javascript"
language_name python = codes "python"
language_name markdown = codes "markdown"
language_name unknown = codes "unknown"

pub data PayloadKind : Type 0 where
  function_summary block_payload markdown_payload : PayloadKind

unfoldable pub payload_kind_name : PayloadKind → Text
payload_kind_name function_summary = codes "FunctionSummary"
payload_kind_name block_payload = codes "Block"
payload_kind_name markdown_payload = codes "Markdown"

pub status_name-injective : (a b : BatchStatus) → status_name a ≡ status_name b → a ≡ b
unfolding status_name
status_name-injective a b h = ground arith

pub edge_type_name-injective : (a b : EdgeType) → edge_type_name a ≡ edge_type_name b → a ≡ b
unfolding edge_type_name
edge_type_name-injective a b h = ground arith

pub node_kind_name-injective : (a b : NodeKind) → node_kind_name a ≡ node_kind_name b → a ≡ b
unfolding node_kind_name
node_kind_name-injective a b h = ground arith

pub payload_kind_name-injective :
    (a b : PayloadKind) → payload_kind_name a ≡ payload_kind_name b → a ≡ b
unfolding payload_kind_name
payload_kind_name-injective a b h = ground arith

unfoldable pub status_eq : BatchStatus → BatchStatus → Bool
unfolding status_name
status_eq a b = status_name a == status_name b

unfoldable pub edge_type_eq : EdgeType → EdgeType → Bool
unfolding edge_type_name
edge_type_eq a b = edge_type_name a == edge_type_name b

unfoldable pub node_kind_eq : NodeKind → NodeKind → Bool
unfolding node_kind_name
node_kind_eq a b = node_kind_name a == node_kind_name b

unfoldable pub language_eq : Language → Language → Bool
unfolding language_name
language_eq a b = language_name a == language_name b

unfoldable pub payload_kind_eq : PayloadKind → PayloadKind → Bool
unfolding payload_kind_name
payload_kind_eq a b = payload_kind_name a == payload_kind_name b
