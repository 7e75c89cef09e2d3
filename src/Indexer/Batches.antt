-- ===== src/Indexer/Batches.antt =====
-- packages/indexer/src/build-batch.ts: the batch of the files that are loaded.
use codesoul.Prelude.{
  Text, ◌==◌, ◌≡◌, refl, sym, ap, ◌∙◌, Bool, false, ◌||◌, List, [], ◌∷◌, ◌++◌, if◌then◌else◌,
  append_assoc, Bool-cases, inl, inr, ◌⊎◌, ◌≢◌, arith, Selects, done, kept, left_out,
}
use mathlib.Core.Path.{subst}
use codesoul.Core.Errors.{Result, ok, ◌>>=◌, bind_ok, ok-injective}
use codesoul.Core.Enums.{
  Language, language_name, NodeKind, function_kind, method_kind, class_kind, block_kind, file_kind,
  module_kind, import_kind, rig_component, rig_target, rig_test, PayloadKind, function_summary,
  block_payload,
}
use codesoul.Core.Schema.{GraphNode, GraphEdge}
use codesoul.Embedder.{EmbedInput, node_input}

pub record BuildBatchFile : Type 0 where
  pub path : Text
  pub language : Language
  pub source : Text

pub record BuildBatchInput : Type 0 where
  pub repo_id : Text
  pub index_run_id : Text
  pub batch_id : Text
  pub files : List BuildBatchFile

pub record BuildBatchResult : Type 0 where
  pub nodes : List GraphNode
  pub edges : List GraphEdge
  pub vector_inputs : List EmbedInput

-- The interface `Parser`, over the run and one file.
pub record Parser : Type 0 where
  pub languages : List Language
  pub parse_file : BuildBatchInput → BuildBatchFile → Result (List GraphNode × List GraphEdge)

-- `parser.languages.includes(f.language)`
unfoldable pub is_supported : List Language → Language → Bool
is_supported [] l = false
is_supported (k ∷ ks) l = language_name k == language_name l || is_supported ks l

abbrev pub embed_input : PayloadKind → GraphNode → EmbedInput
embed_input kind n = node_input n.id n.content_hash kind (n.qualified_name ++ 10 ∷ n.signature)

-- The two tests on the kind of a node.
unfoldable pub inputs_of_kind : NodeKind → GraphNode → List EmbedInput
inputs_of_kind function_kind n = embed_input function_summary n ∷ []
inputs_of_kind method_kind n = embed_input function_summary n ∷ []
inputs_of_kind class_kind n = embed_input function_summary n ∷ []
inputs_of_kind block_kind n = embed_input block_payload n ∷ []
inputs_of_kind _ n = []

unfoldable pub inputs_of : List GraphNode → List EmbedInput
inputs_of [] = []
inputs_of (n ∷ ns) = inputs_of_kind n.kind n ++ inputs_of ns

-- The loop over the files, with the arrays `nodes`, `edges` and `vectorInputs`.
unfoldable pub build_files :
    Parser → BuildBatchInput → List BuildBatchFile → BuildBatchResult → Result BuildBatchResult
build_files parser input [] out = ok out
build_files parser input (f ∷ fs) out =
    let skipped = build_files parser input fs out in
    let parsed = parser.parse_file input f >>= λ (nodes, edges).
    build_files parser input fs (record {
      nodes = out.nodes ++ nodes;
      edges = out.edges ++ edges;
      vector_inputs = out.vector_inputs ++ inputs_of nodes;
    }) in
    if is_supported parser.languages f.language then parsed else skipped

unfoldable pub build_batch : Parser → BuildBatchInput → Result BuildBatchResult
build_batch parser input =
    build_files parser input input.files (record { nodes = []; edges = []; vector_inputs = [] })

inputs_of-append : (ns ms : List GraphNode) → inputs_of (ns ++ ms) ≡ inputs_of ns ++ inputs_of ms
unfolding inputs_of
inputs_of-append [] ms = refl
inputs_of-append (n ∷ ns) ms =
    ap (λ l. inputs_of_kind n.kind n ++ l) (inputs_of-append ns ms)
    ∙ sym (append_assoc (inputs_of_kind n.kind n) (inputs_of ns) (inputs_of ms))

build_files-inputs :
    (parser : Parser) (input : BuildBatchInput) (fs : List BuildBatchFile)
    (out b : BuildBatchResult)
    → out.vector_inputs ≡ inputs_of out.nodes
    → build_files parser input fs out ≡ ok b
    → b.vector_inputs ≡ inputs_of b.nodes
unfolding build_files
build_files-inputs parser input [] out b h p =
    ap (λ r. r.vector_inputs) (sym (ok-injective p))
    ∙ h
    ∙ ap (λ r. inputs_of r.nodes) (ok-injective p)
build_files-inputs parser input (f ∷ fs) out b h p =
    elim (Bool-cases (is_supported parser.languages f.language)) [
      | inr off ↦ build_files-inputs parser input fs out b h (rw off at p)
      | inl on ↦
          let ((nodes, edges), q, r) = bind_ok (parser.parse_file input f) _ (rw on at p) in
          build_files-inputs parser input fs _ b
            (ap (λ l. l ++ inputs_of nodes) h ∙ sym (inputs_of-append out.nodes nodes)) r
    ]

-- The kinds of the nodes that are embedded.
abbrev pub IsEmbedded : GraphNode → Type 0
IsEmbedded n =
    (n.kind ≡ function_kind)
    ⊎ (n.kind ≡ method_kind)
    ⊎ (n.kind ≡ class_kind)
    ⊎ (n.kind ≡ block_kind)

-- The text to embed of a node: under its id and its content hash, as a block if it is one and else as
-- a summary, of its qualified name and, on the next line, its signature.
abbrev pub Embeds : GraphNode → EmbedInput → Type 0
Embeds n i =
    (payload : PayloadKind) × (i
      ≡ node_input n.id n.content_hash payload (n.qualified_name ++ (10 ∷ n.signature)))
    × (n.kind ≡ block_kind → payload ≡ block_payload)
    × (n.kind ≢ block_kind → payload ≡ function_summary)

one-Selects :
    (k : NodeKind) (n : GraphNode) (ns : List GraphNode) (inputs : List EmbedInput)
    → n.kind ≡ k
    → Selects IsEmbedded Embeds ns inputs
    → Selects IsEmbedded Embeds (n ∷ ns) (inputs_of_kind k n ++ inputs)
unfolding inputs_of_kind
one-Selects function_kind n ns inputs e h = kept (inl e) (_, refl, (λ b. cc (e, b)), λ _. refl) h
one-Selects method_kind n ns inputs e h =
    kept (inr (inl e)) (_, refl, (λ b. cc (e, b)), λ _. refl) h
one-Selects class_kind n ns inputs e h =
    kept (inr (inr (inl e))) (_, refl, (λ b. cc (e, b)), λ _. refl) h
one-Selects block_kind n ns inputs e h =
    kept (inr (inr (inr e))) (_, refl, (λ _. refl), λ b. absurd (b e)) h
one-Selects file_kind n ns inputs e h = left_out (λ i. ground arith) h
one-Selects module_kind n ns inputs e h = left_out (λ i. ground arith) h
one-Selects import_kind n ns inputs e h = left_out (λ i. ground arith) h
one-Selects rig_component n ns inputs e h = left_out (λ i. ground arith) h
one-Selects rig_target n ns inputs e h = left_out (λ i. ground arith) h
one-Selects rig_test n ns inputs e h = left_out (λ i. ground arith) h

inputs_of-Selects : (ns : List GraphNode) → Selects IsEmbedded Embeds ns (inputs_of ns)
unfolding inputs_of
inputs_of-Selects [] = done
inputs_of-Selects (n ∷ ns) = one-Selects n.kind n ns (inputs_of ns) refl (inputs_of-Selects ns)

-- The texts of a batch to embed are those of its functions, methods, classes and blocks, one for each
-- of these nodes and in their order: under the id and the content hash of the node, with the qualified
-- name and the signature as the text, a block as a block and the others as summaries.
pub build_batch-inputs :
    (parser : Parser) (input : BuildBatchInput) (b : BuildBatchResult)
    → build_batch parser input ≡ ok b
    → Selects IsEmbedded Embeds b.nodes b.vector_inputs
unfolding build_batch
build_batch-inputs parser input b p =
    subst (Selects IsEmbedded Embeds b.nodes)
      (sym (
        build_files-inputs parser input input.files
          (record { nodes = []; edges = []; vector_inputs = [] }) b (unfold inputs_of in refl) p))
      (inputs_of-Selects b.nodes)
