-- ===== src/Tests/Core.antt =====
-- Tests of the ids and of the normalization.
use codesoul.Prelude.{codes, ◌≡◌, refl, All}
use codesoul.Core.Ids.{StableIdInput}
use codesoul.Core.Ids.Laws.{NulFree, stable_parts, stable_id-injective}
use codesoul.Core.Normalize.{normalize_signature}
use codesoul.Core.Normalize.Words.{words, unwords, normalize_signature-eq-unwords}

abbrev symbol : StableIdInput
symbol = record {
  repo_id = codes "r";
  relative_path = codes "a";
  symbol_kind = codes "F";
  qualified_name = codes "f";
}

symbol-NulFree : All NulFree (stable_parts symbol)
symbol-NulFree =
    (((λ e. cc e), tt), (((λ e. cc e), tt), (((λ e. cc e), tt), (((λ e. cc e), tt), tt))))

stable_id-injective_example : symbol ≡ symbol
stable_id-injective_example =
    stable_id-injective (λ s. s) symbol symbol symbol-NulFree symbol-NulFree (λ e. e) refl

normalize_signature-eq-unwords_example :
    normalize_signature (codes " f( x )  ") ≡ unwords (words (codes " f( x )  "))
normalize_signature-eq-unwords_example = normalize_signature-eq-unwords (codes " f( x )  ")
