-- ===== src/Tests/Source.antt =====
-- Tests of the source provider and the token estimator.
use codesoul.Prelude.{
  ◌-◌, ◌*◌, ◌≤◌, min, Text, codes, ◌≡◌, ◌↔◌, refl, false, [], ◌∷◌, ◌++◌, take, drop, length, arith,
}
use codesoul.Core.Errors.{ok}
use codesoul.Source.{Files, split_lines, read_range, estimate}
use codesoul.Source.Ranges.{read_range-lines, read_range_whole, estimate-le}

abbrev three_lines : Text
three_lines = 97 ∷ 10 ∷ 98 ∷ 10 ∷ 99 ∷ []

abbrev one_file : Files
one_file = record {
  read_file = λ path. ok three_lines;
  is_absolute = λ path. false;
  join_paths = λ root path. root ++ path;
}

read_range-lines_example :
    split_lines (read_range one_file [] (codes "a") 2 9)
    ≡ take
        (min (length (split_lines three_lines)) 9 - (2 - 1))
        (drop (2 - 1) (split_lines three_lines))
unfolding split_lines
read_range-lines_example =
    read_range-lines one_file [] (codes "a") three_lines 2 9 refl
      (refl, (refl, (refl, (refl, (refl, tt))))) (omega arith) (omega arith) (omega arith)

read_range_whole_example :
    read_range one_file [] (codes "a") 1 (length (split_lines three_lines)) ≡ three_lines
read_range_whole_example =
    read_range_whole one_file [] (codes "a") three_lines refl
      (refl, (refl, (refl, (refl, (refl, tt)))))

estimate-le_example : (estimate length three_lines ≤ 2) ↔ (2 * length three_lines ≤ 7 * 2)
estimate-le_example = estimate-le length three_lines 2
