-- ===== src/Classify/Examples.antt =====
-- The theorems on classifications, at small inputs.
use condora.Base.{true, false, [], ◌∷◌, some, ◌≡◌, ◌↔◌, refl, pos, is_code, in_codes, if◌then◌else◌}
use condora.Base.Texts.{codes}
use condora.Classify.{bad_data, success, classify_error, is_zombie, is_hard_wall_time}
use condora.Classify.Collector.{CmsswData, is_data, collect}
use condora.Classify.Coherent.{classify_error-success_iff}
use condora.Classify.Tables.{table_category, classify_error-category}
use condora.Classify.Agree.{collect-classify_error}

-- A file that could not be opened.
classify_error-category_example : (classify_error (pos 8021) (pos 1) [] [] []).category ≡ bad_data
unfolding is_zombie is_hard_wall_time table_category in_codes
classify_error-category_example =
    classify_error-category 8021 (pos 1) [] [] [] bad_data refl refl refl

classify_error-success_iff_example :
    ((classify_error (pos 0) (pos 0) [] [] []).category ≡ success) ↔ (
      (is_code (pos 0) 0 ≡ true)
      × (is_code (pos 0) 0 ≡ true)
      × (is_zombie [] ≡ false)
      × (is_hard_wall_time [] ≡ false))
classify_error-success_iff_example = classify_error-success_iff (pos 0) (pos 0) [] [] []

abbrev bad_input : CmsswData
bad_input = record {
  exit_code = pos 8021;
  error_message = codes "FileReadError";
  input_files = codes "/store/a.root" ∷ [];
}

collect-classify_error_example : collect (some bad_input) (pos 1) (codes "log") [] ≡ (
    let c = classify_error (pos 8021) (pos 1) (codes "FileReadError") (codes "log") [] in
    record c { bad_input_files = if is_data c.category then codes "/store/a.root" ∷ [] else [] })
collect-classify_error_example = collect-classify_error (some bad_input) (pos 1) (codes "log") []
