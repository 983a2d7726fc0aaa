-- ===== src/Splitters/Examples.antt =====
-- The theorems on the splitters, at small inputs.
use condora.Splitters.EventFiles.{is_read, has_events}
use condora.Base.{ℕ, ◌≡◌, List, [], ◌∷◌, ◌≤◌}
use condora.Splitters.{InputFile, pick_primary_location, split_files, split_events}
use condora.Splitters.EventBased.{IsSplit, split_events-IsSplit}
use condora.Splitters.FileBased.{IsFileSplit, split_files-IsFileSplit}
use condora.Splitters.Location.{located_at, located_at-pick_primary_location}

abbrev two_files : List InputFile
two_files =
    record {
      ident = 0;
      lfn = "/store/a.root";
      file_size = 10;
      event_count = 250;
      locations = "T1_A" ∷ "T2_B" ∷ [];
    }
    ∷ record {
      ident = 1;
      lfn = "/store/b.root";
      file_size = 10;
      event_count = 130;
      locations = "T2_B" ∷ [];
    }
    ∷ []

-- 380 events in jobs of 100.
split_events-IsSplit_example :
    IsSplit 100 380 (split_events 100 two_files)
    × ((k : ℕ) → is_read k (split_events 100 two_files) ≡ has_events k two_files)
split_events-IsSplit_example = split_events-IsSplit 100 two_files

split_files-IsFileSplit_example : IsFileSplit 1 two_files (split_files 1 two_files)
split_files-IsFileSplit_example = split_files-IsFileSplit 1 two_files

located_at-pick_primary_location_example :
    located_at "T1_A" two_files ≤ located_at (pick_primary_location two_files) two_files
located_at-pick_primary_location_example = located_at-pick_primary_location two_files "T1_A"
