-- ===== src/Splitters/Algorithms.antt =====
-- Which splitting algorithms of src/condora/models/enums.py the factory knows.
use condora.Base.{String}

pub data SplittingAlgo : Type 0 where
  file_based event_based lumi_based event_aware_lumi : SplittingAlgo

abbrev pub value : SplittingAlgo → String
value file_based = "FileBased"
value event_based = "EventBased"
value lumi_based = "LumiBased"
value event_aware_lumi = "EventAwareLumiBased"
