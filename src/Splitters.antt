-- ===== src/Splitters.antt =====
-- src/condora/core/splitters.py: how the input files of a workflow become processing nodes.
-- An input file carries its identity as an object, which the code compares by `id`.
pub mod Location
pub mod FileBased
pub mod EventFiles
pub mod EventBased
pub mod Algorithms
mod Examples
use condora.Base.{
  ℕ, zero, suc, String, Bool, List, [], ◌∷◌, ◌++◌, Option, none, some, ◌+◌, ◌-◌, ◌||◌, ◌==◌, min,
  max, ltb, leb, is_empty, sum_of, string_eq, nat_eq, if◌then◌else◌,
}
use condora.Base.Dict.{insert, increment, append_at, values}
use condora.Base.Chunks.{chunks}

pub record InputFile : Type 0 where
  pub ident : ℕ
  pub lfn : String
  pub file_size : ℕ
  pub event_count : ℕ
  pub locations : List String

pub record DagNodeSpec : Type 0 where
  pub node_index : ℕ
  pub input_files : List InputFile
  pub first_event : ℕ
  pub last_event : ℕ
  pub events_per_job : ℕ
  pub primary_location : String

unfoldable pub total_events : DagNodeSpec → ℕ
total_events n =
    if ltb 0 n.events_per_job then n.events_per_job else sum_of (λ f. f.event_count) n.input_files

unfoldable pub total_size : DagNodeSpec → ℕ
total_size n = sum_of (λ f. f.file_size) n.input_files

-- The loops of `_pick_primary_location`: over the sites of a file, and over the files.
unfoldable pub count_sites : List String → List (String × ℕ) → List (String × ℕ)
unfolding increment
count_sites [] site_counts = site_counts
count_sites (site ∷ sites) site_counts = count_sites sites (increment site site_counts)

unfoldable pub count_locations : List InputFile → List (String × ℕ) → List (String × ℕ)
unfolding count_sites
count_locations [] site_counts = site_counts
count_locations (f ∷ files) site_counts =
    count_locations files (count_sites f.locations site_counts)

-- `max(site_counts, key=…)` once an entry is there: the first of the largest.
unfoldable pub max_from : String × ℕ → List (String × ℕ) → String × ℕ
max_from best [] = best
max_from best (e ∷ es) = max_from (if ltb best.1 e.1 then e else best) es

unfoldable pub max_site : List (String × ℕ) → String
unfolding max_from
max_site [] = ""
max_site (e ∷ es) = (max_from e es).0

unfoldable pub pick_primary_location : List InputFile → String
unfolding count_locations max_site
pick_primary_location files = max_site (count_locations files [])

-- `f.locations[0] if f.locations else "__any__"`
abbrev pub first_location : List String → String
first_location [] = "__any__"
first_location (site ∷ sites) = site

unfoldable pub group_by_site :
    List InputFile → List (String × List InputFile) → List (String × List InputFile)
unfolding append_at
group_by_site [] site_groups = site_groups
group_by_site (f ∷ files) site_groups =
    group_by_site files (append_at (first_location f.locations) f site_groups)

-- The inner loop of `FileBasedSplitter.split`: the batches of one site.
unfoldable pub batch_nodes : ℕ → List (List InputFile) → List DagNodeSpec
unfolding pick_primary_location
batch_nodes node_idx [] = []
batch_nodes node_idx (batch ∷ batches) =
    record {
      node_index = node_idx;
      input_files = batch;
      first_event = 0;
      last_event = 0;
      events_per_job = 0;
      primary_location = pick_primary_location batch;
    }
    ∷ batch_nodes (suc node_idx) batches

-- All batches of all sites, in the order of the two loops.
unfoldable pub site_batches : ℕ → List (String × List InputFile) → List (List InputFile)
unfolding chunks
site_batches files_per_job [] = []
site_batches files_per_job ((site, group_files) ∷ groups) =
    chunks files_per_job group_files ++ site_batches files_per_job groups

-- `FileBasedSplitter(files_per_job).split(files)`; the constructor takes `max(1, files_per_job)`.
unfoldable pub split_files : ℕ → List InputFile → List DagNodeSpec
unfolding batch_nodes site_batches group_by_site
split_files files_per_job files =
    if is_empty files
    then []
    else batch_nodes 0 (site_batches (max 1 files_per_job) (group_by_site files []))

-- The variables of `EventBasedSplitter.split`.
pub record SplitState : Type 0 where
  pub nodes : List DagNodeSpec
  pub node_idx : ℕ
  pub current_files : List InputFile
  pub current_events : ℕ

-- `list({id(f): f for f in files}.values())`
unfoldable pub by_id : List InputFile → List (ℕ × InputFile) → List (ℕ × InputFile)
unfolding insert
by_id [] m = m
by_id (f ∷ files) m = by_id files (insert f.ident f m)

unfoldable pub distinct_files : List InputFile → List InputFile
unfolding by_id
distinct_files files = values (by_id files [])

-- The node of a job that is full.
abbrev pub full_node : ℕ → ℕ → List InputFile → ℕ → ℕ → DagNodeSpec
full_node node_idx events_per_job files taken file_offset = record {
  node_index = node_idx;
  input_files = distinct_files files;
  first_event = file_offset - taken;
  last_event = file_offset;
  events_per_job = events_per_job;
  primary_location = pick_primary_location files;
}

-- One round of the inner loop: take what the job has room for, and close the job if it is full.
unfoldable pub take_events : ℕ → InputFile → ℕ → ℕ → SplitState → SplitState
unfolding pick_primary_location distinct_files
take_events events_per_job f taken file_offset s =
    let files = s.current_files ++ f ∷ [] in
    let events = s.current_events + taken in
    if leb events_per_job events
    then record s {
      nodes = s.nodes ++ full_node s.node_idx events_per_job files taken (file_offset + taken) ∷ [];
      node_idx = s.node_idx + 1;
      current_files = [];
      current_events = 0;
    }
    else record s { current_files = files; current_events = events }

-- `while remaining_in_file > 0`. The fuel is the event count: each round takes at least one event.
unfoldable pub split_file : ℕ → ℕ → InputFile → ℕ → ℕ → SplitState → SplitState
unfolding take_events
split_file zero events_per_job f remaining file_offset s = s
split_file (suc fuel) events_per_job f remaining file_offset s =
    let taken = min (events_per_job - s.current_events) remaining in
    let rest =
      split_file fuel events_per_job f (remaining - taken) (file_offset + taken)
        (take_events events_per_job f taken file_offset s) in
    if ltb 0 remaining then rest else s

unfoldable pub split_each : ℕ → List InputFile → SplitState → SplitState
unfolding split_file
split_each events_per_job [] s = s
split_each events_per_job (f ∷ files) s =
    split_each events_per_job files (split_file f.event_count events_per_job f f.event_count 0 s)

-- The node of the partial batch that is left.
abbrev pub rest_node : SplitState → DagNodeSpec
rest_node s = record {
  node_index = s.node_idx;
  input_files = distinct_files s.current_files;
  first_event = 0;
  last_event = s.current_events;
  events_per_job = s.current_events;
  primary_location = pick_primary_location s.current_files;
}

unfoldable pub close_split : SplitState → List DagNodeSpec
unfolding pick_primary_location distinct_files
close_split s = if is_empty s.current_files then s.nodes else s.nodes ++ rest_node s ∷ []

abbrev pub no_nodes : SplitState
no_nodes = record { nodes = []; node_idx = 0; current_files = []; current_events = 0 }

-- `EventBasedSplitter(events_per_job).split(files)`
unfoldable pub split_events : ℕ → List InputFile → List DagNodeSpec
unfolding split_each close_split
split_events events_per_job files =
    if is_empty files then [] else close_split (split_each (max 1 events_per_job) files no_nodes)

pub data Splitter : Type 0 where
  file_based : ℕ → Splitter
  event_based : ℕ → Splitter

-- The entries of `params` that the factory reads.
pub record SplittingParams : Type 0 where
  pub files_per_job : Option ℕ
  pub events_per_job : Option ℕ

abbrev pub or_default : ℕ → Option ℕ → ℕ
or_default d none = d
or_default d (some n) = n

-- `none` is the `ValueError`.
unfoldable pub get_splitter : String → SplittingParams → Option Splitter
get_splitter algo params =
    if algo == "FileBased" || algo == "LumiBased"
    then some (file_based (or_default 5 params.files_per_job))
    else if algo == "EventBased" || algo == "EventAwareLumiBased"
    then some (event_based (or_default 100000 params.events_per_job))
    else none

unfoldable pub split : Splitter → List InputFile → List DagNodeSpec
unfolding split_files split_events
split (file_based files_per_job) files = split_files files_per_job files
split (event_based events_per_job) files = split_events events_per_job files
