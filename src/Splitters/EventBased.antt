-- ===== src/Splitters/EventBased.antt =====
-- What `EventBasedSplitter` makes of the events of the files.
use condora.Base.{
  ℕ, zero, suc, List, [], ◌∷◌, ◌++◌, ◌+◌, ◌*◌, ◌-◌, ◌≤◌, ◌<◌, ◌≡◌, ◌⊎◌, inl, inr, min, max, length,
  sum_of, sum_of-append, length-append, All, All-append, is_empty, true, false, arith, refl, ◌∙◌,
  leb, ltb, Bool-cases,
}
use condora.Splitters.EventFiles.{is_read, has_events, is_read-split_events}
use condora.Splitters.{
  InputFile, DagNodeSpec, SplitState, full_node, rest_node, take_events, split_file, split_each,
  close_split, no_nodes, split_events,
}

-- The events that the finished jobs and the open one hold.
assigned : SplitState → ℕ
assigned s = sum_of (λ n. n.events_per_job) s.nodes + s.current_events

-- Nodes are numbered from `k` on, one by one.
abbrev pub IsNumbered : ℕ → List DagNodeSpec → Type 0
IsNumbered k [] = Unit
IsNumbered k (n ∷ nodes) = (n.node_index ≡ k) × IsNumbered (suc k) nodes

IsNumbered-snoc :
    (k : ℕ) (nodes : List DagNodeSpec) (n : DagNodeSpec)
    → IsNumbered k nodes
    → n.node_index ≡ k + length nodes
    → IsNumbered k (nodes ++ n ∷ [])
IsNumbered-snoc k [] n numbered e = (omega arith, tt)
IsNumbered-snoc k (m ∷ nodes) n numbered e =
    (numbered.0, IsNumbered-snoc (suc k) nodes n numbered.1 (omega arith))

-- Each node holds as many events as a job may.
abbrev pub IsFull : ℕ → DagNodeSpec → Type 0
IsFull events_per_job n = n.events_per_job ≡ events_per_job

-- Each node holds some events, and no more than a job may.
abbrev pub Holds : ℕ → DagNodeSpec → Type 0
Holds events_per_job n = (0 < n.events_per_job) × (n.events_per_job ≤ events_per_job)

-- The jobs that hold `events` events, at most `events_per_job` each: all events are held, the jobs
-- are numbered from 0 on, none is empty or too large, and there are as many as the quotient,
-- rounded up.
pub record IsSplit (events_per_job events : ℕ) (nodes : List DagNodeSpec) : Type 0 where
  pub total : sum_of (λ n. n.events_per_job) nodes ≡ events
  pub numbered : IsNumbered 0 nodes
  pub held : All (Holds events_per_job) nodes
  pub enough : events ≤ events_per_job * length nodes
  pub no_more : events_per_job * length nodes < events + events_per_job

-- What holds between two rounds of the loops.
record Inv (events_per_job : ℕ) (s : SplitState) : Type 0 where
  open_job : s.current_events < events_per_job
  full : All (IsFull events_per_job) s.nodes
  index : s.node_idx ≡ length s.nodes
  numbered : IsNumbered 0 s.nodes
  has_files :
      (is_empty s.current_files ≡ true) × (s.current_events ≡ 0)
      ⊎ (is_empty s.current_files ≡ false) × (0 < s.current_events)

module _ (events_per_job : ℕ) where
  not_empty : (files : List InputFile) (f : InputFile) → is_empty (files ++ f ∷ []) ≡ false
  not_empty [] f = refl
  not_empty (g ∷ files) f = refl

  module _ (f : InputFile) (taken file_offset : ℕ) (s : SplitState) (inv : Inv events_per_job s)
      (some_taken : 0 < taken) (fits : s.current_events + taken ≤ events_per_job) where
    take_events-Inv : Inv events_per_job (take_events events_per_job f taken file_offset s)
    unfolding take_events
    take_events-Inv = elim (Bool-cases (leb events_per_job (s.current_events + taken))) [
      | inl full ↦ rw full (record {
        open_job = omega arith;
        full = All-append (IsFull events_per_job) s.nodes _ inv.full (refl, tt);
        index = omega (arith, length-append s.nodes, inv.index);
        numbered = IsNumbered-snoc 0 s.nodes _ inv.numbered (omega (arith, inv.index));
        has_files = inl (refl, refl);
      })
      | inr more ↦ rw more (record {
        open_job = ground arith;
        full = inv.full;
        index = inv.index;
        numbered = inv.numbered;
        has_files = inr (not_empty s.current_files f, omega arith);
      })
    ]

    assigned-take_events :
        assigned (take_events events_per_job f taken file_offset s) ≡ assigned s + taken
    unfolding take_events assigned
    assigned-take_events = elim (Bool-cases (leb events_per_job (s.current_events + taken))) [
      | inl full ↦ rw full (
          ground (
            arith,
            sum_of-append (λ (n : DagNodeSpec). n.events_per_job) s.nodes
                (full_node s.node_idx events_per_job (s.current_files ++ f ∷ []) taken
                    (file_offset + taken)
                  ∷ []),
          ))
      | inr more ↦ rw more (omega arith)
    ]

  -- With as much fuel as events, the whole file is taken.
  split_file-Inv :
      (fuel remaining file_offset : ℕ) (f : InputFile) (s : SplitState)
      → remaining ≤ fuel
      → Inv events_per_job s
      → Inv events_per_job (split_file fuel events_per_job f remaining file_offset s)
        × (assigned (split_file fuel events_per_job f remaining file_offset s)
            ≡ assigned s + remaining)
  unfolding split_file
  split_file-Inv zero remaining file_offset f s enough inv = (inv, omega arith)
  split_file-Inv (suc fuel) remaining file_offset f s enough inv =
      elim (Bool-cases (ltb 0 remaining)) [
        | inl more ↦
            let taken = min (events_per_job - s.current_events) remaining in
            let some_taken : 0 < taken = ground (arith, inv.open_job) in
            let fits : s.current_events + taken ≤ events_per_job = omega (arith, inv.open_job) in
            let next = take_events events_per_job f taken file_offset s in
            let (kept, added) =
              split_file-Inv fuel (remaining - taken) (file_offset + taken) f next (omega arith)
                (take_events-Inv f taken file_offset s inv some_taken fits) in
            rw more (
              kept,
              omega (arith, added, assigned-take_events f taken file_offset s inv some_taken fits),
            )
        | inr done ↦ rw done (inv, ground arith)
      ]

  split_each-Inv :
      (files : List InputFile) (s : SplitState)
      → Inv events_per_job s
      → Inv events_per_job (split_each events_per_job files s)
        × (assigned (split_each events_per_job files s)
            ≡ assigned s + sum_of (λ f. f.event_count) files)
  unfolding split_each
  split_each-Inv [] s inv = (inv, omega arith)
  split_each-Inv (f ∷ files) s inv =
      let (inv', added) = split_file-Inv f.event_count f.event_count 0 f s (omega arith) inv in
      let (kept, more) = split_each-Inv files _ inv' in (kept, omega (arith, added, more))

  sum_of-full :
      (nodes : List DagNodeSpec)
      → All (IsFull events_per_job) nodes
      → sum_of (λ n. n.events_per_job) nodes ≡ events_per_job * length nodes
  sum_of-full [] full = omega arith
  sum_of-full (n ∷ nodes) full = omega (arith, full.0, sum_of-full nodes full.1)

  IsFull-Holds :
      (nodes : List DagNodeSpec)
      → 0 < events_per_job
      → All (IsFull events_per_job) nodes
      → All (Holds events_per_job) nodes
  IsFull-Holds [] pos full = tt
  IsFull-Holds (n ∷ nodes) pos full =
      ((omega (arith, full.0), omega (arith, full.0)), IsFull-Holds nodes pos full.1)

  close_split-IsSplit :
      (s : SplitState) → Inv events_per_job s → IsSplit events_per_job (assigned s) (close_split s)
  unfolding close_split assigned
  close_split-IsSplit s inv = elim inv.has_files [
    | inl (none_left, zero_events) ↦ rw none_left (record {
      total = omega (arith, zero_events);
      numbered = inv.numbered;
      held = IsFull-Holds s.nodes (omega (arith, inv.open_job)) inv.full;
      enough = omega (arith, zero_events, sum_of-full s.nodes inv.full);
      no_more = omega (arith, inv.open_job, zero_events, sum_of-full s.nodes inv.full);
    })
    | inr (some_left, some_events) ↦ rw some_left (record {
      total = rw (sum_of-append _ s.nodes (rest_node s ∷ [])) (omega arith);
      numbered = IsNumbered-snoc 0 s.nodes _ inv.numbered (omega (arith, inv.index));
      held =
          All-append (Holds events_per_job) s.nodes _
            (IsFull-Holds s.nodes (omega (arith, inv.open_job)) inv.full)
            ((some_events, omega (arith, inv.open_job)), tt);
      enough =
          rw (length-append s.nodes (rest_node s ∷ []))
            (omega (arith, sum_of-full s.nodes inv.full, inv.open_job));
      no_more =
          rw (length-append s.nodes (rest_node s ∷ []))
            (omega (arith, sum_of-full s.nodes inv.full, some_events));
    })
  ]

assigned-no_nodes :
    (files : List InputFile)
    → assigned no_nodes + sum_of (λ f. f.event_count) files ≡ sum_of (λ f. f.event_count) files
unfolding assigned
assigned-no_nodes files = omega arith

counts-split_events :
    (events_per_job : ℕ) (files : List InputFile)
    → IsSplit
        (max 1 events_per_job)
        (sum_of (λ f. f.event_count) files)
        (split_events events_per_job files)
unfolding split_events
counts-split_events events_per_job [] = record {
  total = refl;
  numbered = tt;
  held = tt;
  enough = omega arith;
  no_more = omega arith;
}
counts-split_events events_per_job (f ∷ files) =
    let size = max 1 events_per_job in
    let start : Inv size no_nodes = record {
      open_job = omega arith;
      full = tt;
      index = refl;
      numbered = tt;
      has_files = inl (refl, refl);
    } in
    let (kept, all) = split_each-Inv size (f ∷ files) no_nodes start in
    rw (all ∙ assigned-no_nodes (f ∷ files)) at (close_split-IsSplit size _ kept)

-- For every list of files and every size, the events of `EventBasedSplitter`'s jobs add up to those of
-- the files, no job is empty or holds more than `max(1, events_per_job)`, the jobs are numbered from 0
-- on, and there are as many as the events divided by that size, rounded up. A file of some identity
-- is read by a job exactly where a file of that identity has events.
pub split_events-IsSplit :
    (events_per_job : ℕ) (files : List InputFile)
    → IsSplit
        (max 1 events_per_job)
        (sum_of (λ f. f.event_count) files)
        (split_events events_per_job files)
      × ((k : ℕ) → is_read k (split_events events_per_job files) ≡ has_events k files)
split_events-IsSplit events_per_job files =
    (counts-split_events events_per_job files, λ k. is_read-split_events k events_per_job files)
