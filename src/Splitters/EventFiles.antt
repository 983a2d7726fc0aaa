-- ===== src/Splitters/EventFiles.antt =====
-- Which files the jobs of `EventBasedSplitter` read.
use condora.Base.{
  ℕ, zero, suc, Bool, true, false, List, [], ◌∷◌, ◌++◌, map, ◌+◌, ◌-◌, ◌≡◌, ◌∙◌, refl, ◌==◌, ◌&&◌,
  ◌||◌, any, contains, is_empty, min, max, ltb, leb, nat_eq, inl, inr, Bool-cases, arith,
}
use condora.Base.Dict.{insert, keys, values}
use condora.Splitters.{
  InputFile, DagNodeSpec, SplitState, by_id, distinct_files, full_node, rest_node, take_events,
  split_file, split_each, close_split, no_nodes, split_events,
}

abbrev pub idents : List InputFile → List ℕ
idents files = map (λ f. f.ident) files

-- Whether a file of this identity is read by some job.
abbrev pub is_read : ℕ → List DagNodeSpec → Bool
is_read k nodes = any (λ n. contains k (idents n.input_files)) nodes

-- Whether a file of this identity has events.
abbrev pub has_events : ℕ → List InputFile → Bool
has_events k files = any (λ f. f.ident == k && ltb 0 f.event_count) files

contains-insert :
    (k j : ℕ) (f : InputFile) (m : List (ℕ × InputFile))
    → contains k (keys (insert j f m)) ≡ (j == k || contains k (keys m))
unfolding insert
contains-insert k j f [] = refl
contains-insert k j f ((i, g) ∷ m) = ground (arith, contains-insert k j f m)

-- Each file stands under its identity.
IsKeyed : List (ℕ × InputFile) → Type 0
IsKeyed [] = Unit
IsKeyed (e ∷ m) = (e.1.ident ≡ e.0) × IsKeyed m

insert-IsKeyed :
    (f : InputFile) (m : List (ℕ × InputFile)) → IsKeyed m → IsKeyed (insert f.ident f m)
unfolding insert IsKeyed
insert-IsKeyed f [] h = (refl, tt)
insert-IsKeyed f ((i, g) ∷ m) h = ground (arith, h, insert-IsKeyed f m h.1)

by_id-IsKeyed :
    (files : List InputFile) (m : List (ℕ × InputFile)) → IsKeyed m → IsKeyed (by_id files m)
unfolding by_id
by_id-IsKeyed [] m h = h
by_id-IsKeyed (f ∷ files) m h = by_id-IsKeyed files (insert f.ident f m) (insert-IsKeyed f m h)

idents-values : (m : List (ℕ × InputFile)) → IsKeyed m → idents (values m) ≡ keys m
unfolding IsKeyed
idents-values [] h = refl
idents-values (e ∷ m) h = rw (h.0, idents-values m h.1) refl

contains-by_id :
    (k : ℕ) (files : List InputFile) (m : List (ℕ × InputFile))
    → contains k (keys (by_id files m)) ≡ (contains k (idents files) || contains k (keys m))
unfolding by_id
contains-by_id k [] m = refl
contains-by_id k (f ∷ files) m =
    ground (arith, contains-by_id k files (insert f.ident f m), contains-insert k f.ident f m)

contains-distinct_files :
    (k : ℕ) (files : List InputFile)
    → contains k (idents (distinct_files files)) ≡ contains k (idents files)
unfolding distinct_files IsKeyed
contains-distinct_files k files =
    rw (idents-values (by_id files []) (by_id-IsKeyed files [] tt))
      (ground (arith, contains-by_id k files []))

contains-snoc :
    (k : ℕ) (files : List InputFile) (f : InputFile)
    → contains k (idents (files ++ f ∷ [])) ≡ (contains k (idents files) || f.ident == k)
contains-snoc k [] f = ground arith
contains-snoc k (g ∷ files) f = ground (arith, contains-snoc k files f)

is_read-snoc :
    (k : ℕ) (nodes : List DagNodeSpec) (n : DagNodeSpec)
    → is_read k (nodes ++ n ∷ []) ≡ (is_read k nodes || contains k (idents n.input_files))
is_read-snoc k [] n = ground arith
is_read-snoc k (m ∷ nodes) n = ground (arith, is_read-snoc k nodes n)

-- The files of the finished jobs and of the open one.
placed : ℕ → SplitState → Bool
placed k s = is_read k s.nodes || contains k (idents s.current_files)

module _ (k size : ℕ) where
  placed-take_events :
      (f : InputFile) (taken file_offset : ℕ) (s : SplitState)
      → placed k (take_events size f taken file_offset s) ≡ (placed k s || f.ident == k)
  unfolding take_events placed
  placed-take_events f taken file_offset s =
      let files = s.current_files ++ f ∷ [] in
      let node = full_node s.node_idx size files taken (file_offset + taken) in
      elim (Bool-cases (leb size (s.current_events + taken))) [
        | inl full ↦ rw full (
            ground (
              arith,
              is_read-snoc k s.nodes node,
              contains-distinct_files k files,
              contains-snoc k s.current_files f,
            ))
        | inr more ↦ rw more (ground (arith, contains-snoc k s.current_files f))
      ]

  -- A file that is placed already stays so.
  placed-split_file :
      (fuel remaining file_offset : ℕ) (f : InputFile) (s : SplitState)
      → (placed k s || f.ident == k) ≡ placed k s
      → placed k (split_file fuel size f remaining file_offset s) ≡ placed k s
  unfolding split_file
  placed-split_file zero remaining file_offset f s absorbed = refl
  placed-split_file (suc fuel) remaining file_offset f s absorbed =
      elim (Bool-cases (ltb 0 remaining)) [
        | inl more ↦
            let taken = min (size - s.current_events) remaining in
            let next = take_events size f taken file_offset s in
            let same = placed-take_events f taken file_offset s ∙ absorbed in
            let rest =
              placed-split_file fuel (remaining - taken) (file_offset + taken) f next
                (ground (arith, same, absorbed)) in
            rw more (rest ∙ same)
        | inr done ↦ rw done
      ]

  placed-file :
      (f : InputFile) (n : ℕ) (s : SplitState)
      → placed k (split_file n size f n 0 s) ≡ (placed k s || (f.ident == k && ltb 0 n))
  unfolding split_file
  placed-file f zero s = ground arith
  placed-file f (suc n) s =
      let taken = min (size - s.current_events) (suc n) in
      let next = take_events size f taken 0 s in
      let one = placed-take_events f taken 0 s in
      let rest = placed-split_file n (suc n - taken) (0 + taken) f next (ground (arith, one)) in
      ground (arith, rest, one)

  placed-split_each :
      (files : List InputFile) (s : SplitState)
      → placed k (split_each size files s) ≡ (placed k s || has_events k files)
  unfolding split_each
  placed-split_each [] s = ground arith
  placed-split_each (f ∷ files) s = ground (
    arith,
    placed-split_each files (split_file f.event_count size f f.event_count 0 s),
    placed-file f f.event_count s,
  )

is_empty-contains :
    (k : ℕ) (files : List InputFile) → is_empty files ≡ true → contains k (idents files) ≡ false
is_empty-contains k [] h = refl
is_empty-contains k (f ∷ files) h = ground (arith, h)

is_read-close_split : (k : ℕ) (s : SplitState) → is_read k (close_split s) ≡ placed k s
unfolding close_split placed
is_read-close_split k s = elim (Bool-cases (is_empty s.current_files)) [
  | inl closed ↦ rw closed (ground (arith, is_empty-contains k s.current_files closed))
  | inr left ↦ rw left (
      ground
        (arith, is_read-snoc k s.nodes (rest_node s), contains-distinct_files k s.current_files))
]

pub is_read-split_events :
    (k events_per_job : ℕ) (files : List InputFile)
    → is_read k (split_events events_per_job files) ≡ has_events k files
unfolding split_events placed
is_read-split_events k events_per_job [] = refl
is_read-split_events k events_per_job (f ∷ files) =
    let size = max 1 events_per_job in
    is_read-close_split k (split_each size (f ∷ files) no_nodes)
    ∙ placed-split_each k size (f ∷ files) no_nodes
