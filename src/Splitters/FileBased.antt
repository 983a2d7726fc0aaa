-- ===== src/Splitters/FileBased.antt =====
-- What `FileBasedSplitter` makes of the files.
use mathlib.Core.List.Perm
use mathlib.Core.List.{Perm, flatten, append_assoc, append-nil, perm_middle}
use condora.Base.{
  ℕ, suc, String, List, [], ◌∷◌, ◌++◌, map, ◌<◌, ◌≡◌, ◌==◌, string_eq, inl, inr, max, All,
  All-append, arith, refl, sym, Bool-cases,
}
use condora.Base.Dict.{append_at, values}
use condora.Base.Chunks.{chunks, flatten-chunks, IsChunk, chunks-IsChunk, All-chunks}
use condora.Splitters.{
  InputFile, DagNodeSpec, first_location, group_by_site, batch_nodes, site_batches, split_files,
}
use condora.Splitters.EventBased.{IsNumbered}

flatten-append {ℓ} :
    {A : Type ℓ} (xs ys : List (List A)) → flatten (xs ++ ys) ≡ flatten xs ++ flatten ys
unfolding flatten
flatten-append [] ys = refl
flatten-append (x ∷ xs) ys =
    rw (flatten-append xs ys) (sym (append_assoc x (flatten xs) (flatten ys)))

abbrev Groups : Type 0
Groups = List (String × List InputFile)

abbrev grouped : Groups → List InputFile
grouped m = flatten (values m)

-- To append a file to its group adds it to what the groups hold.
grouped-append_at :
    (site : String) (f : InputFile) (m : Groups)
    → Perm (grouped (append_at site f m)) (f ∷ grouped m)
unfolding append_at flatten
grouped-append_at site f [] = Perm.rfl
grouped-append_at site f ((j, fs) ∷ m) = elim (Bool-cases (j == site)) [
  | inl here ↦ rw (here, append_assoc) (perm_middle fs (grouped m))
  | inr there ↦
      rw there
        (Perm.trans (Perm.append_left fs (grouped-append_at site f m)) (perm_middle fs (grouped m)))
]

grouped-group_by_site :
    (files : List InputFile) (m : Groups)
    → Perm (grouped (group_by_site files m)) (grouped m ++ files)
unfolding group_by_site
grouped-group_by_site [] m = rw append-nil Perm.rfl
grouped-group_by_site (f ∷ files) m =
    let site = first_location f.locations in
    Perm.trans (grouped-group_by_site files (append_at site f m)) (
      Perm.trans (Perm.append_right files (grouped-append_at site f m))
        (Perm.symm (perm_middle (grouped m) files)))

-- All files of a group have the group's site as their first location.
abbrev IsAt : String → InputFile → Type 0
IsAt site f = first_location f.locations ≡ site

abbrev AreSited : Groups → Type 0
AreSited = All (λ g. All (IsAt g.0) g.1)

AreSited-append_at :
    (f : InputFile) (m : Groups)
    → AreSited m
    → AreSited (append_at (first_location f.locations) f m)
unfolding append_at
AreSited-append_at f [] sited = ((refl, tt), tt)
AreSited-append_at f ((j, fs) ∷ m) sited =
    let site = first_location f.locations in
    elim (Bool-cases (j == site)) [
      | inl here ↦ rw here (
        All-append (IsAt j) fs (f ∷ []) sited.0 (sym ((string_eq.same_iff j site).0 here), tt),
        sited.1,
      )
      | inr there ↦ rw there (sited.0, AreSited-append_at f m sited.1)
    ]

AreSited-group_by_site :
    (files : List InputFile) (m : Groups) → AreSited m → AreSited (group_by_site files m)
unfolding group_by_site
AreSited-group_by_site [] m sited = sited
AreSited-group_by_site (f ∷ files) m sited =
    AreSited-group_by_site files _ (AreSited-append_at f m sited)

-- A batch of `FileBasedSplitter`: neither empty nor too large, and all at one first location.
abbrev pub IsBatch : ℕ → List InputFile → Type 0
IsBatch n batch = IsChunk n batch × ((site : String) × All (IsAt site) batch)

module _ (n : ℕ) where
  batches_at :
      (site : String) (batches : List (List InputFile))
      → All (IsChunk n) batches
      → All (All (IsAt site)) batches
      → All (IsBatch n) batches
  batches_at site [] sized at = tt
  batches_at site (b ∷ batches) sized at =
      ((sized.0, (site, at.0)), batches_at site batches sized.1 at.1)

  site_batches-IsBatch : (m : Groups) → 0 < n → AreSited m → All (IsBatch n) (site_batches n m)
  unfolding site_batches
  site_batches-IsBatch [] pos sited = tt
  site_batches-IsBatch ((site, fs) ∷ m) pos sited =
      All-append (IsBatch n) (chunks n fs) _
        (batches_at site (chunks n fs) (chunks-IsChunk n fs pos) (All-chunks _ n fs sited.0))
        (site_batches-IsBatch m pos sited.1)

  flatten-site_batches : (m : Groups) → 0 < n → flatten (site_batches n m) ≡ grouped m
  unfolding site_batches flatten
  flatten-site_batches [] pos = refl
  flatten-site_batches ((site, fs) ∷ m) pos = rw (
    flatten-append (chunks n fs) (site_batches n m),
    flatten-chunks n fs pos,
    flatten-site_batches m pos,
  )

batch_nodes-files :
    (k : ℕ) (batches : List (List InputFile))
    → map (λ n. n.input_files) (batch_nodes k batches) ≡ batches
unfolding batch_nodes
batch_nodes-files k [] = refl
batch_nodes-files k (b ∷ batches) = rw (batch_nodes-files (suc k) batches)

batch_nodes-IsNumbered :
    (k : ℕ) (batches : List (List InputFile)) → IsNumbered k (batch_nodes k batches)
unfolding batch_nodes
batch_nodes-IsNumbered k [] = tt
batch_nodes-IsNumbered k (b ∷ batches) = (refl, batch_nodes-IsNumbered (suc k) batches)

-- The jobs hold the files, each as often as it is given; every batch is one that the size and the
-- locality allow; the jobs are numbered from 0 on.
pub record IsFileSplit (n : ℕ) (files : List InputFile) (nodes : List DagNodeSpec) : Type 0 where
  pub complete : Perm (flatten (map (λ n. n.input_files) nodes)) files
  pub batched : All (IsBatch n) (map (λ n. n.input_files) nodes)
  pub numbered : IsNumbered 0 nodes

-- For every list of files and every size, `FileBasedSplitter` puts each file into exactly one job,
-- no job is empty or has more than `max(1, files_per_job)` files, the files of one job have one
-- first location (or none of them has a location), and the jobs are numbered from 0 on.
pub split_files-IsFileSplit :
    (files_per_job : ℕ) (files : List InputFile)
    → IsFileSplit (max 1 files_per_job) files (split_files files_per_job files)
unfolding split_files flatten
split_files-IsFileSplit files_per_job [] = record {
  complete = Perm.rfl;
  batched = tt;
  numbered = tt;
}
split_files-IsFileSplit files_per_job (f ∷ files) =
    let n = max 1 files_per_job in
    let m = group_by_site (f ∷ files) [] in
    record {
      complete =
          rw (batch_nodes-files 0 (site_batches n m), flatten-site_batches n m (omega arith))
            (grouped-group_by_site (f ∷ files) []);
      batched =
          rw (batch_nodes-files 0 (site_batches n m))
            (site_batches-IsBatch n m (omega arith) (AreSited-group_by_site (f ∷ files) [] tt));
      numbered = batch_nodes-IsNumbered 0 (site_batches n m);
    }
