-- ===== src/Janitor/Eviction.antt =====
-- pkg/janitor/janitor.go: what a cleanup removes and what it leaves.
use go_rego.Base.{
  ℕ, zero, suc, ◌+◌, ◌-◌, ◌≤◌, ◌<◌, ◌≡◌, Bool, true, false, ◌⊎◌, inl, inr, refl, Bool-cases, List,
  [], ◌∷◌, ◌++◌, leb, if◌then◌else◌, arith, length, take, sym, subst, ◌∙◌,
}
use mathlib.Core.List.{Permᴰ}
use go_rego.Base.Lists.{All, All-weaken}
use go_rego.Base.Text.{GoString}
use go_rego.Base.Results.{ok}
use go_rego.Janitor.Cleanup.{
  FileInfo, Janitor, WalkEvent, visited, failed, gather, is_young, is_older, evict, cleanup,
}

abbrev pub size_sum : List FileInfo → ℕ
size_sum [] = 0
size_sum (f ∷ files) = f.size + size_sum files

size_sum-append : (xs ys : List FileInfo) → size_sum (xs ++ ys) ≡ size_sum xs + size_sum ys
size_sum-append [] ys = omega arith
size_sum-append (x ∷ xs) ys = omega (arith, size_sum-append xs ys)

gather-size :
    (events : List WalkEvent) (files : List FileInfo) (total : ℕ) (files2 : List FileInfo)
    (total2 : ℕ)
    → size_sum files ≡ total
    → gather events files total ≡ ok (files2, total2)
    → size_sum files2 ≡ total2
unfolding gather
gather-size [] files total files2 total2 h e = cc
gather-size (failed x ∷ events) files total files2 total2 h e = absurd (cc)
gather-size (visited f ∷ events) files total files2 total2 h e = elim (Bool-cases f.is_dir) [
  | inl d ↦ gather-size events files total files2 total2 h (
      subst
        (λ b.
          gather events (if b then files else files ++ (f ∷ []))
            (if b then total else total + f.size)
          ≡ ok (files2, total2))
        d e)
  | inr d ↦
      gather-size events (files ++ (f ∷ [])) (total + f.size) files2 total2
        (omega (arith, size_sum-append files (f ∷ [])))
        (subst
          (λ b.
            gather events (if b then files else files ++ (f ∷ []))
              (if b then total else total + f.size)
            ≡ ok (files2, total2))
          d e)
]

module _ (j : Janitor) (now : ℕ) (removable : GoString → Bool) where
  -- The files that are old enough and that the file system lets go.
  unfoldable pub candidates : List FileInfo → List FileInfo
  candidates [] = []
  candidates (f ∷ files) =
      let rest = candidates files in
      if is_young j now f then rest else (if removable f.path then f ∷ rest else rest)

  evict-size :
      (files : List FileInfo) (total : ℕ)
      → size_sum files ≤ total
      → (evict j now removable files total).1 + size_sum (evict j now removable files total).0
        ≡ total
  unfolding evict
  evict-size [] total h = omega arith
  evict-size (f ∷ files) total h =
      ground (
        arith,
        evict-size files total (omega arith),
        evict-size files (total - f.size) (omega arith),
      )

  -- The files removed are the first of the candidates.
  evict-candidates :
      (files : List FileInfo) (total : ℕ)
      → (evict j now removable files total).0
        ≡ take (length (evict j now removable files total).0) (candidates files)
  unfolding evict candidates
  evict-candidates [] total = refl
  evict-candidates (f ∷ files) total =
      ground (arith, evict-candidates files total, evict-candidates files (total - f.size))

  -- A removal stops at the limit, or no candidate is left.
  evict-limit :
      (files : List FileInfo) (total : ℕ)
      → ((evict j now removable files total).1 ≤ j.max_size)
        ⊎ ((evict j now removable files total).0 ≡ candidates files)
  unfolding evict candidates
  evict-limit [] total = inr refl
  evict-limit (f ∷ files) total =
      ground (arith, evict-limit files total, evict-limit files (total - f.size))

  -- Before each removal the limit is exceeded.
  evict-needed :
      (files : List FileInfo) (total n : ℕ)
      → n < length (evict j now removable files total).0
      → j.max_size < total - size_sum (take n (evict j now removable files total).0)
  unfolding evict
  evict-needed [] total n h = ground arith
  evict-needed (f ∷ files) total zero h = ground arith
  evict-needed (f ∷ files) total (suc n) h =
      ground (arith, evict-needed files total (suc n), evict-needed files (total - f.size) n)

-- Every file is older than those after it, or as old.
abbrev pub OldestFirst : List FileInfo → Type 0
OldestFirst [] = Unit
OldestFirst (f ∷ files) = All (λ g. f.access_time ≤ g.access_time) files × OldestFirst files

-- The orders that `sort.Slice` asks for: asymmetric, with "not less" transitive.
pub record IsWeakOrder (less : FileInfo → FileInfo → Bool) : Type 0 where
  pub less_asymm : (f g : FileInfo) → less f g ≡ true → less g f ≡ false
  pub not_less_trans : (f g h : FileInfo) → less f g ≡ false → less g h ≡ false → less f h ≡ false

-- No file is less than one before it.
abbrev pub SortedBy : (FileInfo → FileInfo → Bool) → List FileInfo → Type 0
SortedBy less [] = Unit
SortedBy less (f ∷ files) = All (λ g. less g f ≡ false) files × SortedBy less files

is_older-IsWeakOrder : IsWeakOrder is_older
is_older-IsWeakOrder = record {
  less_asymm = λ f g h. ground arith;
  not_less_trans = λ f g h a b. ground arith;
}

SortedBy-OldestFirst : (files : List FileInfo) → SortedBy is_older files → OldestFirst files
SortedBy-OldestFirst [] h = tt
SortedBy-OldestFirst (f ∷ files) (h, hs) = (
  All-weaken (λ g. is_older g f ≡ false) (λ g. f.access_time ≤ g.access_time) files
      (λ g e. ground arith) h,
  SortedBy-OldestFirst files hs,
)

size_sum-perm : {xs ys : List FileInfo} → Permᴰ xs ys → size_sum xs ≡ size_sum ys
size_sum-perm Permᴰ.nil = refl
size_sum-perm (Permᴰ.cons e p) = rw (e, size_sum-perm p) refl
size_sum-perm (Permᴰ.swap e e2) = rw (e, e2) (omega arith)
size_sum-perm (Permᴰ.trans p q) = size_sum-perm p ∙ size_sum-perm q

module _ (j : Janitor) (now : ℕ) (removable : GoString → Bool) where
  candidates-All :
      (P : FileInfo → Type 0) (files : List FileInfo)
      → All P files
      → All P (candidates j now removable files)
  unfolding candidates
  candidates-All P [] h = tt
  candidates-All P (f ∷ files) h = elim (Bool-cases (is_young j now f)) [
    | inl y ↦ rw y (candidates-All P files h.1)
    | inr y ↦ rw y (elim (Bool-cases (removable f.path)) [
      | inl r ↦ rw r ((h.0, candidates-All P files h.1))
      | inr r ↦ rw r (candidates-All P files h.1)
    ])
  ]

  candidates-OldestFirst :
      (files : List FileInfo) → OldestFirst files → OldestFirst (candidates j now removable files)
  unfolding candidates
  candidates-OldestFirst [] h = tt
  candidates-OldestFirst (f ∷ files) h = elim (Bool-cases (is_young j now f)) [
    | inl y ↦ rw y (candidates-OldestFirst files h.1)
    | inr y ↦ rw y (elim (Bool-cases (removable f.path)) [
      | inl r ↦ rw r (
          (
            candidates-All (λ g. f.access_time ≤ g.access_time) files h.0,
            candidates-OldestFirst files h.1,
          ))
      | inr r ↦ rw r (candidates-OldestFirst files h.1)
    ])
  ]

  module _ (sort : (FileInfo → FileInfo → Bool) → List FileInfo → List FileInfo)
      (is_permutation : (less : FileInfo → FileInfo → Bool) (files : List FileInfo)
        → Permᴰ files (sort less files))
      (is_sorted : (less : FileInfo → FileInfo → Bool) (files : List FileInfo)
        → IsWeakOrder less
        → SortedBy less (sort less files)) where
    -- When the walk succeeds with some files, the cleanup succeeds with the files it removes and the
    -- size that is left: this size and those of the removed files make up the size of all files.
    -- A cache within the limit keeps all its files. Above the limit the removed files are the first
    -- of the candidates, the files old enough and removable, in the sorted order, in which no
    -- file is younger than one after it; the limit is exceeded before each removal; and in
    -- the end the size is within the limit, or all candidates are removed. (Of `sort.Slice` it is
    -- used that it permutes the files, and sorts them by any strict weak order that it is given.)
    pub cleanup-removed :
        (events : List WalkEvent) (files : List FileInfo) (total : ℕ)
        → gather events [] 0 ≡ ok (files, total)
        → (removed : List FileInfo) × (rest : ℕ) × (cleanup j now removable sort events
            ≡ ok (removed, rest))
          × (rest + size_sum removed ≡ size_sum files)
          × (size_sum files ≤ j.max_size → removed ≡ [])
          × (removed ≡ take (length removed) (candidates j now removable (sort is_older files)))
          × OldestFirst (candidates j now removable (sort is_older files))
          × ((rest ≤ j.max_size) ⊎ (removed ≡ candidates j now removable (sort is_older files)))
          × ((n : ℕ) → n < length removed → j.max_size < size_sum files - size_sum (take n removed))
    unfolding cleanup gather
    cleanup-removed events files total e =
        let size : size_sum files ≡ total = gather-size events [] 0 files total refl e in
        let sorted : size_sum (sort is_older files) ≡ total =
          sym (size_sum-perm (is_permutation is_older files)) ∙ size in
        let older : OldestFirst (candidates j now removable (sort is_older files)) =
          candidates-OldestFirst (sort is_older files) (
            SortedBy-OldestFirst (sort is_older files)
              (is_sorted is_older files is_older-IsWeakOrder)) in
        elim (Bool-cases (leb total j.max_size)) [
          | inl l ↦ (
            [],
            total,
            rw (e, cleanup, l) refl,
            omega (arith, size),
            λ h. refl,
            refl,
            older,
            inl (ground arith),
            λ n h. ground arith,
          )
          | inr l ↦ (
            (evict j now removable (sort is_older files) total).0,
            (evict j now removable (sort is_older files) total).1,
            rw (e, cleanup, l) refl,
            omega (
              arith,
              size,
              sorted,
              evict-size j now removable (sort is_older files) total (omega (arith, sorted)),
            ),
            λ h. absurd (ground (arith, size)),
            evict-candidates j now removable (sort is_older files) total,
            older,
            evict-limit j now removable (sort is_older files) total,
            λ n h. rw size (evict-needed j now removable (sort is_older files) total n h),
          )
        ]
