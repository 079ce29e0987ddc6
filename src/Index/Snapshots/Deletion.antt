-- ===== src/Index/Snapshots/Deletion.antt =====
-- `Catalog::delete_repository`: it removes the repository's record and all of its snapshots, and
-- nothing else.
use gitdb.Base.{
  true, false, ◌&&◌, ◌≡◌, ◌≢◌, refl, sym, ap, ◌∙◌, inl, inr, Option-cases, arith, Option, none,
  some, List, [], ◌∷◌, if◌then◌else◌,
}
use mathlib.Core.List.{Memᴰ}
use mathlib.Core.Path.{subst}
use gitdb.Core.{GitOid, ContentId}
use gitdb.Base.Bytes.{Bytes, bytes_eq_iff}
use gitdb.Base.Result.{ok}
use gitdb.Base.Sort.{sort-keeps}
use gitdb.Base.Table.{Table, ◌=?◌, get-mem, bytes_Eq, pair_Eq}
use gitdb.Index.{
  RepoId, SnapshotId, SnapshotVisibility, RepositorySnapshot, delete_repository, delete_snapshot,
  CatalogBatch, InMemoryCatalog,
}
use gitdb.Index.Apply.{apply, mutates_marker}
use gitdb.Index.Apply.Aliases.{AreConsistent, alias_puts}
use gitdb.Index.Apply.Commit.{apply_commits_iff}
use gitdb.Index.Apply.Lookups.{
  last_write, apply-LastWrites, snapshot_write, repository_write, overwrite,
}
use gitdb.Index.Snapshots.{
  repository, repository_snapshot, snapshot_before, snapshot_entries, repository_snapshots,
  snapshot_deletions, delete_whole_repository,
}

abbrev entry : RepoId → SnapshotId → SnapshotVisibility → RepositorySnapshot
entry repo snapshot visibility = record {
  repository = repo;
  snapshot = snapshot;
  visibility = visibility;
}

entries-keep :
    (table : Table (RepoId × SnapshotId) SnapshotVisibility) (repo : RepoId) (snapshot : SnapshotId)
    (v : SnapshotVisibility)
    → Memᴰ ((repo, snapshot), v) table
    → Memᴰ (entry repo snapshot v) (snapshot_entries table)
unfolding snapshot_entries
entries-keep [] repo snapshot v m = elim m [ ]
entries-keep (((r, s), w) ∷ table) repo snapshot v (Memᴰ.head e) =
    Memᴰ.head (ap (λ p. entry p.0.0 p.0.1 p.1) e)
entries-keep (((r, s), w) ∷ table) repo snapshot v (Memᴰ.tail m) =
    Memᴰ.tail (entries-keep table repo snapshot v m)

module _ (repo : RepoId) where
  after_deletions :
      List RepositorySnapshot
      → RepoId
      → SnapshotId
      → Option SnapshotVisibility
      → Option SnapshotVisibility
  after_deletions ss r s old = last_write snapshot_write (snapshot_deletions repo ss) (r, s) old

  -- What the first entry of the list does to a key.
  abbrev first_deletion :
      RepositorySnapshot
      → RepoId
      → SnapshotId
      → Option SnapshotVisibility
      → Option SnapshotVisibility
  first_deletion x r s old =
      if x.repository =? repo then (if repo =? r && x.snapshot =? s then none else old) else old

  deletion-step :
      (x : RepositorySnapshot) (ss : List RepositorySnapshot) (r : RepoId) (s : SnapshotId)
      (old : Option SnapshotVisibility)
      → after_deletions (x ∷ ss) r s old ≡ after_deletions ss r s (first_deletion x r s old)
  unfolding after_deletions snapshot_deletions last_write overwrite
  deletion-step x ss r s old =
      elim (x.repository =? repo)
        as (λ b.
          last_write snapshot_write
            (if b
              then delete_snapshot repo x.snapshot ∷ snapshot_deletions repo ss
              else snapshot_deletions repo ss)
            (r, s) old
          ≡ last_write snapshot_write (snapshot_deletions repo ss) (r, s)
              (if b then (if repo =? r && x.snapshot =? s then none else old) else old)) [
                | true ↦ refl
                | false ↦ refl
              ]

  deletions-others :
      (ss : List RepositorySnapshot) (r : RepoId) (s : SnapshotId) (old : Option SnapshotVisibility)
      → r ≢ repo
      → after_deletions ss r s old ≡ old
  unfolding after_deletions snapshot_deletions last_write
  deletions-others [] r s old h = refl
  deletions-others (x ∷ ss) r s old h =
      let kept : first_deletion x r s old ≡ old = ground (arith, bytes_eq_iff repo r) in
      deletion-step x ss r s old ∙ ap (after_deletions ss r s) kept ∙ deletions-others ss r s old h

  deletions-none :
      (ss : List RepositorySnapshot) (s : SnapshotId) → after_deletions ss repo s none ≡ none
  unfolding after_deletions snapshot_deletions last_write
  deletions-none [] s = refl
  deletions-none (x ∷ ss) s =
      let kept : first_deletion x repo s none ≡ none = ground arith in
      deletion-step x ss repo s none ∙ ap (after_deletions ss repo s) kept ∙ deletions-none ss s

  deletions-hit :
      (ss : List RepositorySnapshot) (s : SnapshotId) (v : SnapshotVisibility)
      (old : Option SnapshotVisibility)
      → Memᴰ (entry repo s v) ss
      → after_deletions ss repo s old ≡ none
  deletions-hit [] s v old m = elim m [ ]
  deletions-hit (x ∷ ss) s v old (Memᴰ.head e) =
      let gone : first_deletion x repo s old ≡ none = ground (
        arith,
        (bytes_eq_iff x.repository repo).1 (sym (ap (λ t. t.repository) e)),
        (bytes_eq_iff repo repo).1 refl,
        (bytes_eq_iff x.snapshot s).1 (sym (ap (λ t. t.snapshot) e)),
      ) in
      deletion-step x ss repo s old ∙ ap (after_deletions ss repo s) gone ∙ deletions-none ss s
  deletions-hit (x ∷ ss) s v old (Memᴰ.tail m) =
      deletion-step x ss repo s old ∙ deletions-hit ss s v _ m

  deletions-repository :
      (ss : List RepositorySnapshot) (r : RepoId) (old : Option Bytes)
      → last_write repository_write (snapshot_deletions repo ss) r old ≡ old
  unfolding snapshot_deletions last_write overwrite
  deletions-repository [] r old = refl
  deletions-repository (x ∷ ss) r old =
      elim (x.repository =? repo)
        as (λ b.
          last_write repository_write
            (if b
              then delete_snapshot repo x.snapshot ∷ snapshot_deletions repo ss
              else snapshot_deletions repo ss)
            r old
          ≡ old) [ true ↦ deletions-repository ss r old | false ↦ deletions-repository ss r old ]

  no_aliases : (ss : List RepositorySnapshot) → alias_puts (snapshot_deletions repo ss) ≡ []
  unfolding snapshot_deletions alias_puts
  no_aliases [] = refl
  no_aliases (x ∷ ss) =
      elim (x.repository =? repo)
        as (λ b.
          alias_puts (
            if b
            then delete_snapshot repo x.snapshot ∷ snapshot_deletions repo ss
            else snapshot_deletions repo ss)
          ≡ []) [ true ↦ no_aliases ss | false ↦ no_aliases ss ]

  no_marker : (ss : List RepositorySnapshot) → mutates_marker (snapshot_deletions repo ss) ≡ false
  unfolding snapshot_deletions mutates_marker
  no_marker [] = refl
  no_marker (x ∷ ss) =
      elim (x.repository =? repo)
        as (λ b.
          mutates_marker (
            if b
            then delete_snapshot repo x.snapshot ∷ snapshot_deletions repo ss
            else snapshot_deletions repo ss)
          ≡ false) [ true ↦ no_marker ss | false ↦ no_marker ss ]

nothing-AreConsistent : (aliases : Table (RepoId × GitOid) ContentId) → AreConsistent aliases []
nothing-AreConsistent aliases = record {
  with_catalog = λ k v w m e. elim m [ ];
  with_batch = λ k v w m n. elim m [ ];
}

module _ (c : InMemoryCatalog) (repo : RepoId) where
  Listed : List RepositorySnapshot → Type 0
  Listed ss =
      (s : SnapshotId) (v : SnapshotVisibility)
      → repository_snapshot c repo s ≡ some v
      → Memᴰ (entry repo s v) ss

  snapshots-Listed : Listed (repository_snapshots c)
  unfolding Listed repository_snapshot repository_snapshots
  snapshots-Listed s v e =
      sort-keeps snapshot_before (snapshot_entries c.repository_snapshots) (
        entries-keep c.repository_snapshots repo s v (get-mem (repo, s) v c.repository_snapshots e))

  all_gone :
      (s : SnapshotId)
      → after_deletions repo (repository_snapshots c) repo s (repository_snapshot c repo s) ≡ none
  unfolding Listed
  all_gone s = elim (Option-cases (repository_snapshot c repo s)) [
    | inl absent ↦
        ap (after_deletions repo (repository_snapshots c) repo s) absent
        ∙ deletions-none repo (repository_snapshots c) s
    | inr (v, held) ↦ deletions-hit repo (repository_snapshots c) s v _ (snapshots-Listed s v held)
  ]

  abbrev deletion : CatalogBatch
  deletion = delete_repository repo ∷ snapshot_deletions repo (repository_snapshots c)

  deletion-commits : c.rebuilding ≡ false → (d : InMemoryCatalog) × (apply c deletion ≡ (d, ok tt))
  unfolding alias_puts mutates_marker
  deletion-commits h = (apply_commits_iff c deletion).1 (
    h,
    no_marker repo (repository_snapshots c),
    subst (AreConsistent c.aliases) (sym (no_aliases repo (repository_snapshots c)))
        (nothing-AreConsistent c.aliases),
  )

-- Outside a rebuild, deleting a repository commits. Then its record and every one of its snapshots
-- are gone, and the records and snapshots of the other repositories are as before.
pub delete_whole_repository_lem :
    (c : InMemoryCatalog) (repo : RepoId)
    → c.rebuilding ≡ false
    → (d : InMemoryCatalog) × (delete_whole_repository c repo ≡ (d, ok tt))
      × (repository d repo ≡ none)
      × ((s : SnapshotId) → repository_snapshot d repo s ≡ none)
      × ((r : RepoId) → r ≢ repo → repository d r ≡ repository c r)
      × ((r : RepoId) (s : SnapshotId)
          → r ≢ repo
          → repository_snapshot d r s ≡ repository_snapshot c r s)
unfolding delete_whole_repository repository repository_snapshot last_write overwrite
    after_deletions
delete_whole_repository_lem c repo h =
    let ss = repository_snapshots c in
    let (d, done) = deletion-commits c repo h in
    let l = apply-LastWrites c d (deletion c repo) done in
    (
      d,
      done,
      l.repositories_written repo
          ∙ deletions-repository repo ss repo _
          ∙ ground (arith, (bytes_eq_iff repo repo).1 refl),
      (λ s. l.repository_snapshots_written (repo, s) ∙ all_gone c repo s),
      (λ r other.
          l.repositories_written r
          ∙ deletions-repository repo ss r _
          ∙ ground (arith, bytes_eq_iff repo r)),
      (λ r s other. l.repository_snapshots_written (r, s) ∙ deletions-others repo ss r s _ other),
    )
