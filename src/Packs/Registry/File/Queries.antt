-- ===== src/Packs/Registry/File/Queries.antt =====
-- pkg/query/compliance/pack.go: what loadQueryFiles reads.
use corkscrew.Prelude.{
  ℕ, suc, zero, ◌⊎◌, ◌≡◌, ◌≢◌, refl, inl, inr, some, List, [], ◌∷◌, Text, text_eq, text_eq_iff,
  get_elem?, Bool-cases,
}
use corkscrew.Packs.FilePath.{join_path}
use corkscrew.Packs.Types.{ComplianceQuery, Env, Read, found, not_exist, broken}
use corkscrew.Packs.Check.Forms.{nonempty_iff}
use corkscrew.Packs.Registry.File.{Files, missing, all_read, prepend, load_query_files}

Read-cases :
    {A : Type 0} (o : Read A)
    → ((a : A) × (o ≡ found a)) ⊎ ((o ≡ not_exist) ⊎ ((n : ℕ) × (o ≡ broken n)))
Read-cases (found a) = inl (a, refl)
Read-cases not_exist = inr (inl refl)
Read-cases (broken n) = inr (inr (n, refl))

module _ (env : Env) where
  -- The SQL of a query: its file's content, if it has a file.
  abbrev HasSql : Text → ComplianceQuery → ComplianceQuery → Type 0
  HasSql pack_dir q q' =
      ((q.spec.query_file ≡ []) × (q' ≡ q))
      ⊎ ((q.spec.query_file ≢ [])
          × (sql : Text) × (env.read_file (join_path (pack_dir ∷ q.spec.query_file ∷ []))
              ≡ found sql)
          × (q' ≡ record q { sql = sql }))

  abbrev pub HaveSql : Text → List ComplianceQuery → List ComplianceQuery → Type 0
  HaveSql pack_dir [] [] = Unit {0}
  HaveSql pack_dir (q ∷ qs) (q' ∷ qs') = HasSql pack_dir q q' × HaveSql pack_dir qs qs'
  HaveSql pack_dir _ _ = ⊥

  abbrev pub IsUnreadable : Text → Type 0
  IsUnreadable path = (content : Text) → env.read_file path ≡ found content → ⊥

  -- A query with this id has a file that cannot be read.
  abbrev pub LacksFile : Text → List ComplianceQuery → Text → Type 0
  LacksFile pack_dir qs id =
      (i : ℕ) × (q : ComplianceQuery) × (get_elem? qs i ≡ some q)
      × (q.spec.id ≡ id)
      × (q.spec.query_file ≢ [])
      × IsUnreadable (join_path (pack_dir ∷ q.spec.query_file ∷ []))

  abbrev pub FilesOf : Text → List ComplianceQuery → Files → Type 0
  FilesOf pack_dir qs (missing id) = LacksFile pack_dir qs id
  FilesOf pack_dir qs (all_read qs') = HaveSql pack_dir qs qs'

  prepend-FilesOf :
      (pack_dir : Text) (q q' : ComplianceQuery) (qs : List ComplianceQuery) (rest : Files)
      → HasSql pack_dir q q'
      → FilesOf pack_dir qs rest
      → FilesOf pack_dir (q ∷ qs) (prepend q' rest)
  prepend-FilesOf pack_dir q q' qs (missing id) h (i, p, e, k, m, n) = (suc i, p, e, k, m, n)
  prepend-FilesOf pack_dir q q' qs (all_read qs') h k = (h, k)

  pub load_query_files-FilesOf :
      (qs : List ComplianceQuery) (pack_dir : Text)
      → FilesOf pack_dir qs (load_query_files env qs pack_dir)
  unfolding load_query_files
  load_query_files-FilesOf [] pack_dir = tt
  load_query_files-FilesOf (q ∷ qs) pack_dir =
      let rest = load_query_files-FilesOf qs pack_dir in
      let file = join_path (pack_dir ∷ q.spec.query_file ∷ []) in
      elim (Bool-cases (text_eq q.spec.query_file [])) [
        | inl e ↦ rw e (
            prepend-FilesOf pack_dir q q qs _ (inl ((text_eq_iff q.spec.query_file []).0 e, refl))
              rest)
        | inr e ↦ rw e (elim (Read-cases (env.read_file file)) [
          | inl (sql, r) ↦ rw r (
              prepend-FilesOf pack_dir q (record q { sql = sql }) qs _
                (inr ((nonempty_iff q.spec.query_file).0 e, sql, r, refl)) rest)
          | inr (inl r) ↦
              rw r (zero, q, refl, refl, (nonempty_iff q.spec.query_file).0 e, λ content k. cc)
          | inr (inr (n, r)) ↦
              rw r (zero, q, refl, refl, (nonempty_iff q.spec.query_file).0 e, λ content k. cc)
        ])
      ]
