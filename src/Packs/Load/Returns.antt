-- ===== src/Packs/Load/Returns.antt =====
-- pkg/query/compliance/loader.go: loading always returns, and the loaded packs are valid.
use corkscrew.Prelude.{
  ℕ, zero, suc, ◌+◌, ◌≤◌, ◌<◌, ◌≡◌, refl, inl, inr, false, some, List, [], ◌∷◌, ◌++◌, arith, Text,
  text_eq, text_eq_refl, length, length-append, ltb, leb, Bool-cases, Option-cases, done,
}
use corkscrew.Packs.Types.{
  PackDependency, PackManifest, QueryPack, PackLoader, Env, LoadError, pack_invalid,
}
use corkscrew.Packs.Distinct.{contains}
use corkscrew.Packs.Check.{PackError}
use corkscrew.Packs.Check.Compiled.{IsChecked, validate_pack-IsChecked}
use corkscrew.Packs.Manifest.{Result, failed, ok, find_pack_manifest, manifest_to_pack}
use corkscrew.Packs.Manifest.Keeps.{
  state_of, find_pack_manifest-KeepsPacks, manifest_to_pack-KeepsPacks,
}
use corkscrew.Packs.Load.{
  pack_depth_max, cache_pack, Loading, return, after, after_result, dependency_namespace,
  load_dependencies, finish_pack, reuse, load_pack_internal, load_pack,
}

module _ (env : Env) where
  -- Every loaded pack is valid and has its patterns compiled.
  abbrev pub AreValid : PackLoader → Type 0
  AreValid l =
      (namespace : Text) (p : QueryPack)
      → l.loaded_packs namespace ≡ some p
      → IsChecked env.compiles p

  -- A call has returned: the loaded packs are valid, and of a value `Q` holds.
  abbrev pub Holds : {A : Type 0} → (A → PackLoader → Type 0) → Result A → Type 0
  Holds Q (failed e l) = AreValid l
  Holds Q (ok a l) = AreValid l × Q a l

  abbrev pub Returns : {A : Type 0} → (A → PackLoader → Type 0) → Loading A → Type 0
  Returns {A} Q o = (r : Result A) × (o ≡ some (done r)) × Holds Q r

  abbrev pub IsInTable : Text → QueryPack → PackLoader → Type 0
  IsInTable namespace p l = l.loaded_packs namespace ≡ some p

  AreValid-kept : (l l' : PackLoader) → l'.loaded_packs ≡ l.loaded_packs → AreValid l → AreValid l'
  AreValid-kept l l' e v namespace p h = v namespace p (rw (← e) h)

  after-Returns :
      {A B : Type 0} (P : A → PackLoader → Type 0) (Q : B → PackLoader → Type 0) (o : Loading A)
      (f : LoadError → PackLoader → Loading B) (g : A → PackLoader → Loading B)
      → Returns P o
      → ((e : LoadError) (l : PackLoader) → AreValid l → Returns Q (f e l))
      → ((a : A) (l : PackLoader) → AreValid l → P a l → Returns Q (g a l))
      → Returns Q (after o f g)
  after-Returns P Q o f g (failed e l, ran, h) k m = rw (ran, after) (k e l h)
  after-Returns P Q o f g (ok a l, ran, h) k m = rw (ran, after) (m a l h.0 h.1)

  after_result-Returns :
      {A B : Type 0} (Q : B → PackLoader → Type 0) (r : Result A)
      (f : LoadError → PackLoader → Loading B) (g : A → PackLoader → Loading B)
      → AreValid (state_of r)
      → ((e : LoadError) (l : PackLoader) → AreValid l → Returns Q (f e l))
      → ((a : A) (l : PackLoader) → AreValid l → Returns Q (g a l))
      → Returns Q (after_result r f g)
  after_result-Returns Q (failed e l) f g v k m = k e l v
  after_result-Returns Q (ok a l) f g v k m = m a l v

  load_dependencies-Returns :
      (load : Text → PackLoader → Loading QueryPack) (namespace : Text) (ds : List PackDependency)
      (loaded : List QueryPack) (l : PackLoader)
      → ((n : Text) (l' : PackLoader) → AreValid l' → Returns (IsInTable n) (load n l'))
      → AreValid l
      → Returns (λ ps l'. Unit {0}) (load_dependencies env load namespace ds loaded l)
  unfolding load_dependencies
  load_dependencies-Returns load namespace [] loaded l k v = (ok loaded l, refl, (v, tt))
  load_dependencies-Returns load namespace (d ∷ ds) loaded l k v =
      after-Returns (IsInTable (dependency_namespace d)) (λ ps l'. Unit {0})
        (load (dependency_namespace d) l) _ _ (k (dependency_namespace d) l v)
        (λ e l' v'. elim (Bool-cases d.required) [
          | inl needed ↦ rw needed (failed _ l', refl, v')
          | inr optional ↦ rw optional (load_dependencies-Returns load namespace ds loaded l' k v')
        ])
        (λ p l' v' h. load_dependencies-Returns load namespace ds (loaded ++ p ∷ []) l' k v')

  cache_pack-AreValid :
      (namespace : Text) (pack : QueryPack) (path : Text) (ps : List QueryPack) (l : PackLoader)
      → AreValid l
      → IsChecked env.compiles pack
      → AreValid (cache_pack env namespace pack path ps l)
  unfolding cache_pack
  cache_pack-AreValid namespace pack path ps l v good k p h =
      elim (Bool-cases (text_eq namespace k)) [
        | inl same ↦
            let own : some pack ≡ some p = rw same at h in
            let equal : pack ≡ p = cc in rw (← equal) good
        | inr other ↦ v k p (rw other at h)
      ]

  cache_pack-IsInTable :
      (namespace : Text) (pack : QueryPack) (path : Text) (ps : List QueryPack) (l : PackLoader)
      → IsInTable namespace pack (cache_pack env namespace pack path ps l)
  unfolding cache_pack
  cache_pack-IsInTable namespace pack path ps l = rw (text_eq_refl namespace)

  -- The end of the loading, when the validation has reported these errors.
  checked-Returns :
      (namespace path : Text) (ps : List QueryPack) (l : PackLoader) (errors : List PackError)
      (pack : QueryPack)
      → AreValid l
      → (errors ≡ [] → IsChecked env.compiles pack)
      → Returns (IsInTable namespace) (elim errors [
        | [] ↦ return (ok pack (cache_pack env namespace pack path ps l))
        | e ∷ es ↦ return (failed (pack_invalid namespace) l)
      ])
  checked-Returns namespace path ps l [] pack v good = (
    ok pack (cache_pack env namespace pack path ps l),
    refl,
    (
      cache_pack-AreValid namespace pack path ps l v (good refl),
      cache_pack-IsInTable namespace pack path ps l,
    ),
  )
  checked-Returns namespace path ps l (e ∷ es) pack v good =
      (failed (pack_invalid namespace) l, refl, v)

  finish_pack-Returns :
      (namespace : Text) (m : PackManifest) (path : Text) (ps : List QueryPack) (l : PackLoader)
      → AreValid l
      → Returns (IsInTable namespace) (finish_pack env namespace m path ps l)
  unfolding finish_pack
  finish_pack-Returns namespace m path ps l v =
      after_result-Returns (IsInTable namespace) (manifest_to_pack env m path l) _ _
        (AreValid-kept l (state_of (manifest_to_pack env m path l))
          (manifest_to_pack-KeepsPacks env m path l) v)
        (λ e l' v'. (failed e l', refl, v'))
        (λ pack l' v'.
          checked-Returns namespace path ps l' _ _ v' (validate_pack-IsChecked env.compiles pack))

  reuse-IsInTable :
      (namespace : Text) (l : PackLoader) (p : QueryPack)
      → reuse env namespace l ≡ some p
      → IsInTable namespace p l
  unfolding reuse
  reuse-IsInTable namespace l p e = ground arith

  load_pack_internal-Returns :
      (fuel : ℕ) (namespace : Text) (loading load_path : List Text) (l : PackLoader)
      → length load_path ≤ pack_depth_max
      → pack_depth_max < fuel + length load_path
      → AreValid l
      → Returns (IsInTable namespace) (load_pack_internal env fuel namespace loading load_path l)
  unfolding load_pack_internal
  load_pack_internal-Returns zero namespace loading load_path l b f v = absurd (omega arith)
  load_pack_internal-Returns (suc fuel) namespace loading load_path l b f v =
      let within : ltb pack_depth_max (length load_path) ≡ false = ground arith in
      let inner = load_pack_internal env fuel in
      let longer = length-append load_path (namespace ∷ []) in
      elim (Bool-cases (contains namespace loading)) [
        | inl cycle ↦ rw (within, cycle, load_pack_internal) (failed _ l, refl, v)
        | inr fresh ↦ elim (Bool-cases (leb pack_depth_max (length load_path))) [
          | inl deep ↦ rw (within, fresh, deep, load_pack_internal) (failed _ l, refl, v)
          | inr room ↦
              let short : ltb pack_depth_max (length (load_path ++ namespace ∷ [])) ≡ false =
                ground (arith, longer) in
              elim (Option-cases (reuse env namespace l)) [
                | inr (pack, valid) ↦
                    rw (within, fresh, room, valid, load_pack_internal)
                      (ok pack l, refl, (v, reuse-IsInTable namespace l pack valid))
                | inl stale ↦
                    rw (within, fresh, room, stale, short, load_pack_internal)
                      (after_result-Returns (IsInTable namespace)
                        (find_pack_manifest env namespace l) _ _
                        (AreValid-kept l (state_of (find_pack_manifest env namespace l))
                          (find_pack_manifest-KeepsPacks env namespace l) v)
                        (λ e l' v'. (failed _ l', refl, v'))
                        (λ m l' v'.
                          after-Returns (λ ps l''. Unit {0}) (IsInTable namespace)
                            (load_dependencies env _ namespace m.0.depends_on [] l') _ _
                            (load_dependencies-Returns _ namespace m.0.depends_on [] l'
                              (λ n l'' v''.
                                load_pack_internal-Returns fuel n (namespace ∷ loading)
                                  (load_path ++ namespace ∷ []) l'' (ground (arith, longer))
                                  (omega (arith, longer)) v'')
                              v')
                            (λ e l'' v''. (failed e l'', refl, v''))
                            (λ ps l'' v'' u. finish_pack-Returns namespace m.0 m.1 ps l'' v'')))
              ]
        ]
      ]

  -- From a loader whose loaded packs are valid and have their patterns compiled, and whatever the
  -- files and manifests hold: LoadPack returns with no assertion failed, and never needs more fuel
  -- than one unit for each level of the depth bound and one more; the loaded packs are valid and
  -- have their patterns compiled afterwards; and a pack that it returns is the one in the table of
  -- loaded packs under the namespace.
  pub load_pack-Returns :
      (namespace : Text) (l : PackLoader)
      → AreValid l
      → Returns (IsInTable namespace) (load_pack env namespace l)
  unfolding load_pack
  load_pack-Returns namespace l v =
      load_pack_internal-Returns (suc pack_depth_max) namespace [] [] l (omega arith) (omega arith)
        v
