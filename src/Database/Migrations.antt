-- ===== src/Database/Migrations.antt =====
-- Migrate of internal/database/database.go: the files of the migrations, one after the other.
use taskflow_api.Base.{
  String, ◌≡◌, refl, sym, ap, ◌∙◌, ◌↔◌, inl, inr, Option, none, some, Option-cases, List, [], ◌∷◌,
}
use mathlib.Core.List.{Perm}
use taskflow_api.Domain.Errors.{Error, wrapf, Result, ok, err}
use taskflow_api.Text.Sorting.{sort_strings, IsSorted, sort_strings-IsSorted, Perm-sort_strings}
use Prim.Native.String.{◌++◌ as str_append}

-- `migrationFiles`, the embedded directory.
pub record Files : Type 0 where
  pub read_dir : Result (List String)
  pub read_file : String → Result String

-- A database in a state `S`: what `db.ExecContext` of a text says, and the state after it.
module _ {S : Type 0} (exec : String → S → Option Error × S) (files : Files) where
  abbrev applied : String → Option Error × S → (S → Option Error × S) → Option Error × S
  applied name (some e, s) rest =
      (some (wrapf (str_append "apply migration " (str_append name ": ")) e ""), s)
  applied name (none, s) rest = rest s

  abbrev loaded : String → Result String → S → (S → Option Error × S) → Option Error × S
  loaded name (err e) s rest =
      (some (wrapf (str_append "read migration " (str_append name ": ")) e ""), s)
  loaded name (ok contents) s rest = applied name (exec contents s) rest

  -- The loop over the names.
  unfoldable pub apply_all : List String → S → Option Error × S
  apply_all [] s = (none, s)
  apply_all (name ∷ names) s = loaded name (files.read_file name) s (apply_all names)

  abbrev listed : Result (List String) → S → Option Error × S
  listed (err e) s = (some (wrapf "read migrations dir: " e ""), s)
  listed (ok names) s = apply_all (sort_strings names) s

  -- `Migrate`
  unfoldable pub migrate : S → Option Error × S
  migrate s = listed files.read_dir s

  -- The files were read and applied, one after the other, from the state before to that after.
  pub data Applied : List String → S → S → Type 0 where
    done : {s : S} → Applied [] s s
    next :
        {name : String} {names : List String} {s t u : S} (contents : String)
        → files.read_file name ≡ ok contents
        → exec contents s ≡ (none, t)
        → Applied names t u
        → Applied (name ∷ names) s u

  -- One file of a run that succeeds.
  loaded-Applied :
      (name : String) (names : List String) (s u : S) (r : Result String)
      → files.read_file name ≡ r
      → loaded name r s (apply_all names) ≡ (none, u)
      → (contents : String) × (r ≡ ok contents)
        × (exec contents s ≡ (none, (exec contents s).1))
        × (apply_all names (exec contents s).1 ≡ (none, u))
  loaded-Applied name names s u (err e) read h = cc h
  loaded-Applied name names s u (ok contents) read h = elim (Option-cases (exec contents s).0) [
    | inl ran ↦ (contents, refl, ap (λ o. (o, (exec contents s).1)) ran, rw ran at h)
    | inr (e, failed) ↦ cc (rw failed at h)
  ]

  apply_all-Applied :
      (names : List String) (s u : S) → apply_all names s ≡ (none, u) → Applied names s u
  unfolding apply_all
  apply_all-Applied [] s u h = rw (ap (λ p. p.1) h) done
  apply_all-Applied (name ∷ names) s u h =
      let (contents, read, ran, rest) =
        loaded-Applied name names s u (files.read_file name) refl h in
      next contents read ran (apply_all-Applied names (exec contents s).1 u rest)

  Applied-apply_all :
      (names : List String) (s u : S) → Applied names s u → apply_all names s ≡ (none, u)
  unfolding apply_all
  Applied-apply_all _ s u done = refl
  Applied-apply_all _ s u (next contents read ran rest) =
      rw (read, ran) (Applied-apply_all _ _ u rest)

  listed_lem :
      (names : List String) (s : S) (r : Result (List String))
      → r ≡ ok names
      → listed r s ≡ apply_all (sort_strings names) s
  listed_lem names s r e = rw e refl

  -- Migrate applies every file, in the order of the names. If the directory can be read, Migrate
  -- succeeds exactly when each file is read and applied in turn, in an order that holds the names of
  -- the directory, each as often, and that is sorted; the state is that after the last file.
  pub migrate_iff :
      (names : List String) (s u : S)
      → files.read_dir ≡ ok names
      → (order : List String) × Perm order names
        × IsSorted order
        × ((migrate s ≡ (none, u)) ↔ Applied order s u)
  unfolding migrate
  migrate_iff names s u listing = (
    sort_strings names,
    Perm-sort_strings names,
    sort_strings-IsSorted names,
    (
      λ h. apply_all-Applied (sort_strings names) s u (sym (listed_lem names s _ listing) ∙ h),
      λ a. listed_lem names s _ listing ∙ Applied-apply_all (sort_strings names) s u a,
    ),
  )
