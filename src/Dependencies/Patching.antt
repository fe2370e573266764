-- ===== src/Dependencies/Patching.antt =====
-- The packages of a patched archive: `patch_dependencies` beside a walk over the packages.
use mathlib.Core.Path.{subst}
use cloudshell_shell_automat.Base.{
  String, ◌==◌, eq_iff, eq_refl, ◌≡◌, ◌∙◌, refl, sym, ap, false, Option, none, some, List, [], ◌∷◌,
  All, map, arith, if◌then◌else◌, Bool-cases, inl, inr,
}
use cloudshell_shell_automat.Base.Dict.{Dict, lookup, insert, lookup-insert, HasUniqueKeys}
use cloudshell_shell_automat.Exec.{Result, Result-cases, ok, err}
use cloudshell_shell_automat.Dependencies.{
  Archive, ZipFormat, zipped, is_logging, new_logging, gather, write_back, new_dependencies,
  patch_dependencies,
}
use cloudshell_shell_automat.Dependencies.Replacing.{
  rewritten, AreReadable, HasUniqueKeys-AreReadable, gen_new_zip_with_replacement-rewritten,
}

abbrev in_front : String → Result String → Result Archive → Result Archive
in_front name (ok bytes) (ok entries) = ok ((name, bytes) ∷ entries)
in_front name (ok bytes) (err e) = err e
in_front name (err e) rest = err e

-- The bytes of a package, which are new for a logging package.
unfoldable pub patched_bytes : ZipFormat → String → String → Result String
patched_bytes format name bytes =
    if is_logging name then new_logging format name (ok bytes) else ok bytes

-- Each package with its bytes, or the first error.
unfoldable pub patched : ZipFormat → Archive → Result Archive
unfolding patched_bytes
patched format [] = ok []
patched format ((name, bytes) ∷ entries) =
    in_front name (patched_bytes format name bytes) (patched format entries)

-- What the loop gathers for these entries says of them what the walk does, and nothing new of others.
abbrev Gathered :
    Archive → Dict (Option String) → Result Archive → Result (Dict (Option String)) → Type 0
Gathered entries old (ok es) (ok r) =
    (rewritten r entries ≡ es)
    × ((k : String) → lookup k entries ≡ none → lookup k r ≡ lookup k old)
Gathered entries old (err e) (err f) = e ≡ f
Gathered entries old (ok es) (err f) = ⊥
Gathered entries old (err e) (ok r) = ⊥

AreNew : Dict (Option String) → Archive → Type 0
AreNew old = All (λ (name, bytes). lookup name old ≡ none)

AreNew-insert :
    (name bytes : String) (old : Dict (Option String)) (entries : Archive)
    → lookup name entries ≡ none
    → AreNew old entries
    → AreNew (insert name (some bytes) old) entries
unfolding AreNew lookup
AreNew-insert name bytes old [] new a = tt
AreNew-insert name bytes old ((n, b) ∷ entries) new (here, rest) = (
  ground (arith, lookup-insert name n (some bytes) old, eq_iff n name, eq_iff name n),
  AreNew-insert name bytes old entries (ground (arith, eq_iff n name)) rest,
)

module _ (format : ZipFormat) (dep_zip : Archive) where
  -- An entry that is no logging package.
  pass_over :
      (name bytes : String) (entries : Archive) (old : Dict (Option String)) (es : Result Archive)
      (r : Result (Dict (Option String)))
      → lookup name entries ≡ none
      → lookup name old ≡ none
      → Gathered entries old es r
      → Gathered ((name, bytes) ∷ entries) old (in_front name (ok bytes) es) r
  unfolding rewritten lookup
  pass_over name bytes entries old (ok es) (ok r) new free (same, keeps) =
      (rw (keeps name new, free, same) refl, λ k h. ground (arith, keeps k))
  pass_over name bytes entries old (err e) (err f) new free g = g
  pass_over name bytes entries old (ok es) (err f) new free g = absurd g
  pass_over name bytes entries old (err e) (ok r) new free g = absurd g

  insert_here :
      (name more : String) (old : Dict (Option String))
      → lookup name (insert name (some more) old) ≡ some (some more)
  insert_here name more old = ground (arith, lookup-insert name name (some more) old, eq_refl name)

  take_up :
      (name bytes more : String) (entries : Archive) (old : Dict (Option String))
      (es : Result Archive) (r : Result (Dict (Option String)))
      → lookup name entries ≡ none
      → Gathered entries (insert name (some more) old) es r
      → Gathered ((name, bytes) ∷ entries) old (in_front name (ok more) es) r
  unfolding rewritten lookup
  take_up name bytes more entries old (ok es) (ok r) new (same, keeps) =
      let at_name : lookup name r ≡ some (some more) = keeps name new ∙ insert_here name more old in
      (
        rw (at_name, same) refl,
        λ k h. ground (arith, keeps k, lookup-insert name k (some more) old),
      )
  take_up name bytes more entries old (err e) (err f) new g = g
  take_up name bytes more entries old (ok es) (err f) new g = absurd g
  take_up name bytes more entries old (err e) (ok r) new g = absurd g

  gather-Gathered :
      (entries : Archive) (old : Dict (Option String))
      → AreReadable dep_zip entries
      → HasUniqueKeys entries
      → AreNew old entries
      → Gathered entries old (patched format entries) (gather format dep_zip entries old)
  unfolding gather patched rewritten lookup AreNew
  gather-Gathered [] old readable u a = (refl, λ k h. refl)
  gather-Gathered ((name, bytes) ∷ entries) old (here, readable) (new, u) (free, a) =
      elim (Bool-cases (is_logging name)) [
        | inr other ↦ rw other (
            pass_over name bytes entries old (patched format entries)
              (gather format dep_zip entries old) new free
              (gather-Gathered entries old readable u a))
        | inl logging ↦ elim (Result-cases (new_logging format name (ok bytes))) [
          | inl (more, made) ↦
              let next = insert name (some more) old in
              rw (logging, here, made)
                (take_up name bytes more entries old (patched format entries)
                  (gather format dep_zip entries next) new
                  (gather-Gathered entries next readable u
                    (AreNew-insert name more old entries new a)))
          | inr (e, failed) ↦ rw (logging, here, failed) refl
        ]
      ]

AreNew-empty : (entries : Archive) → AreNew [] entries
unfolding AreNew lookup
AreNew-empty [] = tt
AreNew-empty ((name, bytes) ∷ entries) = (refl, AreNew-empty entries)

finish_patch :
    (format : ZipFormat) (zip_file : Archive) (es : Result Archive)
    (r : Result (Dict (Option String)))
    → HasUniqueKeys zip_file
    → Gathered zip_file [] es r
    → new_dependencies format zip_file r ≡ zipped format es
finish_patch format zip_file (ok es) (ok r) u (same, keeps) =
    rw (gen_new_zip_with_replacement-rewritten format zip_file r u, same) refl
finish_patch format zip_file (err e) (err f) u g = ap err (sym g)
finish_patch format zip_file (ok es) (err f) u g = absurd g
finish_patch format zip_file (err e) (ok r) u g = absurd g

-- If the file is a zip file in which no name stands twice, then `patch_dependencies` writes back the
-- archive in which each logging package has its new bytes and the rest is as it was; if a logging
-- package cannot be patched, it raises the error of the first such one and leaves the file alone.
pub patch_dependencies-patched :
    (format : ZipFormat) (file : String) (zip_file : Archive)
    → format.unzip file ≡ some zip_file
    → HasUniqueKeys zip_file
    → patch_dependencies format file ≡ write_back (zipped format (patched format zip_file)) file
unfolding patch_dependencies
patch_dependencies-patched format file zip_file h u =
    rw
      (
        h,
        finish_patch format zip_file (patched format zip_file) (gather format zip_file zip_file [])
            u
            (gather-Gathered format zip_file zip_file [] (HasUniqueKeys-AreReadable zip_file u) u
              (AreNew-empty zip_file)),
      )
      refl

abbrev pub names : Archive → List String
names = map (λ e. e.0)

-- What becomes of the entries.
Follows : Archive → Result Archive → Type 0
Follows old (ok new) =
    (names new ≡ names old) × ((k : String) → is_logging k ≡ false → lookup k new ≡ lookup k old)
Follows old (err e) = Unit

payload : String → Result String → String
payload old (ok bytes) = bytes
payload old (err e) = old

follow :
    (name bytes : String) (old : Archive) (b : Result String) (new : Result Archive)
    → (is_logging name ≡ false → b ≡ ok bytes)
    → Follows old new
    → Follows ((name, bytes) ∷ old) (in_front name b new)
unfolding Follows lookup payload
follow name bytes old (ok b) (ok new) h (same, keeps) = (
  ap (λ ns. name ∷ ns) same,
  λ k other. elim (Bool-cases (name == k)) [
    | inl at_name ↦
        let own = h (subst (λ n. is_logging n ≡ false) (sym ((eq_iff name k).0 at_name)) other) in
        rw at_name (ap some (ap (payload bytes) own))
    | inr elsewhere ↦ rw elsewhere (keeps k other)
  ],
)
follow name bytes old (ok b) (err e) h f = tt
follow name bytes old (err e) new h f = tt

patched-Follows :
    (format : ZipFormat) (zip_file : Archive) → Follows zip_file (patched format zip_file)
unfolding Follows patched patched_bytes
patched-Follows format [] = (refl, λ k other. refl)
patched-Follows format ((name, bytes) ∷ entries) =
    follow name bytes entries (patched_bytes format name bytes) (patched format entries)
      (λ other. rw other refl) (patched-Follows format entries)

-- If reading a zip file gives back what was written, the file is a zip file in which no name stands
-- twice, and each logging package can be patched, then `patch_dependencies` returns; reading the
-- file again gives the patched archive, which has the same names in the same order, and for a
-- name k that is no logging package's the same bytes.
pub patch_dependencies_reads_back :
    (format : ZipFormat) (file : String) (zip_file new : Archive) (k : String)
    → ((entries : Archive) → format.unzip (format.zip entries) ≡ some entries)
    → format.unzip file ≡ some zip_file
    → HasUniqueKeys zip_file
    → patched format zip_file ≡ ok new
    → is_logging k ≡ false
    → ((patch_dependencies format file).0 ≡ ok tt)
      × (format.unzip (patch_dependencies format file).1 ≡ some new)
      × (names new ≡ names zip_file)
      × (lookup k new ≡ lookup k zip_file)
unfolding Follows
patch_dependencies_reads_back format file zip_file new k law h u made other =
    let done : patch_dependencies format file ≡ (ok tt, format.zip new) =
      patch_dependencies-patched format file zip_file h u ∙ rw made refl in
    let (same, keeps) = rw made at (patched-Follows format zip_file) in
    rw done (refl, law new, same, keeps k other)
