-- ===== src/Base/Dict.antt =====
-- A Python dict with text keys, in insertion order.
use Prim.Native.String.{String}
use mathlib.Core.Path.{◌≡◌, refl, ◌∙◌}
use mathlib.Core.List.{List, [], ◌∷◌}
use mathlib.Core.Option.{Option, none, some}
use native.Mathlib.Omega.{arith}
use text.Mathlib.Text.{◌==◌}
use text.Mathlib.TextEquality.{eq_iff}
use cloudshell_shell_automat.Base.Logic.{if◌then◌else◌, or_else}

abbrev pub Dict {ℓ} : Type ℓ → Type ℓ
Dict V = List (String × V)

module _ {ℓ} {V : Type ℓ} where
  -- `d.get(k)`
  unfoldable pub lookup : String → Dict V → Option V
  lookup k [] = none
  lookup k ((j, v) ∷ d) = if j == k then some v else lookup k d

  -- `d[k] = v`
  unfoldable pub insert : String → V → Dict V → Dict V
  insert k v [] = (k, v) ∷ []
  insert k v ((j, w) ∷ d) = if j == k then (j, v) ∷ d else (j, w) ∷ insert k v d

  -- `d.update(e)`, also `{**d, **e}`
  unfoldable pub update : Dict V → Dict V → Dict V
  update d [] = d
  update d ((k, v) ∷ e) = update (insert k v d) e

  pub lookup-insert :
      (k j : String) (v : V) (d : Dict V)
      → lookup j (insert k v d) ≡ (if k == j then some v else lookup j d)
  unfolding lookup insert
  lookup-insert k j v [] = refl
  lookup-insert k j v ((i, w) ∷ d) =
      ground (arith, eq_iff k j, eq_iff i k, eq_iff i j, lookup-insert k j v d)

  -- The value that a dict has last for a key: what an update by its items leaves there.
  unfoldable pub lookup_last : String → Dict V → Option V → Option V
  lookup_last k [] old = old
  lookup_last k ((j, v) ∷ e) old = lookup_last k e (if j == k then some v else old)

  pub lookup-update :
      (k : String) (d e : Dict V) → lookup k (update d e) ≡ lookup_last k e (lookup k d)
  unfolding update lookup_last
  lookup-update k d [] = refl
  lookup-update k d ((j, v) ∷ e) =
      ground (arith, lookup-update k (insert j v d) e, lookup-insert j k v d)

  -- A key is there once, as in a real dict.
  abbrev pub HasUniqueKeys : Dict V → Type ℓ
  HasUniqueKeys [] = Unit
  HasUniqueKeys ((k, v) ∷ d) = (lookup k d ≡ none) × HasUniqueKeys d

  pub lookup_last_unique :
      (k : String) (e : Dict V) (old : Option V)
      → HasUniqueKeys e
      → lookup_last k e old ≡ or_else (lookup k e) old
  unfolding lookup_last lookup
  lookup_last_unique k [] old h = refl
  lookup_last_unique k ((j, v) ∷ e) old h =
      ground (arith, eq_iff j k, lookup_last_unique k e (if j == k then some v else old) h.1)

  pub lookup-update_unique :
      (k : String) (d e : Dict V)
      → HasUniqueKeys e
      → lookup k (update d e) ≡ or_else (lookup k e) (lookup k d)
  lookup-update_unique k d e h = lookup-update k d e ∙ lookup_last_unique k e (lookup k d) h
