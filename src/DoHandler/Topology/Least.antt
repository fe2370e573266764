-- ===== src/DoHandler/Topology/Least.antt =====
-- Which topology is chosen.
use Prim.Native.String.{[], ◌∷◌}
use cloudshell_shell_automat.Base.{
  String, ◌≡◌, refl, sym, inl, inr, ◌==◌, eq_iff, Bool, Bool-cases, true, false, ◌||◌, Option-cases,
  some, List, elem, All, first, arith,
}
use cloudshell_shell_automat.Exec.{ok}
use cloudshell_shell_automat.Api.{Api, Call, Calls}
use cloudshell_shell_automat.CsHandler
use cloudshell_shell_automat.DoHandler.Topology.{
  text_leb, place, sorted, is_named, find_topology_name,
}

text_leb_total : (a b : String) → text_leb a b ≡ false → text_leb b a ≡ true
unfolding text_leb
text_leb_total [] b h = absurd (ground arith)
text_leb_total (c ∷ a) [] h = refl
text_leb_total (c ∷ a) (d ∷ b) h = ground (arith, text_leb_total a b)

text_leb_trans : (a b c : String) → text_leb a b ≡ true → text_leb b c ≡ true → text_leb a c ≡ true
unfolding text_leb
text_leb_trans [] b c h k = refl
text_leb_trans (x ∷ a) [] c h k = absurd (ground arith)
text_leb_trans (x ∷ a) (y ∷ b) [] h k = absurd (ground arith)
text_leb_trans (x ∷ a) (y ∷ b) (z ∷ c) h k = ground (arith, text_leb_trans a b c)

text_leb_refl : (a : String) → text_leb a a ≡ true
unfolding text_leb
text_leb_refl [] = refl
text_leb_refl (c ∷ a) = ground (arith, text_leb_refl a)

-- No member is less.
abbrev Below : String → List String → Type 0
Below x = All (λ y. text_leb x y ≡ true)

abbrev Ascending : List String → Type 0
Ascending List.[] = Unit
Ascending (List.◌∷◌ x xs) = Below x xs × Ascending xs

Below-trans : (x y : String) (ys : List String) → text_leb x y ≡ true → Below y ys → Below x ys
Below-trans x y List.[] h k = tt
Below-trans x y (List.◌∷◌ z zs) h k = (text_leb_trans x y z h k.0, Below-trans x y zs h k.1)

place-Below :
    (z x : String) (ys : List String) → text_leb z x ≡ true → Below z ys → Below z (place x ys)
unfolding place
place-Below z x List.[] h k = (h, tt)
place-Below z x (List.◌∷◌ y ys) h k = elim (Bool-cases (text_leb x y)) [
  | inl le ↦ rw le (h, k)
  | inr gt ↦ rw gt (k.0, place-Below z x ys h k.1)
]

place-Ascending : (x : String) (ys : List String) → Ascending ys → Ascending (place x ys)
unfolding place
place-Ascending x List.[] h = (tt, tt)
place-Ascending x (List.◌∷◌ y ys) h = elim (Bool-cases (text_leb x y)) [
  | inl le ↦ rw le ((le, Below-trans x y ys le h.0), h)
  | inr gt ↦ rw gt (place-Below y x ys (text_leb_total x y gt) h.0, place-Ascending x ys h.1)
]

sorted-Ascending : (xs : List String) → Ascending (sorted xs)
unfolding sorted
sorted-Ascending List.[] = tt
sorted-Ascending (List.◌∷◌ x xs) = place-Ascending x (sorted xs) (sorted-Ascending xs)

elem-place : (t x : String) (ys : List String) → elem t (place x ys) ≡ (t == x || elem t ys)
unfolding place
elem-place t x List.[] = refl
elem-place t x (List.◌∷◌ y ys) = ground (arith, elem-place t x ys)

elem-sorted : (t : String) (xs : List String) → elem t (sorted xs) ≡ elem t xs
unfolding sorted
elem-sorted t List.[] = refl
elem-sorted t (List.◌∷◌ x xs) = ground (arith, elem-place t x (sorted xs), elem-sorted t xs)

Below-elem : (x t : String) (ys : List String) → Below x ys → elem t ys ≡ true → text_leb x t ≡ true
Below-elem x t List.[] h there = absurd (ground arith)
Below-elem x t (List.◌∷◌ y ys) h there = ground (arith, eq_iff t y, Below-elem x t ys h.1)

-- The first fitting member of an ascending list is the least fitting one.
first_least :
    (p : String → Bool) (xs : List String) (x t : String)
    → Ascending xs
    → first p xs ≡ some x
    → (p x ≡ true) × (elem x xs ≡ true) × (p t ≡ true → elem t xs ≡ true → text_leb x t ≡ true)
first_least p List.[] x t h found = absurd (ground arith)
first_least p (List.◌∷◌ y ys) x t h found = elim (Bool-cases (p y)) [
  | inl fits ↦
      let same : y ≡ x = ground arith in
      (
        ground arith,
        ground (arith, eq_iff x y),
        λ pt there. ground (arith, eq_iff t y, text_leb_refl x, Below-elem y t ys h.0),
      )
  | inr other ↦
      let (px, there, least) = first_least p ys x t h.1 (ground arith) in
      (px, ground arith, λ pt inside. ground (arith, eq_iff t y, least pt))
]

-- If the server lists these names in the category and a topology is returned, then it is one of the
-- names, its part behind the first slash is the wanted name, and no other such one is less in the
-- order of texts.
pub find_topology_name_least :
    (api : Api) (category wanted message : String) (calls : Calls) (names : List String)
    (name other : String)
    → api.names calls (Call.get_topologies_by_category category) ≡ ok names
    → (find_topology_name api category wanted message calls).0 ≡ ok name
    → is_named wanted other ≡ true
    → elem other names ≡ true
    → (elem name names ≡ true) × (is_named wanted name ≡ true) × (text_leb name other ≡ true)
unfolding find_topology_name CsHandler.get_topologies_by_category
find_topology_name_least api category wanted message calls names name other listed h fits there =
    elim (Option-cases (first (is_named wanted) (sorted names))) [
      | inl gone ↦ absurd (ground arith)
      | inr (x, e) ↦
          let (px, inside, least) =
            first_least (is_named wanted) (sorted names) x other (sorted-Ascending names) e in
          let same : x ≡ name = ground arith in
          rw (sym same) (
            ground (arith, elem-sorted x names),
            px,
            least fits (ground (arith, elem-sorted other names)),
          )
    ]
