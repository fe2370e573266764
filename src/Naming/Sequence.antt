-- ===== src/Naming/Sequence.antt =====
-- The names that `generate_new_resource_name` gives one after another.
use Prim.Native.String.{[], ◌∷◌}
use text.Mathlib.TextLemmas.{nil-append, cons-append}
use cloudshell_shell_automat.Base.{
  String, ℕ, zero, suc, ◌+◌, ◌≡◌, ◌≢◌, refl, ap, true, false, none, some, ◌<>◌, is_blank,
  all_digits, break_last, decimal, arith,
}
use cloudshell_shell_automat.Naming.{match_version, generate_new_resource_name}
use cloudshell_shell_automat.Base.Decimal.{
  digits_value-decimal, all_digits-decimal, is_blank-decimal,
}

-- A text of digits has no dash.
break_last-digits : (v : String) → all_digits v ≡ true → break_last b'-' v ≡ none
unfolding break_last all_digits
break_last-digits [] h = refl
break_last-digits (c ∷ v) h = ground (arith, break_last-digits v)

-- So the last dash of `base-v` is the one in front of the digits.
break_last-version :
    (base v : String) → all_digits v ≡ true → break_last b'-' (base <> ("-" <> v)) ≡ some (base, v)
unfolding break_last
break_last-version [] v h = rw (nil-append, cons-append, nil-append) (rw (break_last-digits v h))
break_last-version (c ∷ base) v h = rw cons-append (rw (break_last-version base v h))

-- The version that a generated name carries is read back.
pub match_version-versioned :
    (base : String) (n : ℕ)
    → is_blank base ≡ false
    → match_version (base <> ("-" <> decimal n)) ≡ (base, n)
unfolding match_version
match_version-versioned base n h =
    rw (break_last-version base (decimal n) (all_digits-decimal n))
      (rw (h, is_blank-decimal n, all_digits-decimal n, digits_value-decimal n))

-- A name with a character keeps one in front of its version.
match_version-is_blank :
    (name : String) → is_blank name ≡ false → is_blank (match_version name).0 ≡ false
unfolding match_version
match_version-is_blank name h = ground arith

-- The k-th name that is tried after `name`.
unfoldable pub renamed : ℕ → String → String
renamed zero name = name
renamed (suc k) name = renamed k (generate_new_resource_name name)

is_blank-dash : (s t : String) → is_blank (s <> ("-" <> t)) ≡ false
is_blank-dash [] t = rw (nil-append, cons-append)
is_blank-dash (c ∷ s) t = rw cons-append

pub generate-is_blank : (name : String) → is_blank (generate_new_resource_name name) ≡ false
unfolding generate_new_resource_name
generate-is_blank name = is_blank-dash (match_version name).0 (decimal ((match_version name).1 + 1))

match_version-generate :
    (name : String)
    → is_blank name ≡ false
    → match_version (generate_new_resource_name name)
      ≡ ((match_version name).0, (match_version name).1 + 1)
unfolding generate_new_resource_name
match_version-generate name h =
    match_version-versioned (match_version name).0 ((match_version name).1 + 1)
      (match_version-is_blank name h)

-- For a name that is not empty, the base of the name stays, and its version grows by one with each
-- new name.
pub match_version-renamed :
    (k : ℕ) (name : String)
    → is_blank name ≡ false
    → match_version (renamed k name) ≡ ((match_version name).0, (match_version name).1 + k)
unfolding renamed
match_version-renamed zero name h = ground arith
match_version-renamed (suc k) name h = ground (
  arith,
  match_version-generate name h,
  generate-is_blank name,
  match_version-renamed k (generate_new_resource_name name),
)

pub renamed_inj :
    (i j : ℕ) (name : String) → is_blank name ≡ false → renamed i name ≡ renamed j name → i ≡ j
renamed_inj i j name h e =
    ground
      (arith, match_version-renamed i name h, match_version-renamed j name h, ap match_version e)

-- No name is tried twice: after different numbers of steps from a name that is not empty, the names
-- differ.
pub renamed_ne :
    (i j : ℕ) (name : String) → is_blank name ≡ false → i ≢ j → renamed i name ≢ renamed j name
renamed_ne i j name h ne e = ne (renamed_inj i j name h e)
