-- ===== src/CmdCtrl/Paths/Inside.antt =====
-- A relative path that PathPolicy (src/sdk_test_agent/cmd_ctrl/policies.py) accepts never leads above
-- the directory that it starts in.

use Prim.Native.String.append.{nil, cons}
use Prim.Native.String.compare.{cons-nil}
use sth_boring.Base.{
  ℕ, zero, suc, String, ◌<>◌, ◌==◌, eq_iff, Bool, true, false, not, List, [], ◌∷◌, all, length,
  if◌then◌else◌, is_nil, ok, ◌≡◌, refl, arith, Bool-cases, inl, inr,
}
use sth_boring.CmdCtrl.Paths.{
  split, is_up, is_here, add_component, normal_components, join_reversed, starts_with, leading,
  or_dot, clean_path, normpath, strip_slashes, validate_relative_path,
}

-- The components, read from a directory `depth` levels down, never lead above the top one.
unfoldable pub within : ℕ → List String → Bool
within depth [] = true
within zero (c ∷ cs) =
    let on = within zero cs in
    let down = within 1 cs in if is_here c then on else if is_up c then false else down
within (suc depth) (c ∷ cs) =
    let on = within (suc depth) cs in
    let up = within depth cs in
    let down = within (suc (suc depth)) cs in if is_here c then on else if is_up c then up else down

-- The first component, which is the last of the reversed list, is `..`.
ends_up : List String → Bool
ends_up [] = false
ends_up (x ∷ xs) = let rest = ends_up xs in if is_nil xs then is_up x else rest

all_down : List String → Bool
all_down xs = all (λ x. not (is_up x)) xs

add-ends_up :
    (kept : List String) (c : String)
    → ends_up kept ≡ true
    → ends_up (add_component false kept c) ≡ true
unfolding ends_up add_component
add-ends_up [] c h = absurd (ground arith)
add-ends_up (x ∷ []) c h = ground arith
add-ends_up (x ∷ y ∷ xs) c h = ground arith

stays-ends_up :
    (cs kept : List String) → ends_up kept ≡ true → ends_up (normal_components false kept cs) ≡ true
unfolding normal_components
stays-ends_up [] kept h = h
stays-ends_up (c ∷ cs) kept h = stays-ends_up cs (add_component false kept c) (add-ends_up kept c h)

here-add : (kept : List String) (c : String) → is_here c ≡ true → add_component false kept c ≡ kept
unfolding add_component
here-add kept c h = ground arith

down-add :
    (kept : List String) (c : String)
    → is_here c ≡ false
    → is_up c ≡ false
    → add_component false kept c ≡ c ∷ kept
unfolding add_component
down-add kept c h u = ground arith

up-add :
    (x : String) (kept : List String) (c : String)
    → is_here c ≡ false
    → is_up c ≡ true
    → is_up x ≡ false
    → add_component false (x ∷ kept) c ≡ kept
unfolding add_component
up-add x kept c h u clean = ground arith

top-add : (c : String) → is_here c ≡ false → add_component false [] c ≡ c ∷ []
unfolding add_component
top-add c h = ground arith

-- Components that lead above the start leave a `..` in the first place.
outside-ends_up :
    (cs kept : List String)
    → all_down kept ≡ true
    → within (length kept) cs ≡ false
    → ends_up (normal_components false kept cs) ≡ true
unfolding within normal_components all_down all ends_up
outside-ends_up [] kept clean h = absurd (ground arith)
outside-ends_up (c ∷ cs) [] clean h = elim (Bool-cases (is_here c)) [
  | inl here ↦ rw (here-add [] c here) (outside-ends_up cs [] refl (ground arith))
  | inr not_here ↦ elim (Bool-cases (is_up c)) [
    | inl up ↦ rw (top-add c not_here) (stays-ends_up cs (c ∷ []) up)
    | inr down ↦ rw (top-add c not_here) (outside-ends_up cs (c ∷ []) (ground arith) (ground arith))
  ]
]
outside-ends_up (c ∷ cs) (x ∷ xs) clean h = elim (Bool-cases (is_here c)) [
  | inl here ↦ rw (here-add (x ∷ xs) c here) (outside-ends_up cs (x ∷ xs) clean (ground arith))
  | inr not_here ↦ elim (Bool-cases (is_up c)) [
    | inl up ↦
        rw (up-add x xs c not_here up (ground arith))
          (outside-ends_up cs xs (ground arith) (ground arith))
    | inr down ↦
        rw (down-add (x ∷ xs) c not_here down)
          (outside-ends_up cs (c ∷ x ∷ xs) (ground arith) (ground arith))
  ]
]

starts-append : (p t : String) → starts_with p (p <> t) ≡ true
unfolding starts_with
starts-append String.[] t = refl
starts-append (String.◌∷◌ c p) t = rw (cons c p t) (ground (arith, starts-append p t))

up-starts_with : (b : Bool) (t : String) → starts_with ".." (if b then ".." else ".." <> t) ≡ true
unfolding starts_with
up-starts_with true t = refl
up-starts_with false t = starts-append ".." t

join-starts_up :
    (end : String) (kept : List String)
    → ends_up kept ≡ true
    → starts_with ".." (join_reversed end kept) ≡ true
unfolding ends_up join_reversed
join-starts_up end [] h = absurd (ground arith)
join-starts_up end (x ∷ []) h = rw ((eq_iff x "..").0 h) (up-starts_with (end == "") ("/" <> end))
join-starts_up end (x ∷ y ∷ xs) h =
    join-starts_up (if end == "" then x else x <> "/" <> end) (y ∷ xs) (ground arith)

strip-up : (s : String) → starts_with ".." s ≡ true → strip_slashes s ≡ s
unfolding starts_with strip_slashes
strip-up String.[] h = refl
strip-up (String.◌∷◌ c s) h = ground arith

up-not_empty : (s : String) → starts_with ".." s ≡ true → (s == "") ≡ false
unfolding starts_with
up-not_empty String.[] h = absurd (ground arith)
up-not_empty (String.◌∷◌ c s) h = rw (cons-nil c s) refl

clean_path-relative :
    (path clean : String)
    → starts_with ".." clean ≡ true
    → join_reversed "" (normal_components false [] (split path)) ≡ clean
    → clean_path "" path ≡ clean
unfolding clean_path or_dot
clean_path-relative path clean up e =
    let not_empty = up-not_empty clean up in
    rw (nil (join_reversed "" (normal_components false [] (split path))), e, not_empty) refl

leading-relative : (path : String) → starts_with "/" path ≡ false → leading path ≡ ""
unfolding leading
leading-relative path h = ground arith

-- An accepted path that does not begin with a slash never leads above the directory that it starts in.
pub validate_relative_path-within :
    (path : String)
    → starts_with "/" path ≡ false
    → validate_relative_path path ≡ ok tt
    → within 0 (split path) ≡ true
unfolding validate_relative_path normpath all_down all
validate_relative_path-within path relative h = elim (Bool-cases (within 0 (split path))) [
  | inl inside ↦ inside
  | inr outside ↦
      let clean = join_reversed "" (normal_components false [] (split path)) in
      let up =
        join-starts_up "" (normal_components false [] (split path))
          (outside-ends_up (split path) [] refl outside) in
      let same = strip-up clean up in
      let normal = clean_path-relative path clean up refl in
      let lead = leading-relative path relative in absurd (ground (arith, same, normal, lead))
]
