-- ===== src/CmdCtrl/Paths.antt =====
-- `posixpath.normpath`, as PathPolicy of src/sdk_test_agent/cmd_ctrl/policies.py uses it. A path is
-- its number of leading slashes that count and its components.
pub mod Inside
use Prim.Native.Char.{Char, code}
use Prim.Native.String
use sth_boring.Base.{
  ℕ, String, ◌<>◌, ◌==◌, Bool, true, false, not, ◌&&◌, ◌||◌, List, [], ◌∷◌, if◌then◌else◌, nat_eq,
  is_nil, Result, ok, raise,
}
use sth_boring.CmdCtrl.Errors.{policy_violation}

abbrev is_slash : Char → Bool
is_slash c = nat_eq (code c) b'/'

push : Char → List String → List String
push c [] = String.◌∷◌ c "" ∷ []
push c (x ∷ xs) = String.◌∷◌ c x ∷ xs

-- `path.split("/")`
unfoldable pub split : String → List String
unfolding push
split String.[] = "" ∷ []
split (String.◌∷◌ c s) = let rest = split s in if is_slash c then "" ∷ rest else push c rest

abbrev pub is_up : String → Bool
is_up component = component == ".."

abbrev pub is_here : String → Bool
is_here component = component == "" || component == "."

abbrev on_top : List String → Bool
on_top [] = true
on_top (x ∷ xs) = is_up x

abbrev rest_of : List String → List String
rest_of [] = []
rest_of (x ∷ xs) = xs

-- One component, on the components before it from the last to the first.
unfoldable pub add_component : Bool → List String → String → List String
add_component absolute kept c =
    if is_here c
    then kept
    else if not (is_up c) || (not absolute && is_nil kept) || (not (is_nil kept) && on_top kept)
    then c ∷ kept
    else rest_of kept

unfoldable pub normal_components : Bool → List String → List String → List String
normal_components absolute kept [] = kept
normal_components absolute kept (c ∷ cs) =
    normal_components absolute (add_component absolute kept c) cs

unfoldable pub join_reversed : String → List String → String
join_reversed end [] = end
join_reversed end (c ∷ cs) = join_reversed (if end == "" then c else c <> "/" <> end) cs

unfoldable pub starts_with : String → String → Bool
starts_with String.[] s = true
starts_with (String.◌∷◌ c p) String.[] = false
starts_with (String.◌∷◌ c p) (String.◌∷◌ d s) = nat_eq (code c) (code d) && starts_with p s

-- One leading slash counts, two do, and three or more count as one.
unfoldable pub leading : String → String
leading path =
    if not (starts_with "/" path)
    then ""
    else if starts_with "//" path && not (starts_with "///" path)
    then "//"
    else "/"

unfoldable pub or_dot : String → String
or_dot clean = if clean == "" then "." else clean

unfoldable pub clean_path : String → String → String
clean_path slashes path =
    or_dot (slashes <> join_reversed "" (normal_components (not (slashes == "")) [] (split path)))

unfoldable pub normpath : String → String
normpath path = clean_path (leading path) path

-- `path.lstrip("/")`
unfoldable pub strip_slashes : String → String
strip_slashes String.[] = String.[]
strip_slashes (String.◌∷◌ c s) =
    let rest = strip_slashes s in if is_slash c then rest else String.◌∷◌ c s

-- PathPolicy.validate_relative_path
unfoldable pub validate_relative_path : String → Result (Unit {0})
validate_relative_path path =
    if starts_with ".." (strip_slashes (normpath path))
    then raise (policy_violation "path escapes workdir")
    else ok tt
