-- ===== src/CmdCtrl/Policies.antt =====
-- ActionPolicy, InspectPolicy and the guards of src/sdk_test_agent/cmd_ctrl/policies.py. A policy
-- returns or raises PolicyViolationError.
pub mod Inspection
use Prim.Native.String
use sth_boring.Base.{
  ℕ, String, ◌<>◌, ◌==◌, Bool, true, false, not, ◌&&◌, ◌||◌, Option, none, some, List, [], ◌∷◌,
  if◌then◌else◌, any, contains, length, nat_eq, is_nil, same_texts, Result, ok, raise,
}
use sth_boring.CmdCtrl.Errors.{policy_violation}
use sth_boring.CmdCtrl.Paths.{starts_with}

-- ActionPolicy.validate_action, of the set of allowed actions
unfoldable pub validate_action : List String → String → Result (Unit {0})
validate_action allowed action =
    if not (contains action allowed)
    then raise (policy_violation ("action not allowed: " <> action))
    else ok tt

-- The binaries that InspectPolicy allows by default.
abbrev pub default_binaries : List String
default_binaries =
    "pwd" ∷ "ls" ∷ "find" ∷ "cat" ∷ "tail" ∷ "head" ∷ "grep" ∷ "env" ∷ "python" ∷ "pip" ∷ "which"
    ∷ "java" ∷ "mvn" ∷ "gradle" ∷ []

abbrev pub interactive : List String
interactive = "vi" ∷ "vim" ∷ "nano" ∷ "top" ∷ "less" ∷ "more" ∷ "bash" ∷ "sh" ∷ []

abbrev pub deny_tokens : List String
deny_tokens = "rm" ∷ "mv" ∷ "chmod" ∷ "chown" ∷ "-i" ∷ "--in-place" ∷ []

-- `p in s`, on texts
unfoldable pub is_infix : String → String → Bool
is_infix p String.[] = starts_with p String.[]
is_infix p (String.◌∷◌ c s) = starts_with p (String.◌∷◌ c s) || is_infix p s

-- `sep.join(parts)`
unfoldable pub join : String → List String → String
join sep [] = ""
join sep (x ∷ xs) = let rest = join sep xs in if is_nil xs then x else x <> (sep <> rest)

abbrev pub one_of : List String → List (List String) → Bool
one_of argv forms = any (λ form. same_texts argv form) forms

-- The forms of a command that are let through, for the binaries that have a list of them.
abbrev pub forms_of : String → Option (List (List String))
forms_of bin =
    if bin == "python"
    then some (
        ("python" ∷ "-V" ∷ [])
        ∷ ("python" ∷ "--version" ∷ [])
        ∷ ("python" ∷ "-m" ∷ "pip" ∷ "list" ∷ [])
        ∷ [])
    else if bin == "pip"
    then some (("pip" ∷ "list" ∷ []) ∷ ("pip" ∷ "-V" ∷ []) ∷ ("pip" ∷ "--version" ∷ []) ∷ [])
    else if bin == "java"
    then some (("java" ∷ "-version" ∷ []) ∷ [])
    else if bin == "mvn"
    then some (("mvn" ∷ "-v" ∷ []) ∷ [])
    else if bin == "gradle"
    then some (("gradle" ∷ "-v" ∷ []) ∷ [])
    else none

abbrev form_message : String → String
form_message bin =
    if bin == "python"
    then "python inspect only allows version and pip list checks"
    else if bin == "pip"
    then "pip inspect only allows `pip list` or `pip -V`"
    else bin <> " inspect only allows " <> (if bin == "java" then "java -version" else bin <> " -v")

-- The end of `validate_argv`: the forms of python, pip, java, mvn and gradle, and that of which.
unfoldable pub validate_form : String → List String → Result (Unit {0})
validate_form bin argv = elim (forms_of bin) [
  | some forms ↦ if one_of argv forms then ok tt else raise (policy_violation (form_message bin))
  | none ↦
      if bin == "which" && not (nat_eq (length argv) 2)
      then raise (policy_violation "which inspect expects one target")
      else ok tt
]

-- InspectPolicy.validate_argv, of the set of allowed binaries
unfoldable pub validate_argv : List String → List String → Result (Unit {0})
validate_argv allowed [] = raise (policy_violation "inspect argv cannot be empty")
validate_argv allowed (bin ∷ args) =
    let argv = bin ∷ args in
    if contains bin interactive
    then raise (policy_violation ("interactive binary not allowed: " <> bin))
    else if not (contains bin allowed)
    then raise (policy_violation ("binary not allowed for inspect: " <> bin))
    else if any (λ token. contains token argv) deny_tokens
    then raise (policy_violation "mutating or risky token not allowed in inspect command")
    else if is_infix " rm " (" " <> (join " " argv <> " "))
    then raise (policy_violation "potentially destructive command pattern detected")
    else validate_form bin argv

-- GuardDecision, without its metadata, which no code reads
pub record GuardDecision : Type 0 where
  pub decision : String
  pub reason : Option String

-- DefaultCommandGuard.evaluate
abbrev pub default_guard : List String → GuardDecision
default_guard argv = record {
  decision = "escalate";
  reason = some "no concrete guard policy configured";
}
