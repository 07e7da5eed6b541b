-- ===== src/CmdCtrl/Policies/Inspection.antt =====
-- What a command line is that InspectPolicy (src/sdk_test_agent/cmd_ctrl/policies.py) accepts.

use sth_boring.Base.{
  String, eq_sym, true, false, List, [], ◌∷◌, any, All, contains, ok, ◌≡◌, refl, arith, ◌⊎◌,
}
use sth_boring.CmdCtrl.Policies.{validate_argv, validate_form, interactive, deny_tokens, one_of}

-- The binaries that are let through in some forms only.
abbrev pub scripted : List String
scripted = "python" ∷ "pip" ∷ "java" ∷ "mvn" ∷ "gradle" ∷ []

-- The forms of these binaries that are let through.
abbrev pub allowed_forms : List (List String)
allowed_forms =
    ("python" ∷ "-V" ∷ [])
    ∷ ("python" ∷ "--version" ∷ [])
    ∷ ("python" ∷ "-m" ∷ "pip" ∷ "list" ∷ [])
    ∷ ("pip" ∷ "list" ∷ [])
    ∷ ("pip" ∷ "-V" ∷ [])
    ∷ ("pip" ∷ "--version" ∷ [])
    ∷ ("java" ∷ "-version" ∷ [])
    ∷ ("mvn" ∷ "-v" ∷ [])
    ∷ ("gradle" ∷ "-v" ∷ [])
    ∷ []

-- A command line of a known binary that is not interactive, without a denied word, and for the
-- binaries that can run scripts in one of the allowed forms.
pub record IsInspection (allowed : List String) (bin : String) (args : List String) : Type 0 where
  pub known : contains bin allowed ≡ true
  pub not_interactive : contains bin interactive ≡ false
  pub harmless : All (λ word. contains word deny_tokens ≡ false) (bin ∷ args)
  pub form : (contains bin scripted ≡ false) ⊎ (one_of (bin ∷ args) allowed_forms ≡ true)

absent :
    (word : String) (words tokens : List String)
    → any (λ token. contains token (word ∷ words)) tokens ≡ false
    → contains word tokens ≡ false
unfolding any contains
absent word words [] h = refl
absent word words (t ∷ ts) h =
    let rest = absent word words ts in ground (arith, rest, eq_sym word t)

fewer :
    (word : String) (words tokens : List String)
    → any (λ token. contains token (word ∷ words)) tokens ≡ false
    → any (λ token. contains token words) tokens ≡ false
unfolding any contains
fewer word words [] h = refl
fewer word words (t ∷ ts) h = let rest = fewer word words ts in ground (arith, rest)

-- If none of the tokens is one of the words, none of the words is one of the tokens.
absent-All :
    (tokens words : List String)
    → any (λ token. contains token words) tokens ≡ false
    → All (λ word. contains word tokens ≡ false) words
absent-All tokens [] h = tt
absent-All tokens (word ∷ words) h =
    (absent word words tokens h, absent-All tokens words (fewer word words tokens h))

accepted_form :
    (bin : String) (argv : List String)
    → validate_form bin argv ≡ ok tt
    → (contains bin scripted ≡ false) ⊎ (one_of argv allowed_forms ≡ true)
unfolding validate_form contains any
accepted_form bin argv h = ground (
  arith,
  eq_sym bin "python",
  eq_sym bin "pip",
  eq_sym bin "java",
  eq_sym bin "mvn",
  eq_sym bin "gradle",
)

-- A command line that the policy accepts has a known binary that is not interactive, no denied word,
-- and for the binaries that can run scripts one of the allowed forms.
pub validate_argv-IsInspection :
    (allowed : List String) (bin : String) (args : List String)
    → validate_argv allowed (bin ∷ args) ≡ ok tt
    → IsInspection allowed bin args
unfolding validate_argv
validate_argv-IsInspection allowed bin args h = record {
  known = ground arith;
  not_interactive = ground arith;
  harmless = absent-All deny_tokens (bin ∷ args) (ground arith);
  form = accepted_form bin (bin ∷ args) (ground arith);
}
