-- ===== src/Policy/Approver.antt =====
-- The approver that is a policy, in src/intent_packages/approval_policy.py.
use intent_packages.Prelude.{
  ℕ, suc, String, Bool, true, false, not, ◌&&◌, ◌||◌, Option, none, some, [], ◌∷◌, ◌++◌, codes, eqb,
  leb, if◌then◌else◌, strip_prefix,
}
use intent_packages.Host.{Text}
use intent_packages.Canonical.{digits}
use intent_packages.Policy.{ApprovalPolicy}

is_digit : ℕ → Bool
is_digit c = leb 48 c && leb c 57

is_name_char : ℕ → Bool
unfolding is_digit
is_name_char c = (leb 97 c && leb c 122) || (is_digit c || eqb c b'-')

-- `[0-9]*$`, where `$` also stands before one last newline.
digits_to_end : Text → Bool
unfolding is_digit
digits_to_end [] = true
digits_to_end (c ∷ []) = is_digit c || eqb c 10
digits_to_end (c ∷ d ∷ cs) = is_digit c && digits_to_end (d ∷ cs)

version_part : Option Text → Bool
unfolding digits_to_end is_digit
version_part none = false
version_part (some []) = false
version_part (some (c ∷ cs)) = (is_digit c && not (eqb c 48)) && digits_to_end cs

-- `[a-z0-9-]*@v` and the version.
name_part : Text → Bool
unfolding is_name_char version_part strip_prefix codes
name_part [] = false
name_part (c ∷ cs) =
    let rest = name_part cs in
    if is_name_char c then rest else version_part (strip_prefix (codes "@v") (c ∷ cs))

policy_part : Option Text → Bool
unfolding name_part is_name_char
policy_part none = false
policy_part (some []) = false
policy_part (some (c ∷ cs)) = (is_name_char c && not (eqb c b'-')) && name_part cs

-- `POLICY_APPROVER_RE.match`: ^policy:([a-z0-9][a-z0-9-]*)@v([1-9][0-9]*)$
unfoldable pub is_policy_text : Text → Bool
unfolding policy_part strip_prefix codes
is_policy_text s = policy_part (strip_prefix (codes "policy:") s)

unfoldable pub is_policy_approver : String → Bool
unfolding is_policy_text codes
is_policy_approver s = is_policy_text (codes s)

-- `policy:<profile>@v<version>`
unfoldable pub approver_for : ApprovalPolicy → String → Text
unfolding codes digits
approver_for policy profile =
    codes "policy:" ++ (codes profile ++ (codes "@v" ++ digits (suc policy.version) policy.version))
