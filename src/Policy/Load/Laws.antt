-- ===== src/Policy/Load/Laws.antt =====
-- What `load_policy` of src/intent_packages/approval_policy.py returns.
use intent_packages.Prelude.{
  ℕ, String, ◌≡◌, refl, sym, ap, ◌∙◌, Bool, true, false, not, ◌&&◌, Option, none, some, List, [],
  ◌∷◌, ◌≤◌, ◌==◌, eq_iff, mem, all, mem-all, leb, Bool-cases, inl, inr, &&-true, arith,
}
use intent_packages.Key.{name, odd}
use intent_packages.Value.{Value, int, pos, negsuc, dict, Entries, end, entry}
use intent_packages.Value.Dict.{get, has, keys, items}
use intent_packages.Outcome.{ok, policy_error, >>=-ok, ok-inj, if-ok, raise_if}
use intent_packages.Host.{Host}
use intent_packages.Profiles.{profile_names}
use intent_packages.Policy.{Grant, ApprovalPolicy}
use intent_packages.Policy.Refusals.{find_grant}
use intent_packages.Policy.Load.{
  key_in, row_of, rows_of, check_version, check_rows, parse_policy, policy_from, load_policy,
}

abbrev Rows : Type 0
Rows = List (String × Option Grant)

-- There is a row, with a grant or without.
abbrev pub has_row : String → Rows → Bool
has_row p gs = elim (find_grant p gs) [ none ↦ false | some g ↦ true ]

same_iff : (a b : Bool) → (a ≡ true → b ≡ true) → (b ≡ true → a ≡ true) → a ≡ b
same_iff true b f g = sym (f refl)
same_iff false true f g = absurd (cc (g refl))
same_iff false false f g = refl

rows_of-has :
    (d : Entries) (version : ℕ) (gs : Rows) (p : String)
    → rows_of (items d) version ≡ ok gs
    → has_row p gs ≡ has p d
unfolding rows_of items has find_grant
rows_of-has end version gs p h = ap (has_row p) (sym (ok-inj h))
rows_of-has (entry (odd n) v d) version gs p h = absurd (cc)
rows_of-has (entry (name k) v d) version gs p h =
    let (g, _, h1) = >>=-ok (row_of v version) _ h in
    let (rest, r, h2) = >>=-ok (rows_of (items d) version) _ h1 in
    let later = rows_of-has d version rest p r in
    ap (has_row p) (sym (ok-inj h2))
    ∙ elim (Bool-cases (p == k)) [ inl e ↦ ground (arith, e) | inr e ↦ ground (arith, e, later) ]

has-registered :
    (d : Entries) (p : String)
    → all (key_in profile_names) (keys d) ≡ true
    → has p d ≡ true
    → mem p profile_names ≡ true
unfolding all keys has key_in
has-registered end p a h = absurd (cc)
has-registered (entry (odd n) v d) p a h = absurd (cc)
has-registered (entry (name k) v d) p a h =
    let (m, rest) = &&-true (mem k profile_names) _ a in
    elim (Bool-cases (p == k)) [
      | inl e ↦ ap (λ x. mem x profile_names) ((eq_iff p k).0 e) ∙ m
      | inr e ↦ has-registered d p rest (ground (arith, e))
    ]

check_version-bounds : (v : Value) (n : ℕ) → check_version v ≡ ok n → (1 ≤ n) × (n ≤ 3)
unfolding check_version
check_version-bounds (int (pos m)) n h =
    let (b, e) = if-ok (leb 1 m && leb m 3) (ok m) _ h in ground (arith, b, ok-inj e)
check_version-bounds (int (negsuc m)) n h = absurd (cc)
check_version-bounds v n h = absurd (cc)

check_rows-registered :
    (v : Value) (rows : Entries)
    → check_rows v ≡ ok rows
    → (all (λ p. has p rows) profile_names ≡ true) × (all (key_in profile_names) (keys rows) ≡ true)
unfolding check_rows
check_rows-registered (dict d) rows h =
    let (b, e) =
      if-ok (all (λ p. has p d) profile_names && all (key_in profile_names) (keys d)) (ok d) _ h in
    rw (ok-inj e) at (&&-true (all (λ p. has p d) profile_names) _ b)
check_rows-registered v rows h = absurd (cc)

-- A policy that was read has a known version, and a row for a name exactly if a profile is
-- registered under it.
abbrev pub WellFormed : ApprovalPolicy → Type 0
WellFormed policy =
    (1 ≤ policy.version)
    × (policy.version ≤ 3)
    × ((p : String) → has_row p policy.grants ≡ mem p profile_names)

carry : {a b : ApprovalPolicy} → a ≡ b → WellFormed a → WellFormed b
carry e h = rw e at h

parse_policy-WellFormed :
    (raw : Entries) (policy : ApprovalPolicy) → parse_policy raw ≡ ok policy → WellFormed policy
unfolding parse_policy
parse_policy-WellFormed raw policy h0 =
    let (_, _, h1) =
      >>=-ok
        (raise_if (not (all (key_in ("version" ∷ "profile" ∷ [])) (keys raw)))
          (policy_error "unknown fields"))
        _ h0 in
    let (version, v, h2) = >>=-ok (check_version (get raw "version")) _ h1 in
    let (rows, r, h3) = >>=-ok (check_rows (get raw "profile")) _ h2 in
    let (gs, g, h4) = >>=-ok (rows_of (items rows) version) _ h3 in
    let (lower, upper) = check_version-bounds (get raw "version") version v in
    let (present, known) = check_rows-registered (get raw "profile") rows r in
    carry (ok-inj h4) (
      lower,
      upper,
      λ (p : String).
          rows_of-has rows version gs p g
          ∙ same_iff (has p rows) (mem p profile_names) (has-registered rows p known)
              (mem-all (λ q. has q rows) p profile_names present),
    )

policy_from-WellFormed :
    (o : Option Entries) (policy : ApprovalPolicy) → policy_from o ≡ ok policy → WellFormed policy
unfolding policy_from
policy_from-WellFormed none policy h = absurd (cc)
policy_from-WellFormed (some raw) policy h = parse_policy-WellFormed raw policy h

-- A policy that `load_policy` returns has version 1, 2 or 3, and a row for a name exactly if a
-- profile is registered under it.
pub load_policy-WellFormed :
    (H : Host) (policy : ApprovalPolicy) → load_policy H ≡ ok policy → WellFormed policy
unfolding load_policy
load_policy-WellFormed H policy h = policy_from-WellFormed H.policy_toml policy h
