-- ===== src/Examples/Policy.antt =====
-- The workspace policy at a concrete file system: a workspace with one directory.
use agent_supervisor_runtime.Base.{
  ℕ, ◌<◌, String, true, ◌||◌, ◌≡◌, ◌≢◌, refl, subst, sym, arith, eq_iff, str_eq, Bool-cases, inl,
  inr, length, if◌then◌else◌,
}
use agent_supervisor_runtime.Contracts.Identifiers.{codes}
use agent_supervisor_runtime.Context.Policy.{
  RealPath, found, missing, Paths, WorkspacePolicy, ok, out_of_fuel, is_within, walk, candidate_of,
  resolve_path,
}
use agent_supervisor_runtime.Context.Policy.Inside.{PathLaws, Admitted, resolve_path-Admitted}

-- A new file of the workspace, whose directory is there.
abbrev realpath : ℕ → String → RealPath
realpath n path = if str_eq path "/w/new" then missing else found path

abbrev paths : Paths
paths = record {
  is_absolute = λ q. str_eq q "/" || (str_eq q "/w" || str_eq q "/w/new");
  resolve = λ q. "/w";
  resolve_from = λ r q. "/w/new";
  relative = λ root q. if str_eq q root then "" else if str_eq q "/w/new" then "new" else "..";
  dirname = λ q. if str_eq q "/w/new" then "/w" else "/";
  realpath = realpath;
}

abbrev policy : WorkspacePolicy
policy = record { workspace_root = "/w"; canonical_root = "/w" }

shorter_parent :
    (q : String)
    → paths.is_absolute q ≡ true
    → paths.dirname q ≢ q
    → length (codes (paths.dirname q)) < length (codes q)
shorter_parent q a n = elim (Bool-cases (str_eq q "/w/new")) [
  | inl v ↦
      let e : q ≡ "/w/new" = ground (arith, eq_iff q "/w/new") in
      subst (λ x. length (codes (paths.dirname x)) < length (codes x)) (sym e) (omega arith)
  | inr v ↦ elim (Bool-cases (str_eq q "/w")) [
    | inl u ↦
        let e : q ≡ "/w" = ground (arith, eq_iff q "/w") in
        subst (λ x. length (codes (paths.dirname x)) < length (codes x)) (sym e) (omega arith)
    | inr u ↦ let e : q ≡ "/" = ground (arith, eq_iff q "/") in absurd (n (rw v (sym e)))
  ]
]

absolute_parent :
    (q : String) → paths.is_absolute q ≡ true → paths.is_absolute (paths.dirname q) ≡ true
absolute_parent q a = elim (Bool-cases (str_eq q "/w/new")) [
  | inl v ↦ rw v refl
  | inr v ↦ rw v refl
]

laws : PathLaws paths
laws = record {
  resolved = λ q. refl;
  resolved_from = λ r q. refl;
  absolute = absolute_parent;
  shorter = shorter_parent;
}

resolve_path-Admitted_example :
    (resolve_path paths policy 8 "new" 0 ≢ out_of_fuel)
    × ((path : String)
        → resolve_path paths policy 8 "new" 0 ≡ ok path
        → (is_within paths "/w" (candidate_of paths policy "new") ≡ true)
          × Admitted paths policy "new" path)
resolve_path-Admitted_example = resolve_path-Admitted paths policy laws 8 "new" 0 (omega arith)

-- It does let the new file pass.
passes : resolve_path paths policy 8 "new" 0 ≡ ok "/w/new"
unfolding resolve_path is_within walk
passes = refl
