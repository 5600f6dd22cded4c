-- ===== src/Context/Policy.antt =====
-- context/workspace-policy.ts: which paths of a workspace may be read. The functions of node:path and
-- realpath are parameters; realpath depends on the number of its calls so far.
pub mod Inside
use agent_supervisor_runtime.Base.{
  ℕ, zero, suc, ◌+◌, String, Bool, true, false, not, ◌&&◌, ◌||◌, List, [], ◌∷◌, Option, none, some,
  str_eq, is_empty, nat_eq, if◌then◌else◌,
}
use agent_supervisor_runtime.Contracts.Identifiers.{codes, includes}

-- What realpath does: returns a path, throws ENOENT, or throws anything else.
pub data RealPath : Type 0 where
  found : String → RealPath
  missing failed : RealPath

pub record Paths : Type 0 where
  pub is_absolute : String → Bool
  pub resolve : String → String
  pub resolve_from : String → String → String
  pub relative : String → String → String
  pub dirname : String → String
  pub realpath : ℕ → String → RealPath

pub record WorkspacePolicy : Type 0 where
  pub workspace_root : String
  pub canonical_root : String

pub data PolicyResult {ℓ} (A : Type ℓ) : Type ℓ where
  ok : A → PolicyResult A
  context_policy_violation file_error out_of_fuel : PolicyResult A

-- `startsWith("..")`
abbrev pub starts_with_dots : List ℕ → Bool
starts_with_dots (a ∷ b ∷ cs) = nat_eq a 46 && nat_eq b 46
starts_with_dots _ = false

module _ (p : Paths) where
  unfoldable pub is_within : String → String → Bool
  is_within root candidate =
      let rel = p.relative root candidate in
      is_empty rel || (not (starts_with_dots (codes rel)) && not (p.is_absolute rel))

  abbrev pub created : String → RealPath → PolicyResult WorkspacePolicy
  created resolved (found canonical) =
      ok (record { workspace_root = resolved; canonical_root = canonical })
  created resolved _ = file_error

  unfoldable pub create : ℕ → String → PolicyResult WorkspacePolicy
  create n workspace_root =
      created (p.resolve workspace_root) (p.realpath n (p.resolve workspace_root))

  module _ (w : WorkspacePolicy) where
    -- The walk to the nearest ancestor that exists; the candidate itself is what is returned.
    abbrev pub on_ancestor :
        RealPath → String → (String → ℕ → PolicyResult String) → String → ℕ → PolicyResult String
    on_ancestor (found canonical) candidate more ancestor n =
        if is_within w.canonical_root canonical then ok candidate else context_policy_violation
    on_ancestor missing candidate more ancestor n = more ancestor (suc n)
    on_ancestor failed candidate more ancestor n = file_error

    unfoldable pub walk : ℕ → String → String → ℕ → PolicyResult String
    unfolding is_within
    walk zero candidate below n = out_of_fuel
    walk (suc fuel) candidate below n =
        let parent = p.dirname below in
        if str_eq parent below
        then context_policy_violation
        else on_ancestor (p.realpath n parent) candidate (walk fuel candidate) parent n

    abbrev pub on_candidate : RealPath → ℕ → String → ℕ → PolicyResult String
    on_candidate (found canonical) fuel candidate n =
        if is_within w.canonical_root canonical then ok canonical else context_policy_violation
    on_candidate missing fuel candidate n = walk fuel candidate candidate (suc n)
    on_candidate failed fuel candidate n = file_error

    abbrev pub candidate_of : String → String
    candidate_of requested =
        if p.is_absolute requested
        then p.resolve requested
        else p.resolve_from w.workspace_root requested

    unfoldable pub resolve_path : ℕ → String → ℕ → PolicyResult String
    unfolding is_within walk
    resolve_path fuel requested n =
        let candidate = candidate_of requested in
        if is_empty requested || includes requested 0
        then context_policy_violation
        else if is_within w.workspace_root candidate
        then on_candidate (p.realpath n candidate) fuel candidate n
        else context_policy_violation
