-- ===== src/Context/Policy/Inside.antt =====
-- Where a path that the policy lets pass leads.
use agent_supervisor_runtime.Base.{
  ℕ, zero, suc, ◌<◌, String, true, ◌||◌, ◌≡◌, ◌≢◌, refl, sym, ap, subst, ◌∙◌, arith, eq_iff, str_eq,
  is_empty, Bool-cases, inl, inr, length,
}
use agent_supervisor_runtime.Contracts.Identifiers.{codes, includes}
use agent_supervisor_runtime.Context.Policy.{
  RealPath, found, missing, failed, Paths, WorkspacePolicy, PolicyResult, ok, out_of_fuel,
  is_within, on_ancestor, walk, on_candidate, candidate_of, resolve_path,
}

-- A number of steps up.
pub data IsAbove (p : Paths) : String → String → Type 0 where
  parent : {below : String} → IsAbove p (p.dirname below) below
  higher : {above below : String} → IsAbove p above (p.dirname below) → IsAbove p above below

module _ (p : Paths) (w : WorkspacePolicy) where
  -- The path is a real one inside the workspace, or one that was found missing and below a
  -- path whose real path is inside.
  pub data Admitted (requested path : String) : Type 0 where
    real :
        (n : ℕ)
        → p.realpath n (candidate_of p w requested) ≡ found path
        → is_within p w.canonical_root path ≡ true
        → Admitted requested path
    new :
        (m n : ℕ) (ancestor canonical : String)
        → path ≡ candidate_of p w requested
        → p.realpath m path ≡ missing
        → IsAbove p ancestor path
        → p.realpath n ancestor ≡ found canonical
        → is_within p w.canonical_root canonical ≡ true
        → Admitted requested path

  record Walked (candidate below path : String) : Type 0 where
    same : path ≡ candidate
    at : ℕ
    ancestor : String
    above : IsAbove p ancestor below
    canonical : String
    there : p.realpath at ancestor ≡ found canonical
    inside : is_within p w.canonical_root canonical ≡ true

  returned : {a b : String} → ok a ≡ ok b → a ≡ b
  returned e = cc

  upwards :
      {candidate below path : String}
      → Walked candidate (p.dirname below) path
      → Walked candidate below path
  upwards k = record {
    same = k.same;
    at = k.at;
    ancestor = k.ancestor;
    above = higher k.above;
    canonical = k.canonical;
    there = k.there;
    inside = k.inside;
  }

  on_ancestor-Walked :
      (r : RealPath) (candidate path below : String) (more : String → ℕ → PolicyResult String)
      (n : ℕ)
      → p.realpath n (p.dirname below) ≡ r
      → (more (p.dirname below) (suc n) ≡ ok path → Walked candidate (p.dirname below) path)
      → on_ancestor p w r candidate more (p.dirname below) n ≡ ok path
      → Walked candidate below path
  on_ancestor-Walked (found canonical) candidate path below more n e k q =
      elim (Bool-cases (is_within p w.canonical_root canonical)) [
        | inr v ↦ ground arith
        | inl v ↦ record {
          same = ground arith;
          at = n;
          ancestor = p.dirname below;
          above = parent;
          canonical = canonical;
          there = e;
          inside = v;
        }
      ]
  on_ancestor-Walked missing candidate path below more n e k q = upwards (k q)
  on_ancestor-Walked failed candidate path below more n e k q = ground arith

  walk-Walked :
      (fuel : ℕ) (candidate below path : String) (n : ℕ)
      → walk p w fuel candidate below n ≡ ok path
      → Walked candidate below path
  unfolding walk
  walk-Walked zero candidate below path n q = ground arith
  walk-Walked (suc fuel) candidate below path n q =
      elim (Bool-cases (str_eq (p.dirname below) below)) [
        | inl v ↦ ground arith
        | inr v ↦
            on_ancestor-Walked (p.realpath n (p.dirname below)) candidate path below
              (walk p w fuel candidate) n refl
              (λ k. walk-Walked fuel candidate (p.dirname below) path (suc n) k) (rw v at q)
      ]

  Admitted-walk :
      (requested path : String) (m : ℕ)
      → p.realpath m (candidate_of p w requested) ≡ missing
      → Walked (candidate_of p w requested) (candidate_of p w requested) path
      → Admitted requested path
  Admitted-walk requested path m e k =
      new m k.at k.ancestor k.canonical k.same (ap (p.realpath m) k.same ∙ e)
        (subst (λ q. IsAbove p k.ancestor q) (sym k.same) k.above) k.there k.inside

  on_candidate-Admitted :
      (r : RealPath) (fuel : ℕ) (requested path : String) (n : ℕ)
      → p.realpath n (candidate_of p w requested) ≡ r
      → on_candidate p w r fuel (candidate_of p w requested) n ≡ ok path
      → Admitted requested path
  on_candidate-Admitted (found canonical) fuel requested path n e q =
      elim (Bool-cases (is_within p w.canonical_root canonical)) [
        | inr v ↦ ground arith
        | inl v ↦
            let same : canonical ≡ path = returned (rw v at q) in
            real n (e ∙ ap found same) (rw⁻¹ same v)
      ]
  on_candidate-Admitted missing fuel requested path n e q =
      Admitted-walk requested path n e
        (walk-Walked fuel (candidate_of p w requested) (candidate_of p w requested) path (suc n) q)
  on_candidate-Admitted failed fuel requested path n e q = ground arith

-- What node:path does: resolve gives absolute paths, the parent of one is absolute and is shorter
-- unless it is the path itself.
pub record PathLaws (p : Paths) : Type 0 where
  pub resolved : (q : String) → p.is_absolute (p.resolve q) ≡ true
  pub resolved_from : (r q : String) → p.is_absolute (p.resolve_from r q) ≡ true
  pub absolute : (q : String) → p.is_absolute q ≡ true → p.is_absolute (p.dirname q) ≡ true
  pub shorter :
      (q : String)
      → p.is_absolute q ≡ true
      → p.dirname q ≢ q
      → length (codes (p.dirname q)) < length (codes q)

module _ (p : Paths) (w : WorkspacePolicy) (laws : PathLaws p) where
  step_ends :
      (r : RealPath) (candidate ancestor : String) (more : String → ℕ → PolicyResult String) (n : ℕ)
      → more ancestor (suc n) ≢ out_of_fuel
      → on_ancestor p w r candidate more ancestor n ≢ out_of_fuel
  step_ends (found canonical) candidate ancestor more n k q = ground arith
  step_ends missing candidate ancestor more n k q = k q
  step_ends failed candidate ancestor more n k q = ground arith

  walk-ends :
      (fuel : ℕ) (candidate below : String) (n : ℕ)
      → p.is_absolute below ≡ true
      → length (codes below) < fuel
      → walk p w fuel candidate below n ≢ out_of_fuel
  unfolding walk
  walk-ends zero candidate below n a h = absurd (omega (arith, h))
  walk-ends (suc fuel) candidate below n a h = elim (Bool-cases (str_eq (p.dirname below) below)) [
    | inl v ↦ rw v (λ q. ground arith)
    | inr v ↦
        let other : p.dirname below ≢ below = λ e. ground (arith, eq_iff (p.dirname below) below) in
        rw v (
          step_ends (p.realpath n (p.dirname below)) candidate (p.dirname below)
            (walk p w fuel candidate) n
            (walk-ends fuel candidate (p.dirname below) (suc n) (laws.absolute below a)
              (omega (arith, laws.shorter below a other, h))))
  ]

  candidate_ends :
      (r : RealPath) (fuel : ℕ) (candidate : String) (n : ℕ)
      → p.is_absolute candidate ≡ true
      → length (codes candidate) < fuel
      → on_candidate p w r fuel candidate n ≢ out_of_fuel
  candidate_ends (found canonical) fuel candidate n a h q = ground arith
  candidate_ends missing fuel candidate n a h q = walk-ends fuel candidate candidate (suc n) a h q
  candidate_ends failed fuel candidate n a h q = ground arith

  candidate-absolute : (requested : String) → p.is_absolute (candidate_of p w requested) ≡ true
  candidate-absolute requested = elim (Bool-cases (p.is_absolute requested)) [
    | inl v ↦ rw v (laws.resolved requested)
    | inr v ↦ rw v (laws.resolved_from w.workspace_root requested)
  ]

  -- With fuel above the length of the path, resolving a path ends. A path that it returns was asked for
  -- by one that lies inside the workspace as it is written, and is either a real path inside the
  -- workspace or a path that was found missing, below an ancestor whose real path is inside.
  pub resolve_path-Admitted :
      (fuel : ℕ) (requested : String) (n : ℕ)
      → length (codes (candidate_of p w requested)) < fuel
      → (resolve_path p w fuel requested n ≢ out_of_fuel)
        × ((path : String)
            → resolve_path p w fuel requested n ≡ ok path
            → (is_within p w.workspace_root (candidate_of p w requested) ≡ true)
              × Admitted p w requested path)
  unfolding resolve_path
  resolve_path-Admitted fuel requested n h =
      elim (Bool-cases (is_empty requested || includes requested 0)) [
        | inl v ↦ rw v ((λ q. ground arith), (λ path q. ground arith))
        | inr v ↦ elim (Bool-cases (is_within p w.workspace_root (candidate_of p w requested))) [
          | inr k ↦ rw (v, k) ((λ q. ground arith), (λ path q. ground arith))
          | inl k ↦
              rw (v, k)
                (
                  candidate_ends (p.realpath n (candidate_of p w requested)) fuel
                      (candidate_of p w requested) n (candidate-absolute requested) h,
                  λ path q. (
                    refl,
                    on_candidate-Admitted p w (p.realpath n (candidate_of p w requested)) fuel
                        requested path n refl q,
                  ),
                )
        ]
      ]
