-- ===== src/Context/Broker/Budget.antt =====
-- What the broker hands out in a review cycle stays within the cycle's budget.
use agent_supervisor_runtime.Base.{
  ℕ, suc, ◌+◌, ◌≤◌, String, ◌&&◌, List, [], ◌∷◌, Option, none, some, Map, insert, ◌≡◌, ◌∙◌, refl,
  sym, ap, subst, arith, eq_iff, str_eq, Bool-cases, inl, inr, if◌then◌else◌,
}
use agent_supervisor_runtime.Contracts.Task.{is_text}
use agent_supervisor_runtime.Context.Text.{Content}
use agent_supervisor_runtime.Context.Contracts.{
  ContextCapability, execution_summary, test_summary, ContextScope, ContextResult, ok, throw,
  valid_ids, scope_key,
}
use agent_supervisor_runtime.Context.Broker.Accounts.{
  sent_bytes, same_scope, IsFiled, fetch-Accounts,
}
use agent_supervisor_runtime.Context.Broker.{
  ContextBroker, Options, used, empty_broker, fetch, Manifest, ContextManifestItem, with_item,
  collect, collect_all, collect_from, create_for, create_manifest, register_evidence, BrokerCall,
  creates, fetches, step, git_evidence,
}

module _ (o : Options) where
  -- Manifests spend nothing, and file their scope.
  record Free (usage : Map ℕ) (scopes : Map ContextScope) (run : Manifest) : Type 0 where
    unspent : run.1.cycle_usage ≡ usage
    same_scopes : run.1.scopes ≡ scopes

  with_item-Free :
      (u : Map ℕ) (sc : Map ContextScope) (run : Manifest) (i : ContextManifestItem)
      → Free u sc run
      → Free u sc (with_item i run)
  with_item-Free u sc (throw x, b) i h = record { unspent = h.unspent; same_scopes = h.same_scopes }
  with_item-Free u sc (ok items, b) i h = record {
    unspent = h.unspent;
    same_scopes = h.same_scopes;
  }

  collect-Free :
      (s : ContextScope) (c : ContextCapability) (content : ContextResult (Option Content))
      (later : ContextBroker → Manifest) (b : ContextBroker)
      → ((b' : ContextBroker) → Free b'.cycle_usage b'.scopes (later b'))
      → Free b.cycle_usage b.scopes (collect o s c content later b)
  collect-Free s c (throw x) later b h = h b
  collect-Free s c (ok none) later b h = h b
  collect-Free s c (ok (some t)) later b h =
      with_item-Free b.cycle_usage b.scopes (later (register_evidence o s c t b)) _
        (h (register_evidence o s c t b))

  collect_all-Free :
      (s : ContextScope) (cs : List ContextCapability) (b : ContextBroker)
      → Free b.cycle_usage b.scopes (collect_all o s cs b)
  unfolding collect_all
  collect_all-Free s [] b = record { unspent = refl; same_scopes = refl }
  collect_all-Free s (c ∷ cs) b =
      collect-Free s c (o.read_source b.reads s c none none) (λ b'. collect_all o s cs b')
        (record b { reads = suc b.reads }) (λ b'. collect_all-Free s cs b')

  collect_from-Free :
      (s : ContextScope) (e t : ContextResult (Option Content)) (b : ContextBroker)
      → Free b.cycle_usage b.scopes (collect_from o s e t b)
  collect_from-Free s (throw x) t b = record { unspent = refl; same_scopes = refl }
  collect_from-Free s (ok e) (throw x) b = record { unspent = refl; same_scopes = refl }
  collect_from-Free s (ok e) (ok t) b =
      collect-Free s execution_summary (ok e)
        (collect o s test_summary (ok t) (collect_all o s git_evidence)) b
        (λ b'.
          collect-Free s test_summary (ok t) (collect_all o s git_evidence) b'
            (λ b''. collect_all-Free s git_evidence b''))

  abbrev Steady : ContextBroker → ContextBroker → Type 0
  Steady b b' = (b'.cycle_usage ≡ b.cycle_usage) × (IsFiled o b → IsFiled o b')

  filed_insert :
      (s scope : ContextScope) (k : String) (t : ContextScope) (b : ContextBroker)
      → scope_key s.ids ≡ scope_key scope.ids
      → IsFiled o b
      → insert (scope_key s.ids) scope b.scopes k ≡ some t
      → scope_key t.ids ≡ k
  filed_insert s scope k t b i f e = elim (Bool-cases (str_eq (scope_key s.ids) k)) [
    | inl v ↦
        let same : scope ≡ t =
          same_scope (subst (λ c. (if c then some scope else b.scopes k) ≡ some t) v e) in
        sym (ap (λ x. scope_key x.ids) same) ∙ sym i ∙ ground (arith, eq_iff (scope_key s.ids) k)
    | inr v ↦ f k t (ground arith)
  ]

  create-Steady :
      (s : ContextScope) (root : ContextResult String) (b : ContextBroker)
      → Steady b (create_for o s root b).1
  create-Steady s (throw x) b = (refl, λ f. f)
  create-Steady s (ok root) b =
      let scope : ContextScope = record s { workspace_root = root } in
      let b' : ContextBroker = record b {
        scopes = insert (scope_key s.ids) scope b.scopes;
        reads = suc (suc b.reads);
      } in
      let h =
        collect_from-Free scope (o.read_source b.reads scope execution_summary none none)
          (o.read_source (suc b.reads) scope test_summary none none) b' in
      (
        h.unspent,
        λ f k t e. filed_insert s scope k t b refl f (ap (λ m. m k) (sym h.same_scopes) ∙ e),
      )

  create_manifest-Steady :
      (s : ContextScope) (b : ContextBroker) → Steady b (create_manifest o s b).1
  unfolding create_manifest
  create_manifest-Steady s b = elim (Bool-cases (valid_ids s.ids && is_text s.workspace_root)) [
    | inl v ↦ rw v (create-Steady s (o.canonical_root b.reads s.workspace_root) b)
    | inr v ↦ rw v (refl, λ f. f)
  ]

  -- The bytes that a sequence of calls hands out under one key.
  unfoldable pub delivered : String → List BrokerCall → ContextBroker → ℕ
  unfolding step fetch
  delivered key [] b = 0
  delivered key (creates s ∷ cs) b = delivered key cs (step o (creates s) b)
  delivered key (fetches r ∷ cs) b =
      (if str_eq (scope_key r.ids) key then sent_bytes (fetch o r b).0 else 0)
      + delivered key cs (step o (fetches r) b)

  within :
      (key : String) (cs : List BrokerCall) (b : ContextBroker)
      → IsFiled o b
      → used (b.cycle_usage key) ≤ o.review_cycle_budget_bytes
      → used (b.cycle_usage key) + delivered key cs b ≤ o.review_cycle_budget_bytes
  unfolding delivered step
  within key [] b f h = omega (arith, h)
  within key (creates s ∷ cs) b f h =
      let k = create_manifest-Steady s b in
      let u : used ((create_manifest o s b).1.cycle_usage key) ≡ used (b.cycle_usage key) =
        ap (λ m. used (m key)) k.0 in
      let more = within key cs (create_manifest o s b).1 (k.1 f) (omega (arith, u, h)) in
      omega (arith, u, more)
  within key (fetches r ∷ cs) b f h =
      let a = fetch-Accounts o r b f in
      let f' : IsFiled o (fetch o r b).1 = λ k s e. f k s (ap (λ m. m k) (sym a.kept) ∙ e) in
      elim (Bool-cases (str_eq (scope_key r.ids) key)) [
        | inl v ↦
            let e : scope_key r.ids ≡ key = ground (arith, eq_iff (scope_key r.ids) key) in
            let spent : used ((fetch o r b).1.cycle_usage key)
                ≡ used (b.cycle_usage key) + sent_bytes (fetch o r b).0 =
              subst
                (λ j.
                  used ((fetch o r b).1.cycle_usage j)
                  ≡ used (b.cycle_usage j) + sent_bytes (fetch o r b).0)
                e a.spent in
            let bounded : used ((fetch o r b).1.cycle_usage key) ≤ o.review_cycle_budget_bytes =
              subst
                (λ j.
                  used (b.cycle_usage j) ≤ o.review_cycle_budget_bytes
                  → used ((fetch o r b).1.cycle_usage j) ≤ o.review_cycle_budget_bytes)
                e a.bounded h in
            let more = within key cs (fetch o r b).1 f' bounded in rw v (omega (arith, spent, more))
        | inr v ↦
            let u : used ((fetch o r b).1.cycle_usage key) ≡ used (b.cycle_usage key) =
              ap used (a.others key (λ e. ground (arith, eq_iff (scope_key r.ids) key))) in
            let more = within key cs (fetch o r b).1 f' (omega (arith, u, h)) in
            rw v (omega (arith, u, more))
      ]

  -- In any sequence of manifests and fetches, one review cycle's fetches hand out no more bytes of
  -- content in all than the cycle's budget.
  pub delivered-le :
      (key : String) (cs : List BrokerCall)
      → delivered key cs empty_broker ≤ o.review_cycle_budget_bytes
  delivered-le key cs =
      omega (arith, within key cs empty_broker (λ k s e. ground arith) (omega arith))
