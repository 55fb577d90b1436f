-- ===== src/Server/Envs/Namespaces.antt =====
-- Which namespaces `assignedKubernetesEnvs` lists for which cluster.
use rbac_manager.Prelude.{
  String, Bool, not, ◌&&◌, Option, none, some, List, [], ◌∷◌, ◌++◌, map, ◌≡◌, ◌≢◌, ◌↔◌, ◌⊎◌, ◌==◌,
  refl, sym, ◌∙◌, arith, eq_iff, is_empty, keep, last, In, In-append, In-append_left,
  In-append_right, inl, inr, Bool-cases, Option-cases, if◌then◌else◌,
}
use mathlib.Core.Path.{subst}
use mathlib.Core.List.{append-nil, append_assoc}
use rbac_manager.GoMap.{GoMap, lookup}
use rbac_manager.UserManager.{ProjectAssignment}
use rbac_manager.Rbac.{AssignedKubernetesEnv}
use rbac_manager.Cache.{C}
use rbac_manager.Server.Envs.{
  split_assignments, env_at, envs_for_all, cluster_envs, clusters_envs,
  assigned_kubernetes_envs_internal,
}

-- The assignment is for this one cluster.
abbrev pub is_for : String → ProjectAssignment → Bool
is_for id a = not (is_empty a.cluster_id) && a.cluster_id == id

-- The namespace that the project is assigned in one cluster: the last assignment that names the
-- cluster decides.
abbrev pub assigned_in : List ProjectAssignment → String → Option String
assigned_in assignments id = elim (last (is_for id) assignments) [
  | none ↦ none
  | some a ↦ some a.namespace
]

-- The namespaces for all clusters: the project's own, if it has one, and those of the assignments
-- that name no cluster.
abbrev pub wide : String → List ProjectAssignment → List String
wide namespace assignments =
    (if is_empty namespace then [] else namespace ∷ [])
    ++ map (λ (a : ProjectAssignment). a.namespace) (keep (λ a. is_empty a.cluster_id) assignments)

split_all :
    (all : List String) (m : GoMap String) (as' : List ProjectAssignment)
    → (split_assignments (all, m) as').0
      ≡ all ++ map (λ (a : ProjectAssignment). a.namespace) (keep (λ a. is_empty a.cluster_id) as')
unfolding split_assignments
split_all all m [] = sym (append-nil all)
split_all all m (a ∷ as') = elim (Bool-cases (is_empty a.cluster_id)) [
  | inl unnamed ↦ rw unnamed (
      split_all (all ++ a.namespace ∷ []) m as'
      ∙ append_assoc all (a.namespace ∷ [])
          (map (λ (b : ProjectAssignment). b.namespace) (keep (λ b. is_empty b.cluster_id) as')))
  | inr named ↦ rw named (split_all all ((a.cluster_id, a.namespace) ∷ m) as')
]

split_by_cluster :
    (id : String) (all : List String) (m : GoMap String) (as' : List ProjectAssignment)
    → lookup id (split_assignments (all, m) as').1
      ≡ elim (assigned_in as' id) [ none ↦ lookup id m | some ns ↦ some ns ]
unfolding split_assignments
split_by_cluster id all m [] = refl
split_by_cluster id all m (a ∷ as') = elim (Bool-cases (is_empty a.cluster_id)) [
  | inl unnamed ↦
      rw unnamed (ground (arith, unnamed, split_by_cluster id (all ++ a.namespace ∷ []) m as'))
  | inr named ↦
      rw named
        (ground (arith, named, split_by_cluster id all ((a.cluster_id, a.namespace) ∷ m) as'))
]

-- The inner loop lists every namespace but the one already found.
envs_for_all_iff :
    (c : C) (found : String) (nss : List String) (e : AssignedKubernetesEnv)
    → In e (envs_for_all c found nss)
      ↔ ((ns : String) × In ns nss × (ns ≢ found) × (e ≡ env_at c ns))
unfolding envs_for_all
envs_for_all_iff c found [] e = (λ i. absurd i, λ (ns, i, _, _). absurd i)
envs_for_all_iff c found (n ∷ nss) e = elim (Bool-cases (n == found)) [
  | inl same ↦ (
    λ i.
        let (ns, j, ne, is) = (envs_for_all_iff c found nss e).0 (rw same at i) in
        (ns, inr j, ne, is),
    λ (ns, i, ne, is). elim i [
      | inl here ↦ absurd (ground (arith, eq_iff n found))
      | inr later ↦ rw same ((envs_for_all_iff c found nss e).1 (ns, later, ne, is))
    ],
  )
  | inr other ↦ (
    λ i.
        let i' : (e ≡ env_at c n) ⊎ In e (envs_for_all c found nss) = rw other at i in
        elim i' [
          | inl here ↦ (n, inl refl, ground (arith, eq_iff n found), here)
          | inr later ↦
              let (ns, j, ne, is) = (envs_for_all_iff c found nss e).0 later in (ns, inr j, ne, is)
        ],
    λ (ns, i, ne, is). rw other (elim i [
      | inl here ↦ inl (rw here at is)
      | inr later ↦ inr ((envs_for_all_iff c found nss e).1 (ns, later, ne, is))
    ]),
  )
]

clusters_envs_iff :
    (all : List String) (m : GoMap String) (cs : List C) (e : AssignedKubernetesEnv)
    → In e (clusters_envs all m cs) ↔ ((c : C) × In c cs × In e (cluster_envs all m c))
unfolding clusters_envs
clusters_envs_iff all m [] e = (λ i. absurd i, λ (c, i, _). absurd i)
clusters_envs_iff all m (c ∷ cs) e = (
  λ i. elim (In-append e (cluster_envs all m c) (clusters_envs all m cs) i) [
    | inl here ↦ (c, inl refl, here)
    | inr later ↦ let (d, j, k) = (clusters_envs_iff all m cs e).0 later in (d, inr j, k)
  ],
  λ (d, j, k). elim j [
    | inl here ↦
        In-append_left e (cluster_envs all m c) (clusters_envs all m cs)
          (subst (λ x. In e (cluster_envs all m x)) here k)
    | inr later ↦
        In-append_right e (cluster_envs all m c) (clusters_envs all m cs)
          ((clusters_envs_iff all m cs e).1 (d, later, k))
  ],
)

cluster_envs-some :
    (all : List String) (m : GoMap String) (c : C) (own : String)
    → lookup c.id m ≡ some own
    → cluster_envs all m c ≡ env_at c own ∷ envs_for_all c own all
unfolding cluster_envs
cluster_envs-some all m c own found = ground arith

cluster_envs-none :
    (all : List String) (m : GoMap String) (c : C)
    → lookup c.id m ≡ none
    → cluster_envs all m c ≡ envs_for_all c "" all
unfolding cluster_envs
cluster_envs-none all m c missing = ground arith

-- Once the first loop is over, a cluster's entry is what `assigned_in` says.
split_at :
    (c : C) (all : List String) (as' : List ProjectAssignment)
    → lookup c.id (split_assignments (all, []) as').1 ≡ assigned_in as' c.id
split_at c all as' = ground (arith, split_by_cluster c.id all [] as')

-- The namespace `ns` is served in the cluster `id`: it is assigned there, or it is one for all
-- clusters, and where none is assigned it is not empty.
pub data IsServed (namespace : String) (as' : List ProjectAssignment) (id ns : String)
    : Type 0 where
  assigned : assigned_in as' id ≡ some ns → IsServed namespace as' id ns
  beside :
      (own : String)
      → assigned_in as' id ≡ some own
      → In ns (wide namespace as')
      → IsServed namespace as' id ns
  for_all :
      assigned_in as' id ≡ none
      → ns ≢ ""
      → In ns (wide namespace as')
      → IsServed namespace as' id ns

module _ (namespace : String) (as' : List ProjectAssignment) (c : C) (e : AssignedKubernetesEnv)
    (all : List String) (m : GoMap String) (all_is : all ≡ wide namespace as')
    (m_is : lookup c.id m ≡ assigned_in as' c.id) where
  Lists : Type 0
  Lists = (ns : String) × IsServed namespace as' c.id ns × (e ≡ env_at c ns)

  cluster_envs_sound : In e (cluster_envs all m c) → Lists
  unfolding Lists
  cluster_envs_sound i = elim (Option-cases (lookup c.id m)) [
    | inr (own, found) ↦
        let i' : (e ≡ env_at c own) ⊎ In e (envs_for_all c own all) =
          subst (In e) (cluster_envs-some all m c own found) i in
        let is_own : assigned_in as' c.id ≡ some own = sym m_is ∙ found in
        elim i' [
          | inl here ↦ (own, assigned is_own, here)
          | inr later ↦
              let (ns, j, _, is) = (envs_for_all_iff c own all e).0 later in
              (ns, beside own is_own (subst (In ns) all_is j), is)
        ]
    | inl missing ↦
        let i' : In e (envs_for_all c "" all) =
          subst (In e) (cluster_envs-none all m c missing) i in
        let (ns, j, ne, is) = (envs_for_all_iff c "" all e).0 i' in
        (ns, for_all (sym m_is ∙ missing) ne (subst (In ns) all_is j), is)
  ]

  own_listed :
      (own : String)
      → assigned_in as' c.id ≡ some own
      → e ≡ env_at c own
      → In e (cluster_envs all m c)
  own_listed own is_own is = rw (cluster_envs-some all m c own (m_is ∙ is_own)) (inl is)

  cluster_envs_complete : Lists → In e (cluster_envs all m c)
  unfolding Lists
  cluster_envs_complete (ns, assigned is_own, is) = own_listed ns is_own is
  cluster_envs_complete (ns, beside own is_own j, is) = elim (Bool-cases (ns == own)) [
    | inl same ↦ own_listed own is_own (rw ((eq_iff ns own).0 same) at is)
    | inr other ↦ rw (cluster_envs-some all m c own (m_is ∙ is_own)) (
        inr (
          (envs_for_all_iff c own all e).1
            (ns, subst (In ns) (sym all_is) j, ground (arith, eq_iff ns own), is)))
  ]
  cluster_envs_complete (ns, for_all none_own ne j, is) =
      rw (cluster_envs-none all m c (m_is ∙ none_own))
        ((envs_for_all_iff c "" all e).1 (ns, subst (In ns) (sym all_is) j, ne, is))

-- `assignedKubernetesEnvsInternal` lists the pairs of one of the clusters and a namespace that the
-- project is served under there, and no others.
pub assigned_kubernetes_envs_internal_iff :
    (namespace : String) (as' : List ProjectAssignment) (cs : List C) (e : AssignedKubernetesEnv)
    → In e (assigned_kubernetes_envs_internal namespace as' cs)
      ↔ ((c : C) × In c cs × ((ns : String) × IsServed namespace as' c.id ns × (e ≡ env_at c ns)))
unfolding assigned_kubernetes_envs_internal Lists
assigned_kubernetes_envs_internal_iff namespace as' cs e =
    let start = if is_empty namespace then [] else namespace ∷ [] in
    let s = split_assignments (start, []) as' in
    let all_is = split_all start [] as' in
    let m_is = λ (c : C). split_at c start as' in
    let both = clusters_envs_iff s.0 s.1 cs e in
    (
      λ i.
          let (c, j, k) = both.0 i in
          (c, j, cluster_envs_sound namespace as' c e s.0 s.1 all_is (m_is c) k),
      λ (c, j, served).
          both.1 (c, j, cluster_envs_complete namespace as' c e s.0 s.1 all_is (m_is c) served),
    )
