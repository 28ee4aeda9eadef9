-- ===== src/Orchestrator/Engine/Catalog/Named.antt =====
-- Every name in a catalog stands for one tool.
use cratos_ai.Prelude.{
  ℕ, ◌+◌, ◌≤◌, ◌<◌, ◌≡◌, ◌≢◌, ◌⊎◌, refl, Bool, true, false, Option, none, some, List, [], ◌∷◌, ◌++◌,
  String, str_eq, eq_iff, eq_refl, arith, length, length-append, All, All-append, if◌then◌else◌,
  Bool-cases, inl, inr, zero, suc, sort_by,
}
use cratos_ai.Orchestrator.Model.{Target, Device}
use cratos_ai.Orchestrator.Engine.Running.{find_target}
use cratos_ai.Orchestrator.Engine.Catalog.{
  McpTool, CatalogWorld, max_task_mcp_tools, Catalog, add_tool, is_taken, candidate, unique_from,
  unique_name, builtins, comes_first, add_mcp, mcp_target, add_some, integrations, with_listed,
  build_catalog,
}

-- Each name is found with its own target.
abbrev pub Named : Catalog → Type 0
Named c = All (λ (n, t). find_target n c ≡ some t) c

str_eq-apart : (s t : String) → (s ≢ t) → str_eq s t ≡ false
str_eq-apart s t n = elim (Bool-cases (str_eq s t)) [
  | inr e ↦ e
  | inl e ↦ absurd (n ((eq_iff s t).0 e))
]

find-snoc_other :
    (n name : String) (t x : Target) (c : Catalog)
    → find_target n c ≡ some x
    → find_target n (c ++ (name, t) ∷ []) ≡ some x
find-snoc_other n name t x [] e = cc
find-snoc_other n name t x ((m, y) ∷ c) e = elim (Bool-cases (str_eq m n)) [
  | inl s ↦ rw s (rw s at e)
  | inr s ↦ rw s (find-snoc_other n name t x c (rw s at e))
]

find-snoc_own :
    (name : String) (t : Target) (c : Catalog)
    → is_taken name c ≡ false
    → find_target name (c ++ (name, t) ∷ []) ≡ some t
find-snoc_own name t [] e = rw (eq_refl name) refl
find-snoc_own name t ((m, y) ∷ c) e = elim (Bool-cases (str_eq m name)) [
  | inl s ↦ absurd (cc (rw s at e))
  | inr s ↦ rw s (find-snoc_own name t c (rw s at e))
]

found-snoc :
    (name : String) (t : Target) (c rest : Catalog)
    → All (λ (n, x). find_target n c ≡ some x) rest
    → All (λ (n, x). find_target n (c ++ (name, t) ∷ []) ≡ some x) rest
found-snoc name t c [] h = tt
found-snoc name t c ((n, x) ∷ rest) (hx, h) =
    (find-snoc_other n name t x c hx, found-snoc name t c rest h)

add_tool-Named :
    (name description parameters : String) (t : Target) (c : Catalog)
    → is_taken name c ≡ false
    → Named c
    → Named (add_tool name description parameters t c)
unfolding add_tool
add_tool-Named name description parameters t c free h =
    let t' : Target = record t { description = description; parameters = parameters } in
    All-append _ c ((name, t') ∷ []) (found-snoc name t' c c h) (find-snoc_own name t' c free, tt)

add_tool-length :
    (name description parameters : String) (t : Target) (c : Catalog)
    → length (add_tool name description parameters t c) ≡ length c + 1
unfolding add_tool
add_tool-length name description parameters t c =
    let t' : Target = record t { description = description; parameters = parameters } in
    length-append c ((name, t') ∷ [])

-- The catalog without the first entry of the name.
abbrev without : String → Catalog → Catalog
without n [] = []
without n ((m, t) ∷ c) = let rest = without n c in if str_eq m n then c else (m, t) ∷ rest

length-without :
    (n : String) (c : Catalog) → is_taken n c ≡ true → length (without n c) + 1 ≡ length c
length-without n [] h = cc
length-without n ((m, t) ∷ c) h = elim (Bool-cases (str_eq m n)) [
  | inl e ↦ rw e (omega arith)
  | inr e ↦ let k = length-without n c (rw e at h) in rw e (omega (arith, k))
]

taken-without :
    (n other : String) (c : Catalog)
    → str_eq n other ≡ false
    → is_taken other c ≡ true
    → is_taken other (without n c) ≡ true
taken-without n other [] d h = cc
taken-without n other ((m, t) ∷ c) d h = elim (Bool-cases (str_eq m n)) [
  | inl e ↦
      let same : m ≡ n = (eq_iff m n).0 e in
      let apart : str_eq m other ≡ false = rw same d in rw e (rw apart at h)
  | inr e ↦ elim (Bool-cases (str_eq m other)) [
    | inl o ↦ rw e (rw o refl)
    | inr o ↦ rw e (rw o (taken-without n other c d (rw o at h)))
  ]
]

builtins-Named :
    (w : CatalogWorld) (voice : Bool) (devices : List Device) → Named (builtins w voice devices)
unfolding builtins add_tool
builtins-Named w true [] = (refl, (refl, (refl, (refl, (refl, tt)))))
builtins-Named w true (d ∷ ds) = (refl, (refl, (refl, (refl, (refl, (refl, tt))))))
builtins-Named w false [] = (refl, (refl, tt))
builtins-Named w false (d ∷ ds) = (refl, (refl, (refl, tt)))

module _ (w : CatalogWorld)
    (distinct : (base : String) (i j : ℕ) → candidate w base i ≡ candidate w base j → i ≡ j) where
  -- So many candidates, from the i-th, are taken.
  abbrev TakenFrom : ℕ → String → ℕ → Catalog → Type 0
  TakenFrom zero base i c = Unit {0}
  TakenFrom (suc n) base i c = (is_taken (candidate w base i) c ≡ true) × TakenFrom n base (suc i) c

  taken_without :
      (n : ℕ) (base : String) (i j : ℕ) (c : Catalog)
      → i < j
      → TakenFrom n base j c
      → TakenFrom n base j (without (candidate w base i) c)
  taken_without zero base i j c l h = tt
  taken_without (suc n) base i j c l (hj, h) =
      let apart =
        str_eq-apart (candidate w base i) (candidate w base j)
          (λ e. let same = distinct base i j e in absurd (omega (arith, same))) in
      (
        taken-without (candidate w base i) (candidate w base j) c apart hj,
        taken_without n base i (suc j) c (omega arith) h,
      )

  pigeonhole : (n : ℕ) (base : String) (i : ℕ) (c : Catalog) → TakenFrom n base i c → n ≤ length c
  pigeonhole zero base i c h = omega arith
  pigeonhole (suc n) base i c (hi, h) =
      let fewer = length-without (candidate w base i) c hi in
      let rest =
        pigeonhole n base (suc i) (without (candidate w base i) c)
          (taken_without n base i (suc i) c (omega arith) h) in
      omega (arith, fewer, rest)

  unique_from-free :
      (fuel : ℕ) (base : String) (i : ℕ) (c : Catalog)
      → (is_taken (unique_from w fuel base i c) c ≡ false) ⊎ TakenFrom fuel base i c
  unfolding unique_from
  unique_from-free zero base i c = inr tt
  unique_from-free (suc fuel) base i c = elim (Bool-cases (is_taken (candidate w base i) c)) [
    | inr e ↦ rw e (inl e)
    | inl e ↦ elim (unique_from-free fuel base (suc i) c) [
      | inl f ↦ rw e (inl f)
      | inr f ↦ rw e (inr (refl, f))
    ]
  ]

  unique_name-free :
      (integration tool : String) (c : Catalog)
      → is_taken (unique_name w integration tool c) c ≡ false
  unfolding unique_name
  unique_name-free integration tool c =
      let base = w.slugged integration tool in
      elim (unique_from-free (suc (length c)) base 1 c) [
        | inl e ↦ e
        | inr all ↦ let l = pigeonhole (suc (length c)) base 1 c all in absurd (omega (arith, l))
      ]

  add_some-Named :
      (limit : ℕ) (tools : List McpTool) (c : Catalog)
      → Named c
      → Named (add_some w limit tools c) × (length (add_some w limit tools c) ≤ length c + limit)
  unfolding add_some
  add_some-Named limit [] c h = (h, omega arith)
  add_some-Named zero (t ∷ ts) c h = (h, omega arith)
  add_some-Named (suc limit) (t ∷ ts) c h = elim (Bool-cases (w.is_usable t.input_schema)) [
    | inr e ↦ rw e (add_some-Named (suc limit) ts c h)
    | inl e ↦
        let free = unique_name-free t.integration t.name c in
        let one =
          add_tool-Named (unique_name w t.integration t.name c) (w.describe t) t.input_schema
            (mcp_target w t) c free h in
        let (named, short) = add_some-Named limit ts (add_mcp w t c) one in
        let more =
          add_tool-length (unique_name w t.integration t.name c) (w.describe t) t.input_schema
            (mcp_target w t) c in
        rw e (named, omega (arith, short, more))
  ]

  with_listed-Named :
      (limit : ℕ) (c : Catalog) (o : Option (List McpTool))
      → Named c
      → Named (with_listed w limit c o) × (length (with_listed w limit c o) ≤ length c + limit)
  unfolding integrations
  with_listed-Named limit c none h = (h, omega arith)
  with_listed-Named limit c (some tools) h =
      add_some-Named limit (sort_by (comes_first w) tools) c h

  -- Every name that a model is told of runs the tool that it was given for. Where numbering a name
  -- gives a different name each time, a catalog finds each of its names with that name's own target,
  -- so that no integration can take the place of a built-in tool or of another integration's; and it
  -- adds no more tools of integrations to the built-in ones than the limit for voice or for tasks.
  pub build_catalog-Named :
      (voice : Bool) (max_voice_tools : ℕ) (devices : List Device) (listed : Option (List McpTool))
      → let limit = if voice then max_voice_tools else max_task_mcp_tools in
        let c = build_catalog w voice max_voice_tools devices listed in
        Named c × (length c ≤ length (builtins w voice devices) + limit)
  unfolding build_catalog
  build_catalog-Named voice max_voice_tools devices listed =
      with_listed-Named (if voice then max_voice_tools else max_task_mcp_tools)
        (builtins w voice devices) listed (builtins-Named w voice devices)
