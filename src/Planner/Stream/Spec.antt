-- ===== src/Planner/Stream/Spec.antt =====
-- What a `RawStreamGraph` stands for: the list of its nodes, each with the ids of its parents. The
-- edges, the sources, the map of operators and the next id are read off the list.
use rlink_rs.Prelude.{
  get_elem?-append, map_All, ℕ, suc, ◌+◌, ◌<◌, ◌≡◌, refl, sym, ap, ◌∙◌, Bool, true, false, some,
  List, [], ◌∷◌, ◌++◌, length, get_elem?, arith, All, All-append, if◌then◌else◌,
}
use mathlib.Core.List.{append_assoc, append-nil}
use rlink_rs.Planner.Dag.{Ends}
use rlink_rs.Planner.Operators.{
  StreamOperator, OperatorType, sink, operator_type_of, StreamNode, stream_source, stream_flat_map,
  stream_filter, stream_co_process, stream_key_by, stream_reduce, stream_watermark_assigner,
  stream_window_assigner, stream_sink, is_source,
}
use rlink_rs.Planner.Stream.{is_source_type, push_user_source}

-- An edge from each parent
abbrev pub edges_to : ℕ → List ℕ → List (Ends Unit)
edges_to id [] = []
edges_to id (p ∷ ps) = (p, (id, tt)) ∷ edges_to id ps

unfoldable pub edges_of : List StreamNode → List (Ends Unit)
edges_of [] = []
edges_of (n ∷ ns) = edges_to n.id n.parent_ids ++ edges_of ns

unfoldable pub sources_of : List StreamNode → List ℕ
sources_of [] = []
sources_of (n ∷ ns) =
    let rest = sources_of ns in if is_source_type n.operator_type then n.id ∷ rest else rest

abbrev pub with_user_source : List ℕ → ℕ → List ℕ → List ℕ
with_user_source [] id rest = id ∷ rest
with_user_source (p ∷ ps) id rest = rest

unfoldable pub user_sources_of : List StreamNode → List ℕ
user_sources_of [] = []
user_sources_of (n ∷ ns) =
    let rest = user_sources_of ns in
    if is_source_type n.operator_type then with_user_source n.parent_ids n.id rest else rest

-- The node with this id has this type.
abbrev pub TypeAt : List StreamNode → ℕ → OperatorType → Type 0
TypeAt ns i t = (n : StreamNode) × (get_elem? ns i ≡ some n) × (n.operator_type ≡ t)

-- Ids count up from `k`, and parents come before their children.
unfoldable pub Numbered : ℕ → List StreamNode → Type 0
Numbered k [] = Unit
Numbered k (n ∷ ns) = ((n.id ≡ k) × All (λ p. p < k) n.parent_ids) × Numbered (suc k) ns

-- A source's parents are sinks, and any other node has one parent.
abbrev pub ParentsFit : List StreamNode → OperatorType → List ℕ → Type 0
ParentsFit ns t ps =
    (is_source_type t ≡ true → All (λ p. TypeAt ns p sink) ps)
    × (is_source_type t ≡ false → length ps ≡ 1)

abbrev pub IsPlan : List StreamNode → Type 0
IsPlan ns = Numbered 0 ns × All (λ n. ParentsFit ns n.operator_type n.parent_ids) ns

pub TypeAt-append :
    (ns ms : List StreamNode) (i : ℕ) (t : OperatorType) → TypeAt ns i t → TypeAt (ns ++ ms) i t
TypeAt-append ns ms i t (n, e, h) = (n, get_elem?-append ns ms i n e, h)

pub ParentsFit-append :
    (ns ms : List StreamNode) (t : OperatorType) (ps : List ℕ)
    → ParentsFit ns t ps
    → ParentsFit (ns ++ ms) t ps
ParentsFit-append ns ms t ps h =
    (λ s. map_All _ _ (λ p. TypeAt-append ns ms p sink) ps (h.0 s), h.1)

pub edges_of-append :
    (ns : List StreamNode) (n : StreamNode)
    → edges_of (ns ++ n ∷ []) ≡ edges_of ns ++ edges_to n.id n.parent_ids
unfolding edges_of
edges_of-append [] n = append-nil _
edges_of-append (m ∷ ns) n =
    ap (λ l. edges_to m.id m.parent_ids ++ l) (edges_of-append ns n)
    ∙ sym (append_assoc (edges_to m.id m.parent_ids) (edges_of ns) (edges_to n.id n.parent_ids))

Numbered-append :
    (k : ℕ) (ns : List StreamNode) (n : StreamNode)
    → Numbered k ns
    → n.id ≡ k + length ns
    → All (λ p. p < k + length ns) n.parent_ids
    → Numbered k (ns ++ n ∷ [])
unfolding Numbered
Numbered-append k [] n h e a = ((omega (arith, e), map_All _ _ (λ p lt. omega (arith, lt)) _ a), tt)
Numbered-append k (m ∷ ns) n h e a = (
  h.0,
  Numbered-append (suc k) ns n h.1 (omega (arith, e)) (map_All _ _ (λ p lt. omega (arith, lt)) _ a),
)

pub IsPlan-append :
    (ns : List StreamNode) (n : StreamNode)
    → IsPlan ns
    → n.id ≡ length ns
    → All (λ p. p < length ns) n.parent_ids
    → ParentsFit ns n.operator_type n.parent_ids
    → IsPlan (ns ++ n ∷ [])
IsPlan-append ns n h e a fit = (
  Numbered-append 0 ns n h.0 (omega (arith, e)) (map_All _ _ (λ p lt. omega (arith, lt)) _ a),
  All-append _ ns (n ∷ [])
      (map_All _ _ (λ m. ParentsFit-append ns (n ∷ []) m.operator_type m.parent_ids) ns h.1)
      (ParentsFit-append ns (n ∷ []) n.operator_type n.parent_ids fit, tt),
)

pub sources_of-append :
    (ns : List StreamNode) (n : StreamNode)
    → sources_of (ns ++ n ∷ [])
      ≡ (if is_source_type n.operator_type then sources_of ns ++ n.id ∷ [] else sources_of ns)
unfolding sources_of
sources_of-append [] n = refl
sources_of-append (m ∷ ns) n =
    ap (λ rest. if is_source_type m.operator_type then m.id ∷ rest else rest)
      (sources_of-append ns n)
    ∙ swap (is_source_type m.operator_type) (is_source_type n.operator_type)
  where
    swap :
        (b c : Bool)
        → (if b
            then m.id ∷ (if c then sources_of ns ++ n.id ∷ [] else sources_of ns)
            else (if c then sources_of ns ++ n.id ∷ [] else sources_of ns))
          ≡ (if c
              then (if b then m.id ∷ sources_of ns else sources_of ns) ++ n.id ∷ []
              else (if b then m.id ∷ sources_of ns else sources_of ns))
    swap true true = refl
    swap true false = refl
    swap false true = refl
    swap false false = refl

push_user_source-with :
    (ps qs : List ℕ) (i j : ℕ) (rest : List ℕ)
    → with_user_source ps i (push_user_source qs j rest)
      ≡ push_user_source qs j (with_user_source ps i rest)
push_user_source-with [] [] i j rest = refl
push_user_source-with [] (q ∷ qs) i j rest = refl
push_user_source-with (p ∷ ps) [] i j rest = refl
push_user_source-with (p ∷ ps) (q ∷ qs) i j rest = refl

pub user_sources_of-append :
    (ns : List StreamNode) (n : StreamNode)
    → user_sources_of (ns ++ n ∷ []) ≡ (
        if is_source_type n.operator_type
        then push_user_source n.parent_ids n.id (user_sources_of ns)
        else user_sources_of ns)
unfolding user_sources_of
user_sources_of-append [] n = first n.parent_ids
  where
    first :
        (ps : List ℕ)
        → (if is_source_type n.operator_type then with_user_source ps n.id [] else [])
          ≡ (if is_source_type n.operator_type then push_user_source ps n.id [] else [])
    first [] = refl
    first (p ∷ ps) = refl
user_sources_of-append (m ∷ ns) n =
    ap
      (λ rest.
        if is_source_type m.operator_type then with_user_source m.parent_ids m.id rest else rest)
      (user_sources_of-append ns n)
    ∙ swap (is_source_type m.operator_type) (is_source_type n.operator_type)
  where
    swap :
        (b c : Bool)
        → (if b
            then with_user_source m.parent_ids m.id (
                if c
                then push_user_source n.parent_ids n.id (user_sources_of ns)
                else user_sources_of ns)
            else (if c
                then push_user_source n.parent_ids n.id (user_sources_of ns)
                else user_sources_of ns))
          ≡ (if c
              then push_user_source n.parent_ids n.id (
                  if b
                  then with_user_source m.parent_ids m.id (user_sources_of ns)
                  else user_sources_of ns)
              else (if b
                  then with_user_source m.parent_ids m.id (user_sources_of ns)
                  else user_sources_of ns))
    swap true true = push_user_source-with m.parent_ids n.parent_ids m.id n.id (user_sources_of ns)
    swap true false = refl
    swap false true = refl
    swap false false = refl

pub is_source-type : (op : StreamOperator) → is_source op ≡ is_source_type (operator_type_of op)
unfolding is_source operator_type_of
is_source-type (stream_source op) = refl
is_source-type (stream_flat_map op) = refl
is_source-type (stream_filter op) = refl
is_source-type (stream_co_process op) = refl
is_source-type (stream_key_by op) = refl
is_source-type (stream_reduce op) = refl
is_source-type (stream_watermark_assigner op) = refl
is_source-type (stream_window_assigner op) = refl
is_source-type (stream_sink op) = refl
