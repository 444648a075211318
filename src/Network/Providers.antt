-- ===== src/Network/Providers.antt =====
-- `GetProviders`: what the stream of a query yields, and what the command is answered with.
use dragoonfly.Base.{
  ℕ, ◌+◌, ◌≡◌, refl, ap, ◌∙◌, sym, Bool, true, false, ◌||◌, Bool-cases, inl, inr, String, Option,
  none, some, List, [], ◌∷◌, ◌++◌, map, append-nil, append_assoc, ◌==◌, if◌then◌else◌, arith,
  nat_eq,
}
use dragoonfly.Base.Sets.{contains, insert, contains-insert, beq_refl}
use dragoonfly.Strategy.{PeerId}
use dragoonfly.SendList.Vectors.{count, count-append}
use dragoonfly.Commands.Defs
use dragoonfly.Network.SendBlockTo.{weight}
use dragoonfly.Network.Table.{lookup, erase}
use dragoonfly.Network.Defs.{Channel, Node, get_providers_task}
use dragoonfly.Network.Outside.{Outside}
use dragoonfly.Network.Command.{handle_command}
use dragoonfly.Network.Event.{
  handle_event, handle_query_result, outbound_query_progressed, found_providers,
  finished_with_no_additional_record, get_providers_failed, QueryResult,
}
use dragoonfly.Network.Steps.{yield_new, provider_stream}

contains-append :
    (xs ys : List PeerId) (p : PeerId) → contains (xs ++ ys) p ≡ (contains xs p || contains ys p)
unfolding contains
contains-append [] ys p = refl
contains-append (x ∷ xs) ys p = ground (arith, contains-append xs ys p)

yield_new-count :
    (current hash_set : List PeerId) (p : PeerId)
    → let (after, yielded) = yield_new current hash_set in
      (contains after p ≡ (contains current p || contains hash_set p))
      × (count p yielded + weight (contains current p) ≡ weight (contains after p))
unfolding yield_new contains
yield_new-count current [] p = (ground arith, omega arith)
yield_new-count current (x ∷ hash_set) p = elim (Bool-cases (contains current x)) [
  | inl old ↦ elim (Bool-cases (x == p)) [
    | inl same ↦ ground (arith, old, same, nat_eq.eq_iff x p, yield_new-count current hash_set p)
    | inr other ↦ ground (arith, old, other, yield_new-count current hash_set p)
  ]
  | inr new ↦ ground (
    arith,
    new,
    nat_eq.eq_iff x p,
    contains-insert x p current,
    yield_new-count (insert x current) hash_set p,
  )
]

-- The union of the sets that reach the stream: those before the first error.
abbrev pub union : List (Option (List PeerId)) → List PeerId
union [] = []
union (none ∷ messages) = []
union (some hash_set ∷ messages) = hash_set ++ union messages

provider_stream-count :
    (current : List PeerId) (messages : List (Option (List PeerId))) (p : PeerId)
    → count p (provider_stream current messages) + weight (contains current p)
      ≡ weight (contains current p || contains (union messages) p)
unfolding provider_stream contains
provider_stream-count current [] p = ground arith
provider_stream-count current (none ∷ messages) p = ground arith
provider_stream-count current (some hash_set ∷ messages) p =
    let (after, yielded) = yield_new current hash_set in
    ground (
      arith,
      yield_new-count current hash_set p,
      count-append p yielded (provider_stream after messages),
      contains-append hash_set (union messages) p,
      provider_stream-count after messages p,
    )

-- The reports of a query, in order: sets of providers.
abbrev pub report_all : Outside → ℕ → List (List PeerId) → Node → Node
report_all w id [] n = n
report_all w id (s ∷ sets) n =
    report_all w id sets (handle_event w n (outbound_query_progressed id (found_providers s)))

-- The report that ends a query.
abbrev pub last_result : Bool → QueryResult
last_result true = finished_with_no_additional_record
last_result false = get_providers_failed

-- The union of all sets.
abbrev pub flat : List (List PeerId) → List PeerId
flat [] = []
flat (s ∷ sets) = s ++ flat sets

-- A node whose first query is this one.
abbrev asks : Node → ℕ → Channel → List (Option (List PeerId)) → Node
asks n id c messages = record n {
  pending_get_providers = (id, (c, messages)) ∷ erase id n.pending_get_providers;
}

tell-asks :
    (w : Outside) (n : Node) (id : ℕ) (c : Channel) (ms : List (Option (List PeerId)))
    (s : List PeerId)
    → handle_event w (asks n id c ms) (outbound_query_progressed id (found_providers s))
      ≡ asks n id c (ms ++ some s ∷ [])
unfolding handle_event handle_query_result
tell-asks w n id c ms s = ground (arith, beq_refl id)

report_all-asks :
    (w : Outside) (n : Node) (id : ℕ) (c : Channel) (ms : List (Option (List PeerId)))
    (sets : List (List PeerId))
    → report_all w id sets (asks n id c ms) ≡ asks n id c (ms ++ map some sets)
report_all-asks w n id c ms [] = ap (asks n id c) (sym (append-nil ms))
report_all-asks w n id c ms (s ∷ sets) =
    ap (report_all w id sets) (tell-asks w n id c ms s)
    ∙ report_all-asks w n id c (ms ++ some s ∷ []) sets
    ∙ ap (asks n id c) (append_assoc ms (some s ∷ []) (map some sets))

-- What the stream still reads of a query that ends.
abbrev closing_message : Outside → ℕ → Bool → List (Option (List PeerId))
closing_message w id true = []
closing_message w id false = if w.query_mut id then some [] ∷ [] else none ∷ []

last_result-asks :
    (w : Outside) (n : Node) (id : ℕ) (c : Channel) (ms : List (Option (List PeerId)))
    (finished : Bool)
    → (handle_event w (asks n id c ms) (outbound_query_progressed id (last_result finished))).tasks
      ≡ (c, get_providers_task (ms ++ closing_message w id finished)) ∷ n.tasks
unfolding handle_event handle_query_result
last_result-asks w n id c ms true = ground (arith, beq_refl id, append-nil ms)
last_result-asks w n id c ms false = elim (Bool-cases (w.query_mut id)) [
  | inl q ↦ ground (arith, q, beq_refl id)
  | inr q ↦ ground (arith, q, beq_refl id)
]

union-closing :
    (w : Outside) (id : ℕ) (finished : Bool) (sets : List (List PeerId)) (p : PeerId)
    → contains (union (map some sets ++ closing_message w id finished)) p ≡ contains (flat sets) p
unfolding contains
union-closing w id true [] p = refl
union-closing w id false [] p = ground arith
union-closing w id finished (s ∷ sets) p = ground (
  arith,
  contains-append s (union (map some sets ++ closing_message w id finished)) p,
  contains-append s (flat sets) p,
  union-closing w id finished sets p,
)

-- A command `GetProviders` whose query has a new number, reports sets of providers and then finishes
-- or fails, leaves a task that answers with the union of the sets: each peer of one of them once, and
-- no other.
pub get_providers-union :
    (w : Outside) (n : Node) (c : Channel) (key : String) (sets : List (List PeerId))
    (finished : Bool) (p : PeerId)
    → lookup (w.get_providers key) n.pending_get_providers ≡ none
    → let id = w.get_providers key in
      let asked = handle_command w n c (Defs.get_providers key) in
      let told = report_all w id sets asked in
      (messages : List (Option (List PeerId))) × ((handle_event w told
          (outbound_query_progressed id (last_result finished))).tasks
        ≡ (c, get_providers_task messages) ∷ n.tasks)
      × (count p (provider_stream [] messages) ≡ weight (contains (flat sets) p))
unfolding handle_command contains
get_providers-union w n c key sets finished p fresh =
    let id = w.get_providers key in
    let asked : handle_command w n c (Defs.get_providers key) ≡ asks n id c [] =
      ground (arith, fresh) in
    let messages = map some sets ++ closing_message w id finished in
    (
      messages,
      ap
            (λ m.
              (handle_event w (report_all w id sets m)
                (outbound_query_progressed id (last_result finished))).tasks)
            asked
          ∙ ap (λ m. (handle_event w m (outbound_query_progressed id (last_result finished))).tasks)
              (report_all-asks w n id c [] sets)
          ∙ last_result-asks w n id c (map some sets) finished,
      ground (arith, provider_stream-count [] messages p, union-closing w id finished sets p),
    )
