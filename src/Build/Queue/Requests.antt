-- ===== src/Build/Queue/Requests.antt =====
-- The queue of src/gz_build_manager.cpp has one request for a script at most, for its newest
-- generation.
use gzscript.Base.{
  ℕ, ◌≡◌, ◌∙◌, refl, sym, ap, subst, ◌==◌, ==_iff, if◌then◌else◌, Bool, true, false, not, ◌&&◌,
  ◌||◌, List, [], ◌∷◌, ◌++◌, Bytes, Option, none, some, is_empty, arith, if_both, if_cases,
  Bool-cases, inl, inr, add64, ◌===◌, ===_refl, ===_iff,
}
use gzscript.Build.Queue.{
  Script, CompileRequest, Manager, Surroundings, is_current, not_on_main, is_active, is_queued,
  enqueue, add_request, queue_compile, queue_saved, queue_each, queue_all, read_source, QueueCall,
  compile_call, saved_call, all_call, perform_all,
}

-- The first request for a script.
unfoldable pub request_of : ℕ → List CompileRequest → Option CompileRequest
request_of id [] = none
request_of id (queued ∷ rest) =
    let later = request_of id rest in if queued.script == id then some queued else later

unfoldable pub has_request : ℕ → List CompileRequest → Bool
has_request id [] = false
has_request id (queued ∷ rest) = queued.script == id || has_request id rest

unfoldable pub IsOnce : List CompileRequest → Type 0
unfolding has_request
IsOnce [] = Unit
IsOnce (queued ∷ rest) = (has_request queued.script rest ≡ false) × IsOnce rest

-- No script is queued twice, and what is queued is the newest generation.
pub record IsOrdered (m : Manager) : Type 0 where
  pub once : IsOnce m.pending
  pub newest :
      (id : ℕ) (r : CompileRequest)
      → request_of id m.pending ≡ some r
      → r.generation ≡ (m.scripts id).compile_generation

request_of-enqueue :
    (id : ℕ) (r : CompileRequest) (q : List CompileRequest)
    → request_of id (enqueue r q) ≡ (if r.script == id then some r else request_of id q)
unfolding request_of enqueue
request_of-enqueue id r [] = refl
request_of-enqueue id r (queued ∷ rest) = ground (arith, request_of-enqueue id r rest)

has_request-enqueue :
    (id : ℕ) (r : CompileRequest) (q : List CompileRequest)
    → has_request id (enqueue r q) ≡ (r.script == id || has_request id q)
unfolding has_request enqueue
has_request-enqueue id r [] = refl
has_request-enqueue id r (queued ∷ rest) = ground (arith, has_request-enqueue id r rest)

enqueue-IsOnce : (r : CompileRequest) (q : List CompileRequest) → IsOnce q → IsOnce (enqueue r q)
unfolding IsOnce enqueue has_request
enqueue-IsOnce r [] h = ground arith
enqueue-IsOnce r (queued ∷ rest) h =
    ground (arith, enqueue-IsOnce r rest h.1, has_request-enqueue queued.script r rest)

has_request-is_queued :
    (id : ℕ) (s : Script) (q : List CompileRequest)
    → is_queued id s q ≡ true
    → has_request id q ≡ true
unfolding is_queued has_request is_current
has_request-is_queued id s [] k = ground arith
has_request-is_queued id s (queued ∷ rest) k = ground (arith, has_request-is_queued id s rest)

-- A request for what a script is now is the one for that script.
request_of-is_queued :
    (id : ℕ) (s : Script) (q : List CompileRequest)
    → IsOnce q
    → is_queued id s q ≡ true
    → (r : CompileRequest) × ((request_of id q ≡ some r) × (is_current id s r ≡ true))
unfolding IsOnce is_queued request_of has_request
request_of-is_queued id s [] h k = ground arith
request_of-is_queued id s (queued ∷ rest) h k = elim (Bool-cases (queued.script == id)) [
  | inl b ↦
      let same : queued.script ≡ id = (==_iff queued.script id).0 b in
      let lone = subst (λ j. has_request j rest ≡ false) same h.0 in
      (queued, (ground arith, ground (arith, lone, has_request-is_queued id s rest)))
  | inr b ↦
      let (r, (e, c)) = request_of-is_queued id s rest h.1 (unfold is_current in ground arith) in
      (r, (ground arith, c))
]

added-request_of :
    (id : ℕ) (m : Manager)
    → (r : CompileRequest) × ((request_of id (add_request id m).pending ≡ some r)
        × (is_current id (m.scripts id) r ≡ true))
unfolding is_current
added-request_of id m =
    let asked : CompileRequest = record {
      script = id;
      resource_path = (m.scripts id).path;
      source = (m.scripts id).source;
      generation = add64 (m.scripts id).compile_generation 1;
      prepared = none;
    } in
    (
      asked,
      (
        ground (arith, request_of-enqueue id asked m.pending),
        ground (arith, ===_refl (m.scripts id).path, ===_refl (m.scripts id).source),
      ),
    )

-- `add_request`, of the queue alone.
newest-enqueue :
    (id j : ℕ) (m : Manager) (r : CompileRequest)
    → IsOrdered m
    → request_of j (add_request id m).pending ≡ some r
    → r.generation ≡ ((add_request id m).scripts j).compile_generation
newest-enqueue id j m r h e =
    let asked : CompileRequest = record {
      script = id;
      resource_path = (m.scripts id).path;
      source = (m.scripts id).source;
      generation = add64 (m.scripts id).compile_generation 1;
      prepared = none;
    } in
    ground (arith, e, h.newest j r, request_of-enqueue j asked m.pending)

add_request-IsOrdered : (id : ℕ) (m : Manager) → IsOrdered m → IsOrdered (add_request id m)
add_request-IsOrdered id m h = record {
  once = enqueue-IsOnce _ m.pending h.once;
  newest = λ j r e. newest-enqueue id j m r h e;
}

errors-IsOrdered :
    (errors : List Bytes) (m : Manager) → IsOrdered m → IsOrdered (record m { errors = errors })
errors-IsOrdered errors m h = record { once = h.once; newest = h.newest }

is_current_same :
    (id : ℕ) (s : Script) (r : CompileRequest)
    → is_current id s r ≡ true
    → (r.resource_path ≡ s.path) × (r.source ≡ s.source)
unfolding is_current
is_current_same id s r c = (
  ground (arith, c, ===_iff r.resource_path s.path),
  ground (arith, c, ===_iff r.source s.source),
)

module _ (w : Surroundings) where
  queue_compile-IsOrdered :
      (o : Option ℕ) (m : Manager) → IsOrdered m → IsOrdered (queue_compile w o m)
  unfolding queue_compile
  queue_compile-IsOrdered none m h =
      if_both IsOrdered (m.shutdown_started || (w.is_shutting_down || w.is_main_thread)) h
        (errors-IsOrdered (m.errors ++ not_on_main ∷ []) m h)
  queue_compile-IsOrdered (some id) m h =
      if_both IsOrdered (m.shutdown_started || w.is_shutting_down) h (
        if_both IsOrdered (not w.is_main_thread)
          (errors-IsOrdered (m.errors ++ not_on_main ∷ []) m h)
          (if_both IsOrdered
            (is_empty (m.scripts id).path
              || (is_active id (m.scripts id) m.active || is_queued id (m.scripts id) m.pending))
            h (add_request-IsOrdered id m h)))

  read_source-generation :
      (id j : ℕ) (m : Manager)
      → ((read_source w id m).scripts j).compile_generation ≡ (m.scripts j).compile_generation
  read_source-generation id j m =
      if_cases (λ (s : Script). s.compile_generation ≡ (m.scripts j).compile_generation) (j == id)
        (λ b. ap (λ i. (m.scripts i).compile_generation) (sym ((==_iff j id).0 b))) (λ b. refl)

  read_source-IsOrdered : (id : ℕ) (m : Manager) → IsOrdered m → IsOrdered (read_source w id m)
  read_source-IsOrdered id m h = record {
    once = h.once;
    newest = λ j r e. h.newest j r e ∙ sym (read_source-generation id j m);
  }

  queue_saved-IsOrdered :
      (o : Option ℕ) (saved : Bytes) (m : Manager)
      → IsOrdered m
      → IsOrdered (queue_saved w o saved m)
  unfolding queue_saved
  queue_saved-IsOrdered none saved m h = h
  queue_saved-IsOrdered (some id) saved m h =
      let path = (m.scripts id).path in
      if_both IsOrdered (not (is_empty path) && (w.absolute_path path === w.absolute_path saved))
        (queue_compile-IsOrdered (some id) m h) h

  queue_each-IsOrdered : (ids : List ℕ) (m : Manager) → IsOrdered m → IsOrdered (queue_each w ids m)
  unfolding queue_each
  queue_each-IsOrdered [] m h = h
  queue_each-IsOrdered (id ∷ ids) m h = queue_each-IsOrdered ids _ (
      if_both IsOrdered (is_empty (m.scripts id).path) h
        (queue_compile-IsOrdered (some id) (read_source w id m) (read_source-IsOrdered id m h)))

  queue_all-IsOrdered : (ids : List ℕ) (m : Manager) → IsOrdered m → IsOrdered (queue_all w ids m)
  unfolding queue_all
  queue_all-IsOrdered ids m h =
      if_both IsOrdered w.is_main_thread (queue_each-IsOrdered ids m h)
        (errors-IsOrdered (m.errors ++ not_on_main ∷ []) m h)

  -- Whatever is queued, in any order, each script has at most one request in the queue, and that
  -- is for its newest generation.
  pub perform_all-IsOrdered :
      (calls : List (QueueCall w)) (m : Manager) → IsOrdered m → IsOrdered (perform_all w calls m)
  unfolding perform_all
  perform_all-IsOrdered [] m h = h
  perform_all-IsOrdered (compile_call o ∷ calls) m h =
      perform_all-IsOrdered calls _ (queue_compile-IsOrdered o m h)
  perform_all-IsOrdered (saved_call o path ∷ calls) m h =
      perform_all-IsOrdered calls _ (queue_saved-IsOrdered o path m h)
  perform_all-IsOrdered (all_call ids ∷ calls) m h =
      perform_all-IsOrdered calls _ (queue_all-IsOrdered ids m h)

  queue_compile-queued :
      (id : ℕ) (m : Manager)
      → (m.shutdown_started || w.is_shutting_down) ≡ false
      → w.is_main_thread ≡ true
      → is_queued id (m.scripts id) m.pending ≡ true
      → queue_compile w (some id) m ≡ m
  unfolding queue_compile
  queue_compile-queued id m running main queued = ground arith

  queue_compile-added :
      (id : ℕ) (m : Manager)
      → (m.shutdown_started || w.is_shutting_down) ≡ false
      → w.is_main_thread ≡ true
      → is_empty (m.scripts id).path ≡ false
      → is_active id (m.scripts id) m.active ≡ false
      → is_queued id (m.scripts id) m.pending ≡ false
      → queue_compile w (some id) m ≡ add_request id m
  unfolding queue_compile
  queue_compile-added id m running main named idle fresh = ground arith

  -- A script with a path that is queued on the main thread, before any shutdown and while no
  -- compiler runs on just what it is now, has a request afterwards, for its path, its source and
  -- its newest generation.
  pub queue_compile-request_of :
      (id : ℕ) (m : Manager)
      → IsOrdered m
      → (m.shutdown_started || w.is_shutting_down) ≡ false
      → w.is_main_thread ≡ true
      → is_empty (m.scripts id).path ≡ false
      → is_active id (m.scripts id) m.active ≡ false
      → (r : CompileRequest) × ((request_of id (queue_compile w (some id) m).pending ≡ some r)
          × ((r.resource_path ≡ (m.scripts id).path)
              × ((r.source ≡ (m.scripts id).source)
                  × (r.generation
                      ≡ ((queue_compile w (some id) m).scripts id).compile_generation))))
  queue_compile-request_of id m h running main named idle =
      let ordered = queue_compile-IsOrdered (some id) m h in
      let (r, (e, c)) = found in
      let (path, source) = is_current_same id (m.scripts id) r c in
      (r, (e, (path, (source, ordered.newest id r e))))
    where
      Found : Manager → Type 0
      Found after =
          (r : CompileRequest) × ((request_of id after.pending ≡ some r)
            × (is_current id (m.scripts id) r ≡ true))

      found : Found (queue_compile w (some id) m)
      found = elim (Bool-cases (is_queued id (m.scripts id) m.pending)) [
        | inl b ↦
            subst Found (sym (queue_compile-queued id m running main b))
              (request_of-is_queued id (m.scripts id) m.pending h.once b)
        | inr b ↦
            subst Found (sym (queue_compile-added id m running main named idle b))
              (added-request_of id m)
      ]
