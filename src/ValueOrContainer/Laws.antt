-- ===== src/ValueOrContainer/Laws.antt =====
-- Paths, and the two kinds of what they resolve to.
use loro_c.Base.{
  ℕ, ◌≡◌, refl, ◌≤◌, leb, true, Option, none, some, List, [], ◌∷◌, length, arith, take,
}
use loro_c.World.{
  Loro, World, Ptr, null_ptr, update, value, container, value_or_container, ValueOrContainer,
  plain_value, live_container, Index, key, seq, node_index, Call, returns, panics,
}
use loro_c.Error.{set_last_error}
use loro_c.Abi.{and_then, call}
use loro_c.Abi.Laws.{Returns, Points, AfterPanic, Ends, bind, goes, guarded, unwinding}
use loro_c.Abi.Contract.{Failed, failed}
use loro_c.Abi.Steps.{alloc_any, deref_at, fail_any}
use loro_c.Value.Args.{StringArg, string_argument}
use loro_c.Value.Json.Steps.{string_or}
use loro_c.Subscribe.{as_doc}
use loro_c.ValueOrContainer.{
  LoroPathComponent, LoroPathComponentKind, loro_path_key, loro_path_seq, loro_path_node, Paths,
  as_value_or_container, tree_id_to_loro, index_of, indices_of, read_components, box_resolved,
  is_container, box_container, box_plain_value, loro_doc_get_by_path,
  loro_value_or_container_is_container, loro_value_or_container_get_container,
  loro_value_or_container_get_value,
}

abbrev pub keyed : Option (List ℕ) → Option Index
keyed none = none
keyed (some k) = some (key k)

-- The index that a component stands for; none where its key is no string.
abbrev pub index :
    {loro : Loro} → World loro → LoroPathComponentKind → LoroPathComponent → Option Index
index w loro_path_key c = keyed (string_argument w c.key c.key_len)
index w loro_path_seq c = some (seq c.seq)
index w loro_path_node c = some (node_index (tree_id_to_loro c.node))

abbrev pub and_index : Option Index → Option (List Index) → Option (List Index)
and_index none is = none
and_index (some i) none = none
and_index (some i) (some is) = some (i ∷ is)

-- The indices of a path; none as soon as one component has none.
abbrev pub indices : {loro : Loro} → World loro → List LoroPathComponent → Option (List Index)
indices w [] = some []
indices w (c ∷ cs) = and_index (index w c.kind c) (indices w cs)

-- The keys of a path are strings as the C API asks for them.
abbrev pub PathArg : {loro : Loro} → World loro → List LoroPathComponent → Type 0
PathArg w [] = Unit
PathArg w (c ∷ cs) = StringArg w c.key c.key_len × PathArg w cs

module _ {loro : Loro} {E : Ptr → World loro → Type 0} {U : World loro → Type 0}
    (w : World loro) where
  index_any :
      {Q : Index → World loro → Type 0} (kind : LoroPathComponentKind) (c : LoroPathComponent)
      → StringArg w c.key c.key_len
      → (index w kind c ≡ none → (message : List ℕ) → E null_ptr (set_last_error message w))
      → ((i : Index) → index w kind c ≡ some i → Q i w)
      → Ends ⊥ E U Q (index_of kind c w)
  unfolding index_of
  index_any loro_path_key c arg bad good = bind (
      string_or w c.key c.key_len null_ptr arg (λ e. bad (rw e refl) _)
        λ s e. goes (good _ (rw e refl)))
  index_any loro_path_seq c arg bad good = goes (good _ refl)
  index_any loro_path_node c arg bad good = goes (good _ refl)

  indices_any :
      (cs : List LoroPathComponent) {Q : List Index → World loro → Type 0}
      → PathArg w cs
      → (indices w cs ≡ none → (message : List ℕ) → E null_ptr (set_last_error message w))
      → ((is : List Index) → indices w cs ≡ some is → Q is w)
      → Ends ⊥ E U Q (indices_of cs w)
  unfolding indices_of
  indices_any [] arg bad good = goes (good [] refl)
  indices_any (c ∷ cs) arg bad good = bind (
      index_any c.kind c arg.0 (λ e. bad (rw e refl))
        λ i e. bind (
          indices_any cs arg.1 (λ f. bad (rw (e, f) refl))
            λ is f. goes (good (i ∷ is) (rw (e, f) refl))))

module _ {loro : Loro} (crate : Paths loro) (w : World loro) (d : loro.Doc) where
  -- What the crate found: a new box with it, or null and a message.
  abbrev pub Found : Call (Option (ValueOrContainer loro)) → Ptr → World loro → Type 0
  Found (returns (some v)) q w' =
      (q ≡ w.next) × (w'.heap ≡ update w.heap w.next (some (value_or_container v)))
  Found (returns none) q w' = (q ≡ null_ptr) × Failed w w'
  Found panics q w' = (q ≡ null_ptr) × Failed w w'

  -- The path is asked for if all its components convert.
  abbrev pub Resolves : Option (List Index) → Ptr → World loro → Type 0
  Resolves none q w' = (q ≡ null_ptr) × Failed w w'
  Resolves (some is) q w' = Found (crate.doc_get_by_path d is) q w'

  found_boxed :
      (c : Call (Option (ValueOrContainer loro)))
      → Ends ⊥
          (Found c)
          (AfterPanic (Found c) null_ptr)
          (Found c)
          (and_then (call c w) box_resolved)
  unfolding call box_resolved
  found_boxed (returns (some v)) = bind (goes (alloc_any w _ (refl, refl)))
  found_boxed (returns none) = bind (goes (fail_any w _ _ (refl, failed w _)))
  found_boxed panics = bind (unwinding (refl, failed w _))

  resolved :
      (cs : List LoroPathComponent)
      → PathArg w cs
      → Ends ⊥
          (Resolves (indices w cs))
          (AfterPanic (Resolves (indices w cs)) null_ptr)
          (Resolves (indices w cs))
          (and_then
            (indices_of cs w)
            (λ is w'. and_then (call (crate.doc_get_by_path d is) w') box_resolved))
  resolved cs arg = bind (
      indices_any w cs arg (λ e message. rw e (refl, failed w message))
        λ is e. rw e (found_boxed (crate.doc_get_by_path d is)))

-- A path of `count` components in a live document, each key a string argument as the C API asks for
-- it: if every component converts (a key that is UTF-8, a sequence index, a tree node), the crate
-- `loro` is asked for just the list of their indices, in order, and the result is a new box with what
-- it finds, or null with a message where it finds nothing or panics; if one does not convert, the
-- result is null with a message. Whenever it is null, no box and no variable changed.
pub get_by_path-Resolves :
    {loro : Loro} (crate : Paths loro) (w : World loro) (p : Ptr) (d : loro.Doc)
    (path : List LoroPathComponent) (count : ℕ)
    → Points (as_doc loro) w p d
    → count ≤ length path
    → PathArg w (take count path)
    → Returns
        (Resolves crate w d (indices w (take count path)))
        (loro_doc_get_by_path crate p (some path) count w)
unfolding loro_doc_get_by_path read_components
get_by_path-Resolves {loro} crate w p d path count at_p le arg = guarded _ (
    bind (
      deref_at w (as_doc loro) p _ at_p (
        bind (rw (fits count (length path) le) (goes (resolved crate w d (take count path) arg))))))
  where
    fits : (a b : ℕ) → a ≤ b → leb a b ≡ true
    fits a b h = ground arith

module _ {loro : Loro} (w : World loro) where
  -- The one getter that succeeds on each kind, and how the other fails.
  abbrev pub GivesContainer : ValueOrContainer loro → Ptr → World loro → Type 0
  GivesContainer (plain_value v) q w' = (q ≡ null_ptr) × Failed w w'
  GivesContainer (live_container c) q w' =
      (q ≡ w.next) × (w'.heap ≡ update w.heap w.next (some (container c)))

  abbrev pub GivesValue : ValueOrContainer loro → Ptr → World loro → Type 0
  GivesValue (plain_value v) q w' = (q ≡ w.next) × (w'.heap ≡ update w.heap w.next (some (value v)))
  GivesValue (live_container c) q w' = (q ≡ null_ptr) × Failed w w'

  container_given :
      {U : World loro → Type 0} (v : ValueOrContainer loro)
      → Ends ⊥ (GivesContainer v) U (GivesContainer v) (box_container v w)
  unfolding box_container
  container_given (plain_value v) = fail_any w _ _ (refl, failed w _)
  container_given (live_container c) = alloc_any w _ (refl, refl)

  value_given :
      {U : World loro → Type 0} (v : ValueOrContainer loro)
      → Ends ⊥ (GivesValue v) U (GivesValue v) (box_plain_value v w)
  unfolding box_plain_value
  value_given (plain_value v) = alloc_any w _ (refl, refl)
  value_given (live_container c) = fail_any w _ _ (refl, failed w _)

-- On a live value-or-container, `is_container` tells its kind and changes nothing, and of the two
-- getters just the one for that kind gives a new box with the content; the other returns null with a
-- message, and no box and no variable of the caller changes.
pub kinds-Give :
    {loro : Loro} (w : World loro) (p : Ptr) (v : ValueOrContainer loro)
    → Points (as_value_or_container loro) w p v
    → Returns (λ b w'. (b ≡ is_container v) × (w' ≡ w)) (loro_value_or_container_is_container p w)
      × Returns (GivesContainer w v) (loro_value_or_container_get_container p w)
      × Returns (GivesValue w v) (loro_value_or_container_get_value p w)
unfolding loro_value_or_container_is_container loro_value_or_container_get_container
    loro_value_or_container_get_value
kinds-Give {loro} w p v at_p = (
  guarded _ (bind (deref_at w (as_value_or_container loro) p _ at_p (goes (refl, refl)))),
  guarded _ (bind (deref_at w (as_value_or_container loro) p _ at_p (container_given w v))),
  guarded _ (bind (deref_at w (as_value_or_container loro) p _ at_p (value_given w v))),
)
