-- ===== src/Subscribe/Ownership.antt =====
-- Who owns a callback's `user_data` after a call that subscribes.
use loro_c.Base.{
  ℕ, ◌≡◌, ◌≢◌, ◌⊎◌, inl, inr, refl, if◌then◌else◌, List, [], ◌∷◌, ◌++◌, some, none, Option-cases,
  Bool, true, false, sym, subst, none_not_some, Bool-cases, Result, ok, err,
}
use mathlib.Core.List.{append-nil, append_assoc}
use loro_c.World.{
  Loro, World, Ptr, null_ptr, Event, freed, handed_over, Call, Handed, returns, panics, LoroError,
}
use loro_c.Error.{set_last_error}
use loro_c.Abi.{Step, call}
use loro_c.Abi.Laws.{Returns, NullOrLive, Ends, bind, guarded, goes, exits, unwinding, faults}
use loro_c.Abi.Steps.{deref, emit_any, alloc_any, fail_any}
use loro_c.Value.Args.{StringArg, string_argument, string_then}
use loro_c.Subscribe.{
  Subscriber, as_doc, loro_doc_subscribe, loro_doc_subscribe_root, loro_doc_subscribe_local_update,
  hand_over, drop_subscriber, container_id_or_fail, release_after, invalid_container_id,
}

-- What the destructor of a callback struct does to the trace.
abbrev pub release : Subscriber → List Event
release cb = if cb.free_user_data then freed cb.user_data ∷ [] else []

-- A callback that is handed over, and released there if the crate does not keep it.
abbrev pub moved : Subscriber → Bool → List Event
moved cb keeps = handed_over cb.user_data ∷ (if keeps then [] else release cb)

module _ {loro : Loro} {R V : Type 0} {E : R → World loro → Type 0} {U : World loro → Type 0}
    (w : World loro) (cb : Subscriber) where
  drop_any :
      {Q : Unit {0} → World loro → Type 0}
      → Q tt (record w { trace = w.trace ++ release cb })
      → Ends {R = R} V E U Q (drop_subscriber cb w)
  unfolding drop_subscriber
  drop_any {Q} q = elim (Bool-cases cb.free_user_data) [
    | inl e ↦ rw e (emit_any w _ (rw e at q))
    | inr e ↦ rw e (goes (rw (e, append-nil) at q))
  ]

module _ {loro : Loro} {R V : Type 0} {E : R → World loro → Type 0} {U : World loro → Type 0}
    (w : World loro) (cb : Subscriber) where
  answered :
      {A : Type 0} {Q : A → World loro → Type 0} (c : Call A) (t : List Event)
      → (c ≡ panics → U (record w { trace = t }))
      → ((a : A) → c ≡ returns a → Q a (record w { trace = t }))
      → Ends V E U Q (call c (record w { trace = t }))
  unfolding call
  answered (returns a) t u q = goes (q a refl)
  answered panics t u q = unwinding (u refl)

  pub hand_over_any :
      {A : Type 0} {Q : A → World loro → Type 0} (h : Handed A)
      → (h.outcome ≡ panics → U (record w { trace = w.trace ++ moved cb h.keeps }))
      → ((a : A) → h.outcome ≡ returns a → Q a (record w { trace = w.trace ++ moved cb h.keeps }))
      → Ends V E U Q (hand_over cb h w)
  unfolding hand_over
  hand_over_any {A} {Q} h u q = elim (Bool-cases h.keeps) [
    | inl e ↦
        rw e (bind (emit_any w _ (bind (goes (answered h.outcome _ (rw e at u) (rw e at q))))))
    | inr e ↦ rw e (
        bind (
          emit_any w _ (
            bind (
              drop_any _ cb (
                subst (λ t. Ends V E U Q (call h.outcome (record w { trace = t })))
                  (sym (append_assoc w.trace (handed_over cb.user_data ∷ []) (release cb)))
                  (answered h.outcome _ (rw e at u) (rw e at q)))))))
  ]

pub release_rule :
    {loro : Loro} {R V A : Type 0} {E : R → World loro → Type 0} {U : World loro → Type 0}
    {Q : A → World loro → Type 0} {s : Step loro R A} (cb : Subscriber)
    → Ends V
        (λ r w. E r (record w { trace = w.trace ++ release cb }))
        (λ w. U (record w { trace = w.trace ++ release cb }))
        Q
        s
    → Ends V E U Q (release_after cb s)
unfolding release_after
release_rule cb (goes h) = goes h
release_rule cb (exits {w} h) = bind (drop_any w cb (exits h))
release_rule cb (unwinding {w} h) = bind (drop_any w cb (unwinding h))
release_rule cb (faults v) = faults v

container_id_any :
    {loro : Loro} {V : Type 0} {E : Ptr → World loro → Type 0} {U : World loro → Type 0}
    {Q : loro.ContainerId → World loro → Type 0} (w : World loro) (t : List ℕ)
    → (loro.container_id_parse t ≡ none → E null_ptr (set_last_error (invalid_container_id t) w))
    → ((id : loro.ContainerId) → loro.container_id_parse t ≡ some id → Q id w)
    → Ends V E U Q (container_id_or_fail t w)
unfolding container_id_or_fail
container_id_any {loro} w t bad good = elim (Option-cases (loro.container_id_parse t)) [
  | inl e ↦ rw (e, container_id_or_fail) (fail_any w _ _ (bad e))
  | inr (id, e) ↦ rw (e, container_id_or_fail) (goes (good id e))
]

-- The crate `loro` was handed the callback: it has it still, and it was not released, or it has
-- dropped it, which released it once.
abbrev pub Taken : {loro : Loro} → World loro → Subscriber → World loro → Type 0
Taken w cb w' = (keeps : Bool) × (w'.trace ≡ w.trace ++ moved cb keeps)

-- The callback was released, with a null result, or it went to the crate `loro`.
abbrev pub Consumed : {loro : Loro} → World loro → Subscriber → Ptr → World loro → Type 0
Consumed w cb sub w' = ((sub ≡ null_ptr) × (w'.trace ≡ w.trace ++ release cb)) ⊎ Taken w cb w'

-- The callback was left alone, with a null result, or it went to the crate `loro`.
abbrev pub LeftOrTaken : {loro : Loro} → World loro → Subscriber → Ptr → World loro → Type 0
LeftOrTaken w cb sub w' = ((sub ≡ null_ptr) × (w'.trace ≡ w.trace)) ⊎ Taken w cb w'

-- What the call gives back says who has the callback: null if it was released, exactly once, by the
-- library or, where the crate was handed it, by the crate; a new box if the crate has it.
abbrev pub Settled : {loro : Loro} → World loro → Subscriber → Ptr → World loro → Type 0
Settled w cb sub w' =
    ((sub ≡ null_ptr)
      × ((w'.trace ≡ w.trace ++ release cb) ⊎ (w'.trace ≡ w.trace ++ moved cb false)))
    ⊎ ((sub ≡ w.next) × (w'.trace ≡ w.trace ++ moved cb true))

-- Whether a call has answered with a subscription.
abbrev pub answers : {A : Type 0} → Call A → Bool
answers (returns _) = true
answers panics = false

abbrev pub subscribed : {A : Type 0} → Call (Result A LoroError) → Bool
subscribed (returns (ok _)) = true
subscribed (returns (err _)) = false
subscribed panics = false

-- What the library relies on: the crate keeps a callback that it answers with a subscription for, and
-- has dropped one that it refuses, by an error or a panic, when the call ends.
pub record DropsRefused (loro : Loro) : Type 0 where
  pub pre_commit :
      (d : loro.Doc)
      → (loro.doc_subscribe_pre_commit d).keeps ≡ answers (loro.doc_subscribe_pre_commit d).outcome
  pub first_commit :
      (d : loro.Doc)
      → (loro.doc_subscribe_first_commit_from_peer d).keeps
        ≡ answers (loro.doc_subscribe_first_commit_from_peer d).outcome
  pub jsonpath :
      (d : loro.Doc) (path : List ℕ)
      → (loro.doc_subscribe_jsonpath d path).keeps
        ≡ subscribed (loro.doc_subscribe_jsonpath d path).outcome

abbrev pub Refused : {loro : Loro} → World loro → Ptr → World loro → Type 0
Refused w sub w' = (sub ≡ null_ptr) × (w'.trace ≡ w.trace) × (w'.heap ≡ w.heap)

module _ {loro : Loro} (w : World loro) (cb : Subscriber) where
  module _ (p : Ptr) (live : NullOrLive (as_doc loro) w p) where
    root-LeftOrTaken : Returns (LeftOrTaken w cb) (loro_doc_subscribe_root p cb w)
    unfolding loro_doc_subscribe_root set_last_error
    root-LeftOrTaken = guarded _ (
        bind (
          deref _ (as_doc loro) p _ live (λ _. inl (refl, refl))
            λ d l.
              bind
                (hand_over_any _ cb _ (λ _. inr (_, refl)) λ sub _. alloc_any _ _ (inr (_, refl)))))

    local_update-LeftOrTaken : Returns (LeftOrTaken w cb) (loro_doc_subscribe_local_update p cb w)
    unfolding loro_doc_subscribe_local_update set_last_error
    local_update-LeftOrTaken = guarded _ (
        bind (
          deref _ (as_doc loro) p _ live (λ _. inl (refl, refl))
            λ d l.
              bind
                (hand_over_any _ cb _ (λ _. inr (_, refl)) λ sub _. alloc_any _ _ (inr (_, refl)))))

    module _ (s : Ptr) (len : ℕ) (arg : StringArg w s len) where
      -- The world after the callback was handed over.
      abbrev handed_to : Bool → World loro
      handed_to keeps = record w { trace = w.trace ++ moved cb keeps }

      subscribe-LeftOrTaken : Returns (LeftOrTaken w cb) (loro_doc_subscribe p s len cb w)
      unfolding loro_doc_subscribe set_last_error
      subscribe-LeftOrTaken = guarded _ (
          bind (
            deref _ (as_doc loro) p _ live (λ _. inl (refl, refl))
              λ d l.
                string_then _ s len _ _ arg (λ _. inl (refl, refl))
                  λ t _. bind (
                    container_id_any w t (λ _. inl (refl, refl))
                      λ id _. bind (
                        hand_over_any _ cb _ (λ _. inr (_, refl))
                          λ sub _. alloc_any _ _ (inr (_, refl))))))

      -- The callback structs without `Drop` (events of a container or a document, local updates),
      -- with a document that is null or live and an id argument as the C API asks for it: every call
      -- returns, and either the result is null and no C function was called, so that the callback is
      -- left to the caller, or the crate `loro` was handed it, and has it still, with no C function
      -- called, or has dropped it, with its destructor, if there is one, run exactly once.
      pub plain_structs-LeftOrTaken :
          Returns (LeftOrTaken w cb) (loro_doc_subscribe_root p cb w)
          × Returns (LeftOrTaken w cb) (loro_doc_subscribe_local_update p cb w)
          × Returns (LeftOrTaken w cb) (loro_doc_subscribe p s len cb w)
      plain_structs-LeftOrTaken =
          (root-LeftOrTaken, local_update-LeftOrTaken, subscribe-LeftOrTaken)

      -- A document that is live and a container id that is no string, or that the crate `loro`
      -- cannot parse: `loro_doc_subscribe` returns null, calls no C function, so that `user_data`
      -- is not released, and allocates nothing.
      pub subscribe-Refused :
          p ≢ null_ptr
          → ((t : List ℕ) → string_argument w s len ≡ some t → loro.container_id_parse t ≡ none)
          → Returns (Refused w) (loro_doc_subscribe p s len cb w)
      unfolding loro_doc_subscribe set_last_error
      subscribe-Refused ne bad = guarded _ (
          bind (
            deref _ (as_doc loro) p _ live (λ _. (refl, refl, refl))
              λ d l.
                string_then _ s len _ _ arg (λ _. (refl, refl, refl))
                  λ t is. bind (
                    container_id_any w t (λ _. (refl, refl, refl))
                      λ id e. absurd (none_not_some (bad t is) e))))
