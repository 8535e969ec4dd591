-- ===== src/Version/Spans/Sorted.antt =====
-- The order of a hash map does not reach the JSON of a difference of version vectors.
use loro_c.Base.{
  ℕ, ◌≡◌, refl, sym, ap, ◌∙◌, ◌≢◌, ◌≤◌, leb, List, [], ◌∷◌, map, arith, Bool-cases, true, false,
  inl, inr,
}
use mathlib.Core.HLevel.{¬_prop}
use mathlib.Core.List.{Permᴰ, Pairwise, mem-cons_self}
use mathlib.Core.List.Perm
use mathlib.Core.List.Permᴰ
use loro_c.World.{CounterSpan, array}
use loro_c.Version.Spans.{
  insert_by_peer, sort_by_peer, spans_to_json_array, json_items, span_to_json,
}

abbrev pub DistinctPeers : List (ℕ × CounterSpan) → Type 0
DistinctPeers = Pairwise (λ a b. a.0 ≢ b.0)

insert_comm :
    (a b : ℕ × CounterSpan) (l : List (ℕ × CounterSpan))
    → a.0 ≢ b.0
    → insert_by_peer a (insert_by_peer b l) ≡ insert_by_peer b (insert_by_peer a l)
unfolding insert_by_peer
insert_comm a b [] ne = ground arith
insert_comm a b (c ∷ l) ne = ground (arith, insert_comm a b l ne)

distinct-Perm : {l m : List (ℕ × CounterSpan)} → Permᴰ l m → DistinctPeers l → DistinctPeers m
distinct-Perm d = (Perm.Pairwise-iff (λ a b. ¬_prop) (λ a b h e. h (sym e)) ∣ d ∣₁).0

sort-Perm :
    {l m : List (ℕ × CounterSpan)} → Permᴰ l m → DistinctPeers l → sort_by_peer l ≡ sort_by_peer m
unfolding sort_by_peer
sort-Perm Permᴰ.nil h = refl
sort-Perm (Permᴰ.cons {a} {b} {l₂} e d) (Pairwise.cons h p) =
    ap (insert_by_peer a) (sort-Perm d p) ∙ ap (λ x. insert_by_peer x (sort_by_peer l₂)) e
sort-Perm (Permᴰ.swap {a} {b} {a' = c} {b' = f} {l} e g) (Pairwise.cons h p) =
    insert_comm a b (sort_by_peer l) (h b mem-cons_self)
    ∙ ap (λ x. insert_by_peer x (insert_by_peer a (sort_by_peer l))) g
    ∙ ap (λ x. insert_by_peer c (insert_by_peer x (sort_by_peer l))) e
sort-Perm (Permᴰ.trans d d') h = sort-Perm d h ∙ sort-Perm d' (distinct-Perm d h)

-- At least `n` in front of every entry.
unfoldable pub Above : ℕ → List (ℕ × CounterSpan) → Type 0
Above n [] = Unit
Above n (e ∷ es) = (n ≤ e.0) × Above n es

unfoldable pub IsSorted : List (ℕ × CounterSpan) → Type 0
IsSorted [] = Unit
IsSorted (e ∷ es) = Above e.0 es × IsSorted es

Above-trans : {m n : ℕ} (es : List (ℕ × CounterSpan)) → m ≤ n → Above n es → Above m es
unfolding Above
Above-trans [] h a = tt
Above-trans (e ∷ es) h (a, r) = (omega arith, Above-trans es h r)

Above-insert :
    {n : ℕ} (e : ℕ × CounterSpan) (es : List (ℕ × CounterSpan))
    → n ≤ e.0
    → Above n es
    → Above n (insert_by_peer e es)
unfolding Above insert_by_peer
Above-insert e [] h a = (h, tt)
Above-insert e (f ∷ es) h (a, r) = elim (Bool-cases (leb e.0 f.0)) [
  | inl t ↦ rw (t, Above) (h, (a, r))
  | inr t ↦ rw (t, Above) (a, Above-insert e es h r)
]

insert-IsSorted :
    (e : ℕ × CounterSpan) (es : List (ℕ × CounterSpan))
    → IsSorted es
    → IsSorted (insert_by_peer e es)
unfolding IsSorted Above insert_by_peer
insert-IsSorted e [] h = (tt, tt)
insert-IsSorted e (f ∷ es) (a, r) = elim (Bool-cases (leb e.0 f.0)) [
  | inl t ↦ rw (t, IsSorted) ((lower t, Above-trans es (lower t) a), (a, r))
  | inr t ↦ rw (t, IsSorted) (Above-insert e es (upper t) a, insert-IsSorted e es r)
]
  where
    lower : leb e.0 f.0 ≡ true → e.0 ≤ f.0
    lower h = ground arith

    upper : leb e.0 f.0 ≡ false → f.0 ≤ e.0
    upper h = ground arith

sort-IsSorted : (es : List (ℕ × CounterSpan)) → IsSorted (sort_by_peer es)
unfolding IsSorted sort_by_peer
sort-IsSorted [] = tt
sort-IsSorted (e ∷ es) = insert-IsSorted e (sort_by_peer es) (sort-IsSorted es)

insert-Permᴰ :
    (e : ℕ × CounterSpan) (es : List (ℕ × CounterSpan)) → Permᴰ (e ∷ es) (insert_by_peer e es)
unfolding insert_by_peer
insert-Permᴰ e [] = Permᴰ.cons refl Permᴰ.nil
insert-Permᴰ e (f ∷ es) = elim (Bool-cases (leb e.0 f.0)) [
  | inl t ↦ rw t (Permᴰ.refl _)
  | inr t ↦ rw t (Permᴰ.trans (Permᴰ.swap refl refl) (Permᴰ.cons refl (insert-Permᴰ e es)))
]

sort-Permᴰ : (es : List (ℕ × CounterSpan)) → Permᴰ es (sort_by_peer es)
unfolding sort_by_peer
sort-Permᴰ [] = Permᴰ.nil
sort-Permᴰ (e ∷ es) =
    Permᴰ.trans (Permᴰ.cons refl (sort-Permᴰ es)) (insert-Permᴰ e (sort_by_peer es))

-- The sort keeps the entries of a span map and puts their peers in ascending order.
pub sort_by_peer-IsSorted :
    (es : List (ℕ × CounterSpan)) → Permᴰ es (sort_by_peer es) × IsSorted (sort_by_peer es)
sort_by_peer-IsSorted es = (sort-Permᴰ es, sort-IsSorted es)

-- Two listings of the same span map, whose peers are distinct, give the same JSON array: the order
-- in which the hash map is walked does not show.
pub spans_to_json_array-Perm :
    (l m : List (ℕ × CounterSpan))
    → Permᴰ l m
    → DistinctPeers l
    → spans_to_json_array l ≡ spans_to_json_array m
unfolding spans_to_json_array
spans_to_json_array-Perm l m d h =
    ap (λ es. array (json_items (map (λ e. span_to_json e.0 e.1.start e.1.end) es))) (sort-Perm d h)
