-- ===== src/Abi/Memory.antt =====
-- Writing and undoing an entry of a memory.
use loro_c.Base.{
  ◌≡◌, refl, sym, ap, ◌∙◌, ◌==◌, true, false, ◌≢◌, Bool-cases, inl, inr, Option, none, arith,
  fun_ext,
}
use loro_c.World.{Ptr, update}

pub update-same : {A : Type 0} (f : Ptr → A) (p : Ptr) (a : A) → update f p a p ≡ a
update-same f p a = rw self
  where
    self : (p == p) ≡ true
    self = ground arith

pub update-undo :
    {A : Type 0} (h : Ptr → Option A) (n : Ptr) (x : Option A)
    → h n ≡ none
    → update (update h n x) n none ≡ h
update-undo h n x e = fun_ext (λ q. elim (Bool-cases (n == q)) [
  | inl t ↦ rw t (sym e ∙ ap h (ground arith))
  | inr t ↦ rw t refl
])

pub update-other : {A : Type 0} (f : Ptr → A) (p q : Ptr) (a : A) → q ≢ p → update f p a q ≡ f q
update-other f p q a ne = rw apart
  where
    apart : (p == q) ≡ false
    apart = ground arith

pub update-again :
    {A : Type 0} (f : Ptr → A) (p : Ptr) (a b : A) → update (update f p a) p b ≡ update f p b
update-again f p a b =
    fun_ext (λ q. elim (Bool-cases (p == q)) [ inl t ↦ rw t refl | inr t ↦ rw t refl ])
