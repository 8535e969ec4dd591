-- ===== src/Container/Attach.antt =====
-- loro-c-api/src/macros.rs: `attach_container!`, which attaches a child of any type.
use loro_c.Base.{ℕ, List, ascii, Result, ok, err}
use loro_c.World.{
  Loro, Ptr, null_ptr, container, Container, map_container, list_container, text_container,
  movable_list_container, tree_container, counter_container, unknown_container, Call, returns,
  panics, LoroError, arg_err,
}
use loro_c.Abi.{Body, ◌>>=◌, pure, into_raw, loro_error}
use loro_c.Value.{or_return}
use loro_c.Container.{take}

-- The method that attaches, of a container `C`, at each type of child.
pub record Attaching (loro : Loro) (C : Type 0) : Type 0 where
  pub attach_map : loro.LoroMap → C × Call (Result loro.LoroMap LoroError)
  pub attach_list : loro.LoroList → C × Call (Result loro.LoroList LoroError)
  pub attach_text : loro.LoroText → C × Call (Result loro.LoroText LoroError)
  pub attach_movable_list : loro.LoroMovableList → C × Call (Result loro.LoroMovableList LoroError)
  pub attach_tree : loro.LoroTree → C × Call (Result loro.LoroTree LoroError)
  pub attach_counter : loro.LoroCounter → C × Call (Result loro.LoroCounter LoroError)

abbrev pub not_attachable : List ℕ
not_attachable = ascii "cannot attach a container of unknown type"

module _ {loro : Loro} where
  -- `Result::map` on what the method answers.
  unfoldable pub rewrapped :
      {T : Type 0}
      → (T → Container loro)
      → Call (Result T LoroError)
      → Call (Result (Container loro) LoroError)
  rewrapped wrap (returns (ok t)) = returns (ok (wrap t))
  rewrapped wrap (returns (err e)) = returns (err e)
  rewrapped wrap panics = panics

  -- `$op.map(..)`, beside what the method made of the container.
  unfoldable pub attached :
      {T C : Type 0}
      → (T → Container loro)
      → C × Call (Result T LoroError)
      → C × Call (Result (Container loro) LoroError)
  attached wrap (c, r) = (c, rewrapped wrap r)

  unfoldable pub attach_container :
      {C : Type 0}
      → C
      → Attaching loro C
      → Container loro
      → C × Call (Result (Container loro) LoroError)
  attach_container c op (map_container m) = attached map_container (op.attach_map m)
  attach_container c op (list_container l) = attached list_container (op.attach_list l)
  attach_container c op (text_container t) = attached text_container (op.attach_text t)
  attach_container c op (movable_list_container l) =
      attached movable_list_container (op.attach_movable_list l)
  attach_container c op (tree_container t) = attached tree_container (op.attach_tree t)
  attach_container c op (counter_container n) = attached counter_container (op.attach_counter n)
  attach_container c op (unknown_container _) = (c, returns (err (arg_err not_attachable)))

  -- `match take(child) { Some(c) => c, None => return null }`.
  unfoldable pub child_or_return : Ptr → Body loro Ptr (Container loro)
  child_or_return child = do c ← take child; or_return c null_ptr

  -- The match that ends the functions that attach a child.
  unfoldable pub box_attached : Result (Container loro) LoroError → Body loro Ptr Ptr
  box_attached (ok c) = into_raw (container c)
  box_attached (err e) = do status ← loro_error e; pure null_ptr
