-- ===== src/Container/Common.antt =====
-- What the typed containers share: `loro::ContainerTrait`, as the files under
-- loro-c-api/src/container/ use it, and the reads of an entry.
use loro_c.Base.{
  ℕ, ◌==◌, if◌then◌else◌, Bool, true, false, Option, none, some, List, Result, ok, err,
}
use loro_c.World.{
  Loro, Ptr, null_ptr, Obj, doc, subscription, container, value_or_container, LoroValue,
  ValueOrContainer, plain_value, live_container, Call, LoroError, bool_cell, size_cell,
}
use loro_c.Error.{LoroStatus, loro_ok, loro_err_invalid_arg, loro_err_not_found}
use loro_c.Abi.{
  Body, ◌>>=◌, ◌>>◌, pure, fail, call, deref_or, require_out, write_out, into_raw, loro_error,
}
use loro_c.Value.{write_bytes}
use loro_c.Value.Json.{write_value_json, mutate}
use loro_c.Version.Travel.{checkout_status}
use loro_c.Subscribe.{Subscriber, hand_over, held_during}

-- loro::ContainerTrait for one type of container, and its values.
pub record Handled (loro : Loro) (C : Type 0) : Type 0 where
  pub container_id : C → Call loro.ContainerId
  pub is_deleted : C → Call Bool
  pub is_attached : C → Call Bool
  pub get_attached : C → Call (Option C)
  pub container_doc : C → Call (Option loro.Doc)

-- How a handle of the type `C` is boxed and read.
pub record Handle (loro : Loro) (C : Type 0) : Type 0 where
  pub boxed : C → Obj loro
  pub unboxed : Obj loro → Option C

module _ {loro : Loro} where
  unfoldable pub box_optional : {T : Type 0} → (T → Obj loro) → Option T → Body loro Ptr Ptr
  box_optional wrap none = pure null_ptr
  box_optional wrap (some c) = into_raw (wrap c)

  -- `Ok(c) => boxed, Err(e) => { record_loro_error(&e); null }`.
  unfoldable pub box_or_error :
      {T : Type 0} → (T → Obj loro) → Result T LoroError → Body loro Ptr Ptr
  box_or_error wrap (ok c) = into_raw (wrap c)
  box_or_error wrap (err e) = do status ← loro_error e; pure null_ptr

  -- The entry of a map or a list: as JSON, as a handle, as the handle of a container.
  unfoldable pub write_entry_json :
      (ValueOrContainer loro → Call (LoroValue loro.ContainerId))
      → List ℕ
      → Option (ValueOrContainer loro)
      → Ptr
      → Body loro LoroStatus LoroStatus
  write_entry_json deep missing none out = fail missing loro_err_not_found
  write_entry_json deep missing (some v) out = do x ← call (deep v); write_value_json out x

  unfoldable pub box_entry : List ℕ → Option (ValueOrContainer loro) → Body loro Ptr Ptr
  box_entry missing none = fail missing null_ptr
  box_entry missing (some v) = into_raw (value_or_container v)

  unfoldable pub box_entry_container :
      List ℕ → List ℕ → Option (ValueOrContainer loro) → Body loro Ptr Ptr
  box_entry_container missing a_value none = fail missing null_ptr
  box_entry_container missing a_value (some (plain_value _)) = fail a_value null_ptr
  box_entry_container missing a_value (some (live_container c)) = into_raw (container c)

  -- The peer that made or changed an entry.
  unfoldable pub write_editor : Option ℕ → Ptr → Body loro Bool Bool
  write_editor none out = pure false
  write_editor (some peer) out = do write_out out (size_cell peer); pure true

  -- `if !out_present.is_null() { out_present.write(b) }`.
  unfoldable pub write_present : {R : Type 0} → Ptr → Bool → Body loro R (Unit {0})
  write_present out b = if out == null_ptr then pure tt else write_out out (bool_cell b)

  module _ {C : Type 0} (handle : Handle loro C) where
    -- A method that changes the container and answers with nothing or an error.
    unfoldable pub changed_by :
        Ptr → C × Call (Result (Unit {0}) LoroError) → Body loro LoroStatus LoroStatus
    changed_by p change = do r ← mutate handle.boxed p change; checkout_status r

    module _ (methods : Handled loro C) where
      unfoldable pub id_body : Ptr → Ptr → Body loro LoroStatus LoroStatus
      id_body p out = do
        c ← deref_or handle.unboxed p loro_err_invalid_arg
        require_out out loro_err_invalid_arg
        id ← call (methods.container_id c)
        write_bytes out (loro.container_id_text id)
        pure loro_ok

      unfoldable pub attached_body : Ptr → Body loro Ptr Ptr
      attached_body p = do
        c ← deref_or handle.unboxed p null_ptr
        found ← call (methods.get_attached c)
        box_optional handle.boxed found

      unfoldable pub doc_body : Ptr → Body loro Ptr Ptr
      doc_body p = do
        c ← deref_or handle.unboxed p null_ptr
        found ← call (methods.container_doc c)
        box_optional doc found

      unfoldable pub subscribed_to : C → Subscriber → Option loro.Doc → Body loro Ptr Ptr
      subscribed_to c callback none = pure null_ptr
      subscribed_to c callback (some d) = do
        id ← held_during callback (call (methods.container_id c))
        sub ← hand_over callback (loro.doc_subscribe d id)
        into_raw (subscription sub)

      -- The document comes first: without one the callback stays the caller's.
      unfoldable pub subscribe_body : Ptr → Subscriber → Body loro Ptr Ptr
      subscribe_body p callback = do
        c ← deref_or handle.unboxed p null_ptr
        found ← call (methods.container_doc c)
        subscribed_to c callback found
