-- ===== src/Document/Import/Laws.antt =====
-- The imports that hand out a status, and those that do not.
use loro_c.Base.{ℕ, ◌≡◌, refl, Result, ok, err, fun_ext}
use loro_c.World.{Loro, World, Ptr, null_ptr, LoroError}
use loro_c.Abi.{and_then}
use loro_c.ImportStatus.{ImportStatus}
use loro_c.Document.Library.{Documents}
use loro_c.Document.Import.{
  imported, finish_import_status, write_status, loro_doc_import, loro_doc_import_status,
  loro_doc_import_json_updates, loro_doc_import_json_updates_status, loro_doc_import_with,
  loro_doc_import_with_status,
}

module _ {loro : Loro} where
  -- With no variable for the status, the end of an import is the same.
  ends_alike :
      (r : Result ImportStatus LoroError) (w : World loro)
      → finish_import_status r null_ptr w ≡ imported r w
  unfolding imported finish_import_status write_status and_then
  ends_alike (ok status) w = refl
  ends_alike (err e) w = refl

  alike :
      (λ (r : Result ImportStatus LoroError). finish_import_status {loro = loro} r null_ptr)
      ≡ imported
  alike = fun_ext (λ r. fun_ext (ends_alike r))

  -- Importing updates, JSON updates, or updates with an origin, and asking for no import status (a
  -- null `out`), is the same call as the function that hands out none: the same status and the same
  -- world, or undefined behaviour in both, whatever the caller passes and whatever the crate does.
  pub import_status-Agrees :
      (crate : Documents loro) (w : World loro) (p bytes_at : Ptr) (len : ℕ) (origin : Ptr)
      (origin_len : ℕ)
      → (loro_doc_import_status crate p bytes_at len null_ptr w
          ≡ loro_doc_import crate p bytes_at len w)
        × (loro_doc_import_json_updates_status crate p bytes_at len null_ptr w
            ≡ loro_doc_import_json_updates crate p bytes_at len w)
        × (loro_doc_import_with_status crate p bytes_at len origin origin_len null_ptr w
            ≡ loro_doc_import_with crate p bytes_at len origin origin_len w)
  unfolding loro_doc_import loro_doc_import_status loro_doc_import_json_updates
      loro_doc_import_json_updates_status loro_doc_import_with loro_doc_import_with_status
  import_status-Agrees crate w p bytes_at len origin origin_len =
      (rw alike refl, rw alike refl, rw alike refl)
