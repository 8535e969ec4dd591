-- ===== src/Commit.antt =====
-- loro-c-api/src/commit.rs: the options of the next commit, and what a pre-commit callback may do.
-- The two functions that subscribe are in Subscribe.
pub mod Laws
use loro_c.Base.{ℕ, ◌==◌, if◌then◌else◌, Bool, Option, none, some, List, ascii}
use loro_c.Base.Int.{ℤ}
use loro_c.World.{Loro, Ptr, null_ptr, Obj, doc, pre_commit_payload, PreCommitPayload, Call}
use loro_c.Error.{LoroStatus, loro_ok, loro_err_invalid_arg, loro_err_panic}
use loro_c.Abi.{Body, Entry, ◌>>=◌, ◌>>◌, ffi_guard, pure, deref_or, require_out}
use loro_c.Value.{write_bytes, to_vec}
use loro_c.Value.Json.{string_or_return, borrowed_or, mutate}
use loro_c.Subscribe.{as_doc}

pub record LoroCommitOptions : Type 0 where
  pub origin : Ptr
  pub origin_len : ℕ
  pub message : Ptr
  pub message_len : ℕ
  pub timestamp : ℤ
  pub has_timestamp : Bool
  pub immediate_renew : Bool

-- loro::CommitOptions with its builder, the commits of loro::LoroDoc, and the modifier that a
-- pre-commit callback is given.
pub record Commits (loro : Loro) : Type 1 where
  pub CommitOptions : Type 0
  pub options_new : CommitOptions
  pub with_immediate_renew : CommitOptions → Bool → CommitOptions
  pub with_origin : CommitOptions → List ℕ → CommitOptions
  pub with_commit_msg : CommitOptions → List ℕ → CommitOptions
  pub with_timestamp : CommitOptions → ℤ → CommitOptions
  pub doc_commit_with : loro.Doc → CommitOptions → loro.Doc × Call (Unit {0})
  pub doc_set_next_commit_message : loro.Doc → List ℕ → loro.Doc × Call (Unit {0})
  pub doc_set_next_commit_timestamp : loro.Doc → ℤ → loro.Doc × Call (Unit {0})
  pub doc_set_next_commit_origin : loro.Doc → List ℕ → loro.Doc × Call (Unit {0})
  pub doc_set_next_commit_options : loro.Doc → CommitOptions → loro.Doc × Call (Unit {0})
  pub doc_clear_next_commit_options : loro.Doc → loro.Doc × Call (Unit {0})
  pub modifier_set_message :
      loro.PreCommitModifier → List ℕ → loro.PreCommitModifier × Call (Unit {0})
  pub modifier_set_timestamp : loro.PreCommitModifier → ℤ → loro.PreCommitModifier × Call (Unit {0})

abbrev pub as_payload : (loro : Loro) → Obj loro → Option (PreCommitPayload loro)
as_payload loro (pre_commit_payload p) = some p
as_payload loro _ = none

abbrev null_payload_pointer : List ℕ
null_payload_pointer = ascii "null pre-commit payload pointer passed to loro-c-api"

module _ {loro : Loro} where
  unfoldable pub payload_ref : {R : Type 0} → Ptr → R → Body loro R (PreCommitPayload loro)
  payload_ref p r = borrowed_or (as_payload loro) null_payload_pointer p r

  pub loro_pre_commit_payload_change_meta : Ptr → Entry loro Ptr
  loro_pre_commit_payload_change_meta p =
      ffi_guard null_ptr do m ← payload_ref p null_ptr; pure m.change_meta

  pub loro_pre_commit_payload_origin : Ptr → Ptr → Entry loro LoroStatus
  loro_pre_commit_payload_origin p out = ffi_guard loro_err_panic do
    m ← payload_ref p loro_err_invalid_arg
    require_out out loro_err_invalid_arg
    write_bytes out (to_vec m.origin)
    pure loro_ok

  -- A method of the modifier, with the payload that then stands at the pointer.
  unfoldable pub modified :
      PreCommitPayload loro
      → loro.PreCommitModifier × Call (Unit {0})
      → PreCommitPayload loro × Call (Unit {0})
  modified p m = (record p { modifier = m.0 }, m.1)

  module _ (crate : Commits loro) where
    -- `if !p.is_null() { let s = str_from_raw(p, len)?; co = f(co, s); }`.
    unfoldable pub with_text :
        (crate.CommitOptions → List ℕ → crate.CommitOptions)
        → Ptr
        → ℕ
        → crate.CommitOptions
        → Body loro LoroStatus crate.CommitOptions
    with_text f p len co =
        if p == null_ptr
        then pure co
        else (do s ← string_or_return p len loro_err_invalid_arg; pure (f co s))

    pub build_commit_options : LoroCommitOptions → Body loro LoroStatus crate.CommitOptions
    build_commit_options opts = do
      co ←
          with_text crate.with_origin opts.origin opts.origin_len
            (crate.with_immediate_renew crate.options_new opts.immediate_renew)
      co' ← with_text crate.with_commit_msg opts.message opts.message_len co
      pure (if opts.has_timestamp then crate.with_timestamp co' opts.timestamp else co')

    pub loro_doc_set_next_commit_message : Ptr → Ptr → ℕ → Entry loro LoroStatus
    loro_doc_set_next_commit_message p msg msg_len = ffi_guard loro_err_panic do
      d ← deref_or (as_doc loro) p loro_err_invalid_arg
      s ← string_or_return msg msg_len loro_err_invalid_arg
      mutate doc p (crate.doc_set_next_commit_message d s)
      pure loro_ok

    pub loro_doc_set_next_commit_timestamp : Ptr → ℤ → Entry loro LoroStatus
    loro_doc_set_next_commit_timestamp p timestamp = ffi_guard loro_err_panic do
      d ← deref_or (as_doc loro) p loro_err_invalid_arg
      mutate doc p (crate.doc_set_next_commit_timestamp d timestamp)
      pure loro_ok

    pub loro_doc_commit_with : Ptr → LoroCommitOptions → Entry loro LoroStatus
    loro_doc_commit_with p opts = ffi_guard loro_err_panic do
      d ← deref_or (as_doc loro) p loro_err_invalid_arg
      co ← build_commit_options opts
      mutate doc p (crate.doc_commit_with d co)
      pure loro_ok

    pub loro_doc_set_next_commit_origin : Ptr → Ptr → ℕ → Entry loro LoroStatus
    loro_doc_set_next_commit_origin p origin origin_len = ffi_guard loro_err_panic do
      d ← deref_or (as_doc loro) p loro_err_invalid_arg
      s ← string_or_return origin origin_len loro_err_invalid_arg
      mutate doc p (crate.doc_set_next_commit_origin d s)
      pure loro_ok

    pub loro_doc_set_next_commit_options : Ptr → LoroCommitOptions → Entry loro LoroStatus
    loro_doc_set_next_commit_options p opts = ffi_guard loro_err_panic do
      d ← deref_or (as_doc loro) p loro_err_invalid_arg
      co ← build_commit_options opts
      mutate doc p (crate.doc_set_next_commit_options d co)
      pure loro_ok

    pub loro_doc_clear_next_commit_options : Ptr → Entry loro LoroStatus
    loro_doc_clear_next_commit_options p = ffi_guard loro_err_panic do
      d ← deref_or (as_doc loro) p loro_err_invalid_arg
      mutate doc p (crate.doc_clear_next_commit_options d)
      pure loro_ok

    pub loro_pre_commit_payload_set_message : Ptr → Ptr → ℕ → Entry loro LoroStatus
    loro_pre_commit_payload_set_message p msg msg_len = ffi_guard loro_err_panic do
      m ← payload_ref p loro_err_invalid_arg
      s ← string_or_return msg msg_len loro_err_invalid_arg
      mutate pre_commit_payload p (modified m (crate.modifier_set_message m.modifier s))
      pure loro_ok

    pub loro_pre_commit_payload_set_timestamp : Ptr → ℤ → Entry loro LoroStatus
    loro_pre_commit_payload_set_timestamp p timestamp = ffi_guard loro_err_panic do
      m ← payload_ref p loro_err_invalid_arg
      mutate pre_commit_payload p (modified m (crate.modifier_set_timestamp m.modifier timestamp))
      pure loro_ok
