-- ===== src/Style.antt =====
-- loro-c-api/src/style.rs: how the ends of rich-text styles grow.
use loro_c.Base.{ℕ, Option, none, some, List}
use loro_c.World.{Loro, Ptr, null_ptr, Obj, doc, style_config_map, Call}
use loro_c.Error.{LoroStatus, loro_ok, loro_err_invalid_arg, loro_err_utf8, loro_err_panic}
use loro_c.Abi.{Entry, ◌>>=◌, ◌>>◌, ffi_guard, pure, deref_or, into_raw, free_box}
use loro_c.Value.Json.{string_or_return, mutate}
use loro_c.Subscribe.{as_doc}

-- loro::ExpandType, which is all that loro::StyleConfig holds, and the C mirrors of both.
pub data ExpandType : Type 0 where
  before after both none_type : ExpandType

pub data LoroExpandType : Type 0 where
  loro_expand_before loro_expand_after loro_expand_both loro_expand_none : LoroExpandType

pub record LoroStyleConfig : Type 0 where
  pub expand : LoroExpandType

unfoldable pub to_expand_type : LoroExpandType → ExpandType
to_expand_type loro_expand_before = before
to_expand_type loro_expand_after = after
to_expand_type loro_expand_both = both
to_expand_type loro_expand_none = none_type

-- loro::StyleConfigMap, and the two settings of a document.
pub record Styles (loro : Loro) : Type 0 where
  pub style_map_new : loro.StyleConfigMap
  pub style_map_insert :
      loro.StyleConfigMap → List ℕ → ExpandType → loro.StyleConfigMap × Call (Unit {0})
  pub doc_config_text_style : loro.Doc → loro.StyleConfigMap → loro.Doc × Call (Unit {0})
  pub doc_config_default_text_style : loro.Doc → Option ExpandType → loro.Doc × Call (Unit {0})

abbrev pub as_style_config_map : (loro : Loro) → Obj loro → Option loro.StyleConfigMap
as_style_config_map loro (style_config_map m) = some m
as_style_config_map loro _ = none

-- `if config.is_null() { None } else { Some(StyleConfig { .. }) }`.
unfoldable pub style_or_none : Option LoroStyleConfig → Option ExpandType
style_or_none none = none
style_or_none (some c) = some (to_expand_type c.expand)

module _ {loro : Loro} where
  unfoldable pub loro_style_config_map_free : Ptr → Entry loro (Unit {0})
  loro_style_config_map_free p = ffi_guard tt (free_box (as_style_config_map loro) p)

  module _ (crate : Styles loro) where
    unfoldable pub loro_style_config_map_new : Entry loro Ptr
    loro_style_config_map_new = ffi_guard null_ptr (into_raw (style_config_map crate.style_map_new))

    pub loro_style_config_map_insert : Ptr → Ptr → ℕ → LoroStyleConfig → Entry loro LoroStatus
    loro_style_config_map_insert p key key_len config = ffi_guard loro_err_panic do
      m ← deref_or (as_style_config_map loro) p loro_err_invalid_arg
      k ← string_or_return key key_len loro_err_utf8
      mutate style_config_map p (crate.style_map_insert m k (to_expand_type config.expand))
      pure loro_ok

    pub loro_doc_config_text_style : Ptr → Ptr → Entry loro LoroStatus
    loro_doc_config_text_style p map = ffi_guard loro_err_panic do
      d ← deref_or (as_doc loro) p loro_err_invalid_arg
      m ← deref_or (as_style_config_map loro) map loro_err_invalid_arg
      mutate doc p (crate.doc_config_text_style d m)
      pure loro_ok

    pub loro_doc_config_default_text_style : Ptr → Option LoroStyleConfig → Entry loro LoroStatus
    loro_doc_config_default_text_style p config = ffi_guard loro_err_panic do
      d ← deref_or (as_doc loro) p loro_err_invalid_arg
      mutate doc p (crate.doc_config_default_text_style d (style_or_none config))
      pure loro_ok
