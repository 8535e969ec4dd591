-- ===== src/Version/Ids.antt =====
-- `LoroId`, `LoroIdSpan` and the boxes of loro-c-api/src/version.rs.
use loro_c.Base.{Option, none, some}
use loro_c.World.{
  Loro, Obj, Ptr, OpId, LoroId, CounterSpan, LoroCounterSpan, IdSpan, LoroIdSpan, Call,
  version_vector, frontiers,
}
use loro_c.Abi.{Body, ◌>>◌, call, store}

-- `LoroId::to_loro`, `LoroId::from_loro`.
unfoldable pub to_loro : LoroId → OpId
to_loro id = record { peer = id.peer; counter = id.counter }

unfoldable pub from_loro : OpId → LoroId
from_loro id = record { peer = id.peer; counter = id.counter }

-- `LoroIdSpan::to_loro`.
unfoldable pub span_to_loro : LoroIdSpan → IdSpan
span_to_loro s = record {
  peer = s.peer;
  counter = record { start = s.counter_start; end = s.counter_end };
}

-- The literal `LoroCounterSpan { start: cs.start, end: cs.end }`.
unfoldable pub counter_span : CounterSpan → LoroCounterSpan
counter_span s = record { start = s.start; end = s.end }

abbrev pub as_version_vector : (loro : Loro) → Obj loro → Option loro.VersionVector
as_version_vector loro (version_vector vv) = some vv
as_version_vector loro _ = none

abbrev pub as_frontiers : (loro : Loro) → Obj loro → Option loro.Frontiers
as_frontiers loro (frontiers f) = some f
as_frontiers loro _ = none

module _ {loro : Loro} {R A : Type 0} where
  -- A method of `&mut self`: what it made of the object stays, also when it panics.
  unfoldable pub mutate_vv : Ptr → loro.VersionVector × Call A → Body loro R A
  mutate_vv p (vv, c) = do store p (version_vector vv); call c

  unfoldable pub mutate_frontiers : Ptr → loro.Frontiers × Call A → Body loro R A
  mutate_frontiers p (f, c) = do store p (frontiers f); call c
