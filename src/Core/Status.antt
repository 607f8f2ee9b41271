-- ===== src/Core/Status.antt =====
-- include/tda/core/status.h and src/core/status.c.
use c_nad.Prelude.{Bool, true, false}
use Prim.Native.String.{String}

-- tda_Status
pub data Status : Type 0 where
  ok : Status
  no_mem : Status

-- TDA_STATUS_IS_OK; TDA_STATUS_IS_ERR is its negation
abbrev pub is_ok : Status → Bool
is_ok ok = true
is_ok no_mem = false

-- tda_status_to_str, at the enumerators
abbrev pub to_str : Status → String
to_str ok = "TDA_STATUS_OK"
to_str no_mem = "TDA_STATUS_ERR_NO_MEM"
