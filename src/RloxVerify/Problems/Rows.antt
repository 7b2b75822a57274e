-- ===== src/RloxVerify/Problems/Rows.antt =====
-- environments/rlox_verify/rlox_verify/__init__.py: a row of `_FALLBACK_PROBLEMS`.
use Prim.Native.String.{String}

pub data Row : Type 0 where
  row : (prompt answer tests : String) → Row
