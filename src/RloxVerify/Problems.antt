-- ===== src/RloxVerify/Problems.antt =====
-- environments/rlox_verify/rlox_verify/__init__.py: the problems that come with the package.
pub mod Rows
mod First
mod Second
mod Third
mod Fourth
mod Fifth
use rlox.Base.{List, ◌++◌}
use Rows.{Row}
use First.{first_problems}
use Second.{second_problems}
use Third.{third_problems}
use Fourth.{fourth_problems}
use Fifth.{fifth_problems}

-- `_FALLBACK_PROBLEMS`
abbrev pub fallback_problems : List Row
fallback_problems =
    first_problems ++ (second_problems ++ (third_problems ++ (fourth_problems ++ fifth_problems)))
