-- ===== src/Windows/Env/Vars.antt =====
-- The names in `required_vars`.
use processx.Base.{arith}
use processx.Windows.Search.{from_first}
use processx.Windows.Env.{required_vars, compare_text}
use processx.Windows.Env.Merge.{All, Ascending, Plain}

pub required_vars-Plain : All Plain required_vars
unfolding from_first required_vars
required_vars-Plain = ground arith

-- The comment at `required_vars` asks for it.
pub required_vars-Ascending : Ascending required_vars
unfolding compare_text required_vars
required_vars-Ascending = ground arith
