-- ===== src/Sql/Argument.antt =====
-- lib/queries.c: `argument_queries`, in the order of the enum of include/ailsasql.h.
mod Servers
mod Schemes
mod Zones
mod Builds
mod Details
use cmdb.Base.{List, ◌++◌}
use cmdb.Sql.{SqlQuery}
use cmdb.Sql.Argument.Servers.{argument_servers}
use cmdb.Sql.Argument.Schemes.{argument_schemes}
use cmdb.Sql.Argument.Zones.{argument_zones}
use cmdb.Sql.Argument.Builds.{argument_builds}
use cmdb.Sql.Argument.Details.{argument_details}

unfoldable pub argument_queries : List SqlQuery
unfolding argument_servers argument_schemes argument_zones argument_builds argument_details
argument_queries =
    argument_servers
    ++ (argument_schemes ++ (argument_zones ++ (argument_builds ++ (argument_details))))
