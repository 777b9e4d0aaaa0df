-- ===== src/Sql/Argument/Details.antt =====
-- lib/queries.c: the queries with arguments on packages, identities and overlaps.
use cmdb.Base.{List, [], ◌∷◌}
use cmdb.Sql.{SqlQuery, statement, lint_type, text_type}

unfoldable pub argument_details : List SqlQuery
argument_details =
    statement
      "SELECT sp.name, spa.field, spa.type, spc.arg FROM system_package_args spa   LEFT JOIN system_package_conf spc ON spa.syspack_arg_id = spc.syspack_arg_id   LEFT JOIN system_packages sp ON sp.syspack_id = spc.syspack_id   LEFT JOIN build_ip bd ON spc.bd_id = bd.bd_id   WHERE bd.server_id = ? ORDER BY sp.name, spa.field"
      1 (lint_type ∷ [])
    ∷ statement
        "SELECT ss.name, sa.arg, sa.no FROM system_scripts ss   JOIN system_scripts_args sa ON ss.systscr_id = sa.systscr_id   JOIN build_type bt ON sa.bt_id = bt.bt_id   JOIN build_domain bd ON sa.bd_id = bd.bd_id     WHERE bd.domain = ? AND bt.alias = ? ORDER BY ss.name, sa.no"
        2 (text_type ∷ text_type ∷ [])
    ∷ statement
        "SELECT domain, bt.alias, bt.url FROM build_domain bd   JOIN build_ip bi ON bd.bd_id = bi.bd_id   JOIN build b ON b.ip_id = bi.ip_id   JOIN build_os bo ON bo.os_id = b.os_id   JOIN build_type bt ON bo.bt_id = bt.bt_id     WHERE b.server_id = ?"
        1 (lint_type ∷ [])
    ∷ statement "SELECT mirror from build_type where alias = ?" 1 (text_type ∷ [])
    ∷ statement "SELECT pack_id FROM packages WHERE package = ? AND varient_id = ? and os_id = ?" 3
        (text_type ∷ lint_type ∷ lint_type ∷ [])
    ∷ statement "SELECT identity_id FROM identity WHERE server_id = ? AND username = ?" 2
        (lint_type ∷ text_type ∷ [])
    ∷ statement
        "SELECT username, pass, hash, identity_id FROM identity WHERE server_id = (SELECT server_id FROM server WHERE name = ?)"
        1 (text_type ∷ [])
    ∷ statement "SELECT zone_id FROM glue_zones WHERE name = ?" 1 (text_type ∷ [])
    ∷ statement
        "SELECT rev_zone_id FROM rev_zones WHERE (start_ip >= ? AND finish_ip <= ?) OR (start_ip <= ? AND finish_ip >= ?) OR (start_ip <= ? AND finish_ip >= ?)"
        6 (lint_type ∷ lint_type ∷ lint_type ∷ lint_type ∷ lint_type ∷ lint_type ∷ [])
    ∷ statement
        "SELECT name FROM server WHERE server_id IN (SELECT server_id FROM build WHERE locale_id = (SELECT locale_id FROM locale WHERE name = ?))"
        1 (text_type ∷ [])
    ∷ statement
        "SELECT name FROM server WHERE server_id IN (SELECT server_id FROM build WHERE def_scheme_id = (SELECT def_scheme_id FROM seed_schemes WHERE scheme_name = ?))"
        1 (text_type ∷ [])
    ∷ statement
        "SELECT name FROM server WHERE server_id IN (SELECT server_id FROM build WHERE varient_id = ?)"
        1 (lint_type ∷ [])
    ∷ []
