-- ===== src/Sql/Argument/Schemes.antt =====
-- lib/queries.c: the queries with arguments, from locales to system scripts.
use cmdb.Base.{List, [], ◌∷◌}
use cmdb.Sql.{SqlQuery, statement, lint_type, text_type}

unfoldable pub argument_schemes : List SqlQuery
argument_schemes =
    statement
      "SELECT locale_id, locale, country, language, keymap, timezone, cuser, ctime FROM locale WHERE name = ?"
      1 (text_type ∷ [])
    ∷ statement
        "SELECT minimum, maximum, priority, mount_point, filesystem, logical_volume FROM default_part dp LEFT JOIN seed_schemes ss ON ss.def_scheme_id = dp.def_scheme_id WHERE ss.scheme_name = ?"
        1 (text_type ∷ [])
    ∷ statement "SELECT def_scheme_id, lvm, cuser, ctime from seed_schemes where scheme_name = ?" 1
        (text_type ∷ [])
    ∷ statement
        "SELECT poption FROM part_options po LEFT JOIN default_part dp ON po.def_part_id = dp.def_part_id LEFT JOIN seed_schemes ss ON ss.def_scheme_id = dp.def_scheme_id WHERE scheme_name = ? and mount_point = ?"
        2 (text_type ∷ text_type ∷ [])
    ∷ statement
        "SELECT def_part_id, ss.def_scheme_id FROM seed_schemes ss LEFT JOIN default_part dp ON ss.def_scheme_id = dp.def_scheme_id WHERE scheme_name = ? AND mount_point = ?"
        2 (text_type ∷ text_type ∷ [])
    ∷ statement "SELECT lvm FROM seed_schemes WHERE scheme_name = ?" 1 (text_type ∷ [])
    ∷ statement "SELECT def_scheme_id FROM seed_schemes WHERE scheme_name = ?" 1 (text_type ∷ [])
    ∷ statement
        "SELECT def_part_id FROM default_part dp LEFT JOIN seed_schemes ss on dp.def_scheme_id = ss.def_scheme_id WHERE scheme_name = ? AND mount_point = ?"
        2 (text_type ∷ text_type ∷ [])
    ∷ statement
        "SELECT part_options_id FROM part_options WHERE def_scheme_id = ? AND def_part_id = ? AND poption = ?"
        3 (lint_type ∷ lint_type ∷ text_type ∷ [])
    ∷ statement "SELECT bd_id FROM build_domain WHERE domain = ?" 1 (text_type ∷ [])
    ∷ statement
        "SELECT bd_id FROM build_domain WHERE (start_ip >= ? AND end_ip <= ?) OR (start_ip <= ? AND end_ip >= ?) OR (start_ip <= ? AND end_ip >= ?)"
        6 (lint_type ∷ lint_type ∷ lint_type ∷ lint_type ∷ lint_type ∷ lint_type ∷ [])
    ∷ statement
        "SELECT start_ip, end_ip, netmask, gateway, ns, config_ntp, ntp_server, cuser, ctime, muser, mtime FROM build_domain WHERE domain = ?"
        1 (text_type ∷ [])
    ∷ statement
        "SELECT hostname, ip, varient FROM varient v LEFT JOIN build b ON v.varient_id = b.varient_id LEFT JOIN build_ip bi on bi.ip_id = b.ip_id LEFT JOIN build_domain bd ON bi.bd_id = bd.bd_id WHERE bd.domain = ?"
        1 (text_type ∷ [])
    ∷ statement "SELECT id FROM zones WHERE name = ? AND type = ?" 2 (text_type ∷ text_type ∷ [])
    ∷ statement "SELECT rev_zone_id FROM rev_zones WHERE net_range = ? and type = ?" 2
        (text_type ∷ text_type ∷ [])
    ∷ statement "SELECT pri_dns, sec_dns FROM zones WHERE name = ?" 1 (text_type ∷ [])
    ∷ statement "SELECT ttl, serial, refresh, retry, expire, updated FROM zones WHERE name = ?" 1
        (text_type ∷ [])
    ∷ statement
        "SELECT type, host, protocol, service, pri, destination FROM records WHERE zone = (SELECT id FROM zones WHERE name = ?) AND (type = 'NS' OR type = 'MX' OR type = 'SRV')"
        1 (text_type ∷ [])
    ∷ statement
        "SELECT type, host, destination FROM records WHERE type != 'NS' AND type != 'MX' AND type != 'SRV' AND zone = (SELECT id FROM zones WHERE name = ?) ORDER BY type, host"
        1 (text_type ∷ [])
    ∷ statement
        "SELECT name, field, type, arg from system_packages sp LEFT JOIN system_package_conf spc ON sp.syspack_id = spc.syspack_id LEFT JOIN build_domain bd  ON bd.bd_id = spc.bd_id LEFT JOIN system_package_args spa ON spa.syspack_arg_id = spc.syspack_arg_id WHERE domain = ?"
        1 (text_type ∷ [])
    ∷ statement
        "SELECT name, field, type, arg from system_packages sp LEFT JOIN system_package_conf spc ON sp.syspack_id = spc.syspack_id LEFT JOIN build_domain bd  ON bd.bd_id = spc.bd_id LEFT JOIN system_package_args spa ON spa.syspack_arg_id = spc.syspack_arg_id WHERE domain = ? AND name = ?"
        2 (text_type ∷ text_type ∷ [])
    ∷ statement
        "SELECT name, field, type, arg from system_packages sp LEFT JOIN system_package_conf spc ON sp.syspack_id = spc.syspack_id LEFT JOIN build_domain bd  ON bd.bd_id = spc.bd_id LEFT JOIN system_package_args spa ON spa.syspack_arg_id = spc.syspack_arg_id WHERE domain = ? AND name = ? AND field = ?"
        3 (text_type ∷ text_type ∷ text_type ∷ [])
    ∷ statement
        "SELECT field, type FROM system_package_args spa LEFT JOIN system_packages sp ON sp.syspack_id = spa.syspack_id WHERE name = ? ORDER BY field"
        1 (text_type ∷ [])
    ∷ statement "SELECT syspack_id FROM system_packages WHERE name = ?" 1 (text_type ∷ [])
    ∷ statement
        "SELECT syspack_arg_id FROM system_package_args spa LEFT JOIN system_packages sp ON sp.syspack_id = spa.syspack_id WHERE sp.name = ? AND spa.field = ?"
        2 (text_type ∷ text_type ∷ [])
    ∷ statement
        "SELECT domain, alias, no, ssa.arg FROM system_scripts_args ssa LEFT JOIN build_domain bd ON ssa.bd_id = bd.bd_id LEFT JOIN build_type bt ON ssa.bt_id = bt.bt_id LEFT JOIN system_scripts ss ON ssa.systscr_id = ss.systscr_id WHERE name = ? ORDER BY domain, alias, no"
        1 (text_type ∷ [])
    ∷ statement
        "SELECT alias, no, ssa.arg FROM system_scripts_args ssa LEFT JOIN build_domain bd ON ssa.bd_id = bd.bd_id LEFT JOIN build_type bt ON ssa.bt_id = bt.bt_id LEFT JOIN system_scripts ss ON ssa.systscr_id = ss.systscr_id WHERE name = ? AND domain = ? ORDER BY alias, no"
        2 (text_type ∷ text_type ∷ [])
    ∷ statement
        "SELECT name, alias, no, ssa.arg FROM system_scripts_args ssa LEFT JOIN build_domain bd ON ssa.bd_id = bd.bd_id LEFT JOIN build_type bt ON ssa.bt_id = bt.bt_id LEFT JOIN system_scripts ss ON ssa.systscr_id = ss.systscr_id WHERE domain = ? ORDER BY alias, name, no"
        1 (text_type ∷ [])
    ∷ statement "SELECT systscr_id FROM system_scripts WHERE name = ?" 1 (text_type ∷ [])
    ∷ []
