-- ===== src/Sql/Argument/Builds.antt =====
-- lib/queries.c: the queries with arguments on the build of a server.
use cmdb.Base.{List, [], ◌∷◌}
use cmdb.Sql.{SqlQuery, statement, lint_type, text_type}

unfoldable pub argument_builds : List SqlQuery
argument_builds =
    statement "SELECT bd_id, start_ip, end_ip FROM build_domain WHERE domain = ?" 1 (text_type ∷ [])
    ∷ statement "SELECT ip FROM build_ip WHERE bd_id = ? ORDER BY ip" 1 (lint_type ∷ [])
    ∷ statement
        "SELECT build_id FROM build WHERE server_id = (SELECT server_id FROM server WHERE name = ?)"
        1 (text_type ∷ [])
    ∷ statement "SELECT detail FROM hardware WHERE server_id = ? AND device = ?" 2
        (lint_type ∷ text_type ∷ [])
    ∷ statement "SELECT locale_id FROM locale WHERE name = ?" 1 (text_type ∷ [])
    ∷ statement
        "SELECT disk_id FROM disk_dev WHERE server_id = (SELECT server_id FROM server WHERE name = ?)"
        1 (text_type ∷ [])
    ∷ statement "SELECT lvm FROM seed_schemes WHERE def_scheme_id = ?" 1 (lint_type ∷ [])
    ∷ statement
        "SELECT ip_id FROM build_ip WHERE server_id = (SELECT server_id FROM server WHERE name = ?)"
        1 (text_type ∷ [])
    ∷ statement
        "SELECT varient_id, os_id, ip_id, locale_id, def_scheme_id, mac_addr, net_inst_int FROM build WHERE server_id = (SELECT server_id FROM server WHERE name = ?)"
        1 (text_type ∷ [])
    ∷ statement "SELECT os, os_version, arch FROM build_os WHERE os_id = ?" 1 (lint_type ∷ [])
    ∷ statement "SELECT domainname, ip FROM build_ip WHERE server_id = ?" 1 (lint_type ∷ [])
    ∷ statement
        "SELECT os, os_version, arch, build_type FROM build_os bo  LEFT JOIN build_type bt ON bt.bt_id = bo.bt_id  LEFT JOIN build b ON b.os_id = bo.os_id WHERE server_id = ?"
        1 (lint_type ∷ [])
    ∷ statement
        "SELECT varient FROM varient v LEFT JOIN build b ON v.varient_id = b.varient_id WHERE b.server_id = ?"
        1 (lint_type ∷ [])
    ∷ statement
        "SELECT locale, language, timezone FROM locale l LEFT JOIN build b ON l.locale_id = b.locale_id where server_id = ?"
        1 (lint_type ∷ [])
    ∷ statement "SELECT cuser, ctime, muser, mtime FROM build WHERE server_id = ?" 1
        (lint_type ∷ [])
    ∷ statement
        "SELECT scheme_name FROM seed_schemes ss LEFT JOIN build b ON b.def_scheme_id = ss.def_scheme_id WHERE b.server_id = ?"
        1 (lint_type ∷ [])
    ∷ statement
        "SELECT mount_point, filesystem, logical_volume FROM default_part dp LEFT JOIN build b ON dp.def_scheme_id = b.def_scheme_id WHERE b.server_id = ?"
        1 (lint_type ∷ [])
    ∷ statement "SELECT DISTINCT alias FROM build_os WHERE os = ?" 1 (text_type ∷ [])
    ∷ statement
        "SELECT alias, os_version, arch FROM build_os WHERE os_id = (SELECT os_id FROM build WHERE server_id = ?)"
        1 (lint_type ∷ [])
    ∷ statement
        "SELECT country, locale, keymap, timezone FROM locale WHERE locale_id = (SELECT locale_id FROM build WHERE server_id = ?)"
        1 (lint_type ∷ [])
    ∷ statement
        "SELECT boot_line, net_inst_int, arg, url, build_type FROM build b LEFT JOIN build_os bo on b.os_id = bo.os_id LEFT JOIN build_type bt on bt.bt_id = bo.bt_id WHERE server_id = ?"
        1 (lint_type ∷ [])
    ∷ statement
        "SELECT locale, language, keymap, country, net_inst_int, ip, ns, netmask, gateway, config_ntp, ntp_server, hostname, domain, mirror, bt.alias, ver_alias, os_version, arch, url  FROM build b LEFT JOIN build_ip bi ON b.ip_id = bi.ip_id  LEFT JOIN build_os bo ON b.os_id = bo.os_id  LEFT JOIN build_domain bd ON bd.bd_id = bi.bd_id  LEFT JOIN locale l ON b.locale_id = l.locale_id  LEFT JOIN build_type bt ON bt.bt_id = bo.bt_id WHERE b.server_id = ?"
        1 (lint_type ∷ [])
    ∷ statement
        "SELECT build_type FROM build_type WHERE bt_id = (SELECT bt_id FROM build_os WHERE os_id = (SELECT os_id FROM build WHERE server_id = ?))"
        1 (lint_type ∷ [])
    ∷ statement
        "SELECT minimum, maximum, priority, mount_point, filesystem, logical_volume FROM default_part WHERE def_scheme_id = (SELECT def_scheme_id FROM build WHERE server_id = ?)"
        1 (lint_type ∷ [])
    ∷ statement
        "SELECT package FROM packages p   LEFT JOIN build b ON p.varient_id = b.varient_id AND p.os_id = b.os_id   WHERE server_id = ?"
        1 (lint_type ∷ [])
    ∷ statement "SELECT device, lvm FROM disk_dev WHERE server_id = ?" 1 (lint_type ∷ [])
    ∷ statement
        "SELECT poption FROM part_options WHERE def_part_id =   (SELECT def_part_id FROM default_part dp    LEFT JOIN seed_schemes ss on dp.def_scheme_id = ss.def_scheme_id    WHERE scheme_name = ? AND mount_point = ?)"
        2 (text_type ∷ text_type ∷ [])
    ∷ []
