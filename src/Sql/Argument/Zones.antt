-- ===== src/Sql/Argument/Zones.antt =====
-- lib/queries.c: the queries with arguments, from scripts and zones to addresses.
use cmdb.Base.{List, [], ◌∷◌}
use cmdb.Sql.{SqlQuery, statement, lint_type, text_type}

unfoldable pub argument_zones : List SqlQuery
argument_zones =
    statement
      "SELECT systscr_arg_id FROM system_scripts_args WHERE arg = ? AND no = ? AND systscr_id = ? AND bd_id = ? AND bt_id = ?"
      5 (text_type ∷ lint_type ∷ lint_type ∷ lint_type ∷ lint_type ∷ [])
    ∷ statement
        "SELECT g.name, g.pri_ns, g.sec_ns FROM glue_zones g LEFT JOIN zones z ON z.id = g.zone_id WHERE z.name = ?"
        1 (text_type ∷ [])
    ∷ statement
        "SELECT r.destination FROM records r LEFT JOIN zones z ON r.zone = z.id WHERE z.name = ? AND r.host = ?"
        2 (text_type ∷ text_type ∷ [])
    ∷ statement "SELECT type FROM zones WHERE name = ?" 1 (text_type ∷ [])
    ∷ statement "SELECT serial FROM zones WHERE name = ?" 1 (text_type ∷ [])
    ∷ statement "SELECT serial, pri_dns, prefix, type FROM rev_zones WHERE net_range = ?" 1
        (text_type ∷ [])
    ∷ statement "SELECT host, destination FROM rev_records WHERE rev_zone = ?" 1 (lint_type ∷ [])
    ∷ statement
        "SELECT ttl, pri_dns, sec_dns, serial, refresh, retry, expire, updated FROM rev_zones WHERE net_range = ?"
        1 (text_type ∷ [])
    ∷ statement
        "SELECT host, destination FROM rev_records WHERE rev_zone = (SELECT rev_zone_id FROM rev_zones WHERE net_range = ?) AND zone_index = ?"
        2 (text_type ∷ lint_type ∷ [])
    ∷ statement
        "SELECT host, destination, rev_record_id, rev_zone FROM rev_records WHERE rev_zone = (SELECT rev_zone_id FROM rev_zones WHERE net_range = ?) AND zone_index = ?"
        2 (text_type ∷ lint_type ∷ [])
    ∷ statement
        "SELECT id FROM records WHERE zone = ? AND type = ? AND host = ? AND destination = ?" 4
        (lint_type ∷ text_type ∷ text_type ∷ text_type ∷ [])
    ∷ statement
        "SELECT id FROM records WHERE zone = ? AND type = ? AND host = ? AND destination = ? AND pri = ?"
        5 (lint_type ∷ text_type ∷ text_type ∷ text_type ∷ lint_type ∷ [])
    ∷ statement
        "SELECT id FROM records WHERE zone = ? AND type = ? AND host = ? AND destination = ? AND pri = ? AND protocol = ? AND service = ?"
        7 (lint_type ∷ text_type ∷ text_type ∷ text_type ∷ lint_type ∷ text_type ∷ text_type ∷ [])
    ∷ statement "SELECT id, type FROM records WHERE zone = ? AND host = ?" 2
        (lint_type ∷ text_type ∷ [])
    ∷ statement "SELECT id FROM records WHERE zone = ? AND host = ? AND type = 'A'" 2
        (lint_type ∷ text_type ∷ [])
    ∷ statement "SELECT id FROM records WHERE zone = ? AND type = ? AND host = ?" 3
        (lint_type ∷ text_type ∷ text_type ∷ [])
    ∷ statement "SELECT id FROM records WHERE zone = ? AND type = ? AND host = ? AND pri = ?" 4
        (lint_type ∷ text_type ∷ text_type ∷ lint_type ∷ [])
    ∷ statement
        "SELECT id FROM records WHERE zone = ? AND type = ? AND host = ? AND pri = ? AND protocol = ? AND service = ?"
        6 (lint_type ∷ text_type ∷ text_type ∷ lint_type ∷ text_type ∷ text_type ∷ [])
    ∷ statement
        "SELECT destination, count(*) c FROM records WHERE type = 'A' AND destination LIKE ? GROUP BY destination HAVING c > 1"
        1 (text_type ∷ [])
    ∷ statement
        "SELECT destination, count(*) c FROM records WHERE type = 'A' AND destination = ? GROUP BY destination HAVING c > 1"
        1 (text_type ∷ [])
    ∷ statement
        "SELECT r.host, z.name FROM records r LEFT JOIN zones z ON r.zone = z.id WHERE destination = ?"
        1 (text_type ∷ [])
    ∷ statement "SELECT fqdn FROM preferred_a WHERE ip = ?" 1 (text_type ∷ [])
    ∷ statement "SELECT net_start, net_finish FROM rev_zones WHERE net_range = ?" 1 (text_type ∷ [])
    ∷ statement "SELECT prefix FROM rev_zones WHERE net_range = ?" 1 (text_type ∷ [])
    ∷ statement "SELECT ip, fqdn, record_id FROM preferred_a WHERE ip LIKE ?" 1 (text_type ∷ [])
    ∷ statement
        "SELECT destination, r.id, host, name FROM records r LEFT JOIN zones z ON z.id = r.zone WHERE destination LIKE ?"
        1 (text_type ∷ [])
    ∷ statement "SELECT rev_record_id FROM rev_records WHERE rev_zone = ? AND host = ?" 2
        (lint_type ∷ text_type ∷ [])
    ∷ statement
        "SELECT destination, host, name FROM records r LEFT JOIN zones z ON r.zone = z.id WHERE r.id = ?"
        1 (lint_type ∷ [])
    ∷ statement "SELECT ip_id FROM build_ip WHERE server_id = ?" 1 (lint_type ∷ [])
    ∷ []
