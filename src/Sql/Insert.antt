-- ===== src/Sql/Insert.antt =====
-- lib/queries.c: `insert_queries`.
use cmdb.Base.{List, [], ◌∷◌, ◌++◌}
use cmdb.Sql.{SqlQuery, statement, text_type, lint_type, sint_type}

unfoldable pub insert_objects : List SqlQuery
insert_objects =
    statement
      "INSERT INTO contacts (name, phone, email, cust_id, cuser, muser) VALUES (?, ?, ?, ?, ?, ?)" 6
      (text_type ∷ text_type ∷ text_type ∷ lint_type ∷ lint_type ∷ lint_type ∷ [])
    ∷ statement
        "INSERT INTO server (name, make, model, vendor, uuid, cust_id, vm_server_id, cuser, muser) VALUES (?, ?, ?, ?, ?, ?, ?, ?, ?)"
        9
        (text_type ∷ text_type ∷ text_type ∷ text_type ∷ text_type ∷ lint_type ∷ lint_type
          ∷ lint_type ∷ lint_type ∷ [])
    ∷ statement "INSERT INTO service_type (service, detail) VALUES (?, ?)" 2
        (text_type ∷ text_type ∷ [])
    ∷ statement "INSERT INTO hard_type (type, class) VALUES (?, ?)" 2 (text_type ∷ text_type ∷ [])
    ∷ statement
        "INSERT INTO vm_server_hosts (vm_server, type, server_id, cuser, muser) VALUES (?, ?, ?, ?, ?)"
        5 (text_type ∷ text_type ∷ lint_type ∷ lint_type ∷ lint_type ∷ [])
    ∷ statement
        "INSERT INTO hardware (server_id, hard_type_id, detail, device, cuser, muser) VALUES (?, ?, ?, ?, ?, ?)"
        6 (lint_type ∷ lint_type ∷ text_type ∷ text_type ∷ lint_type ∷ lint_type ∷ [])
    ∷ statement
        "INSERT INTO services (server_id, cust_id, service_type_id, detail, url, cuser, muser) VALUES (?, ?, ?, ?, ?, ?, ?)"
        7 (lint_type ∷ lint_type ∷ lint_type ∷ text_type ∷ text_type ∷ lint_type ∷ lint_type ∷ [])
    ∷ statement
        "INSERT INTO customer (name, address, city, county, postcode, coid, cuser, muser) VALUES (?, ?, ?, ?, ?, ?, ?, ?)"
        8
        (text_type ∷ text_type ∷ text_type ∷ text_type ∷ text_type ∷ text_type ∷ lint_type
          ∷ lint_type ∷ [])
    ∷ statement
        "INSERT INTO build_os (os, os_version, alias, ver_alias, arch, bt_id, cuser, muser) VALUES (?, ?, ?, ?, ?, ?, ?, ?)"
        8
        (text_type ∷ text_type ∷ text_type ∷ text_type ∷ text_type ∷ lint_type ∷ lint_type
          ∷ lint_type ∷ [])
    ∷ statement
        "INSERT INTO packages (package, varient_id, os_id, cuser, muser) VALUES (?, ?, ?, ?, ?)" 5
        (text_type ∷ lint_type ∷ lint_type ∷ lint_type ∷ lint_type ∷ [])
    ∷ statement "INSERT INTO varient(varient, valias, cuser, muser) VALUES (?, ?, ?, ?)" 4
        (text_type ∷ text_type ∷ lint_type ∷ lint_type ∷ [])
    ∷ statement
        "INSERT INTO locale(locale, country, language, keymap, timezone, name, cuser, muser) VALUES (?, ?, ?, ?, ?, ?, ?, ?)"
        8
        (text_type ∷ text_type ∷ text_type ∷ text_type ∷ text_type ∷ text_type ∷ lint_type
          ∷ lint_type ∷ [])
    ∷ statement "INSERT INTO seed_schemes (scheme_name, lvm, cuser, muser) VALUES (?, ?, ?, ?)" 4
        (text_type ∷ sint_type ∷ lint_type ∷ lint_type ∷ [])
    ∷ statement
        "INSERT INTO default_part (def_scheme_id, minimum, maximum, priority, mount_point, filesystem, logical_volume, cuser, muser) VALUES (?, ?, ?, ?, ?, ?, ?, ?, ?)"
        9
        (lint_type ∷ lint_type ∷ lint_type ∷ lint_type ∷ text_type ∷ text_type ∷ text_type
          ∷ lint_type ∷ lint_type ∷ [])
    ∷ statement
        "INSERT INTO part_options (def_scheme_id, def_part_id, poption, cuser, muser) VALUES (?, ?, ?, ?, ?)"
        5 (lint_type ∷ lint_type ∷ text_type ∷ lint_type ∷ lint_type ∷ [])
    ∷ statement
        "INSERT INTO build_domain (start_ip, end_ip, ns, gateway, netmask, domain, config_ntp, ntp_server, cuser, muser) VALUES (?, ?, ?, ?, ?, ?, ?, ?, ?, ?)"
        10
        (lint_type ∷ lint_type ∷ lint_type ∷ lint_type ∷ lint_type ∷ text_type ∷ sint_type
          ∷ text_type ∷ lint_type ∷ lint_type ∷ [])
    ∷ statement
        "INSERT INTO build_domain (start_ip, end_ip, ns, gateway, netmask, domain, cuser, muser) VALUES (?, ?, ?, ?, ?, ?, ?, ?)"
        8
        (lint_type ∷ lint_type ∷ lint_type ∷ lint_type ∷ lint_type ∷ text_type ∷ lint_type
          ∷ lint_type ∷ [])
    ∷ statement
        "INSERT INTO zones (name, pri_dns, sec_dns, refresh, retry, expire, ttl, serial, type, cuser, muser) VALUES (?, ?, ?, ?, ?, ?, ?, ?, ?, ?, ?)"
        11
        (text_type ∷ text_type ∷ text_type ∷ lint_type ∷ lint_type ∷ lint_type ∷ lint_type
          ∷ lint_type ∷ text_type ∷ lint_type ∷ lint_type ∷ [])
    ∷ statement
        "INSERT INTO zones (name, pri_dns, sec_dns, refresh, retry, expire, ttl, serial, type, master, cuser, muser) VALUES (?, ?, ?, ?, ?, ?, ?, ?, ?, ?, ?, ?)"
        12
        (text_type ∷ text_type ∷ text_type ∷ lint_type ∷ lint_type ∷ lint_type ∷ lint_type
          ∷ lint_type ∷ text_type ∷ text_type ∷ lint_type ∷ lint_type ∷ [])
    ∷ statement "INSERT INTO system_packages (name, cuser, muser) VALUES (?, ?, ?)" 3
        (text_type ∷ lint_type ∷ lint_type ∷ [])
    ∷ statement
        "INSERT INTO system_package_args (field, type, syspack_id, cuser, muser) VALUES (?, ?, ?, ?, ?)"
        5 (text_type ∷ text_type ∷ lint_type ∷ lint_type ∷ lint_type ∷ [])
    ∷ statement
        "INSERT INTO system_package_conf (arg, syspack_id, syspack_arg_id, bd_id, cuser, muser) VALUES (?, ?, ?, ?, ?, ?)"
        6 (text_type ∷ lint_type ∷ lint_type ∷ lint_type ∷ lint_type ∷ lint_type ∷ [])
    ∷ statement "INSERT INTO system_scripts(name, cuser, muser) VALUES (?, ?, ?)" 3
        (text_type ∷ lint_type ∷ lint_type ∷ [])
    ∷ statement
        "INSERT INTO system_scripts_args(arg, no, systscr_id, bd_id, bt_id, cuser, muser) VALUES (?, ?, ?, ?, ?, ?, ?)"
        7 (text_type ∷ lint_type ∷ lint_type ∷ lint_type ∷ lint_type ∷ lint_type ∷ lint_type ∷ [])
    ∷ statement
        "INSERT INTO rev_zones (net_range, prefix, net_start, start_ip, net_finish, finish_ip, pri_dns, sec_dns, serial, refresh, retry, expire, ttl, type, master, valid, cuser, muser) VALUES (?, ?, ?, ?, ?, ?, ?, ?, ?, ?, ?, ?, ?, ?, ?, ?, ?, ?)"
        18
        (text_type ∷ text_type ∷ text_type ∷ lint_type ∷ text_type ∷ lint_type ∷ text_type
          ∷ text_type ∷ lint_type ∷ lint_type ∷ lint_type ∷ lint_type ∷ lint_type ∷ text_type
          ∷ text_type ∷ text_type ∷ lint_type ∷ lint_type ∷ [])
    ∷ statement
        "INSERT INTO records (zone, type, host, destination, cuser, muser) VALUES (?, ?, ?, ?, ?, ?)"
        6 (lint_type ∷ text_type ∷ text_type ∷ text_type ∷ lint_type ∷ lint_type ∷ [])
    ∷ statement
        "INSERT INTO records (zone, type, host, destination, pri, cuser, muser) VALUES (?, ?, ?, ?, ?, ?, ?)"
        7 (lint_type ∷ text_type ∷ text_type ∷ text_type ∷ lint_type ∷ lint_type ∷ lint_type ∷ [])
    ∷ statement
        "INSERT INTO records (zone, type, host, destination, pri, protocol, service, cuser, muser) VALUES (?, ?, ?, ?, ?, ?, ?, ?, ?)"
        9
        (lint_type ∷ text_type ∷ text_type ∷ text_type ∷ lint_type ∷ text_type ∷ text_type
          ∷ lint_type ∷ lint_type ∷ [])
    ∷ statement
        "INSERT INTO rev_records (rev_zone, zone_index, host, destination, cuser, muser) VALUES (?, ?, ?, ?, ?, ?)"
        6 (lint_type ∷ lint_type ∷ text_type ∷ text_type ∷ lint_type ∷ lint_type ∷ [])
    ∷ []

unfoldable pub insert_links : List SqlQuery
insert_links =
    statement
      "INSERT INTO glue_zones (zone_id, name, pri_ns, sec_ns, pri_dns, sec_dns, cuser, muser) VALUES (?, ?, ?, ?, ?, ?, ?, ?)"
      8
      (lint_type ∷ text_type ∷ text_type ∷ text_type ∷ text_type ∷ text_type ∷ lint_type ∷ lint_type
        ∷ [])
    ∷ statement
        "INSERT INTO preferred_a (ip, ip_addr, record_id, fqdn, cuser, muser) VALUES (?, ?, ?, ?, ?, ?)"
        6 (text_type ∷ lint_type ∷ lint_type ∷ text_type ∷ lint_type ∷ lint_type ∷ [])
    ∷ statement "INSERT INTO disk_dev (server_id, device, lvm) VALUES (?, ?, ?)" 3
        (lint_type ∷ text_type ∷ sint_type ∷ [])
    ∷ statement
        "INSERT INTO build_ip (ip, hostname, domainname, bd_id, server_id, cuser, muser) VALUES (?, ?, ?, ?, ?, ?, ?)"
        7 (lint_type ∷ text_type ∷ text_type ∷ lint_type ∷ lint_type ∷ lint_type ∷ lint_type ∷ [])
    ∷ statement
        "INSERT INTO build (server_id, net_inst_int, mac_addr, varient_id, os_id, locale_id, def_scheme_id, ip_id, cuser, muser) VALUES (?, ?, ?, ?, ?, ?, ?, ?, ?, ?)"
        10
        (lint_type ∷ text_type ∷ text_type ∷ lint_type ∷ lint_type ∷ lint_type ∷ lint_type
          ∷ lint_type ∷ lint_type ∷ lint_type ∷ [])
    ∷ statement "INSERT INTO default_os (os_id, cuser, muser) VALUES (?, ?, ?)" 3
        (lint_type ∷ lint_type ∷ lint_type ∷ [])
    ∷ statement "INSERT INTO default_scheme (def_scheme_id, cuser, muser) VALUES (?, ?, ?)" 3
        (lint_type ∷ lint_type ∷ lint_type ∷ [])
    ∷ statement "INSERT INTO default_varient (varient_id, cuser, muser) VALUES (?, ?, ?)" 3
        (lint_type ∷ lint_type ∷ lint_type ∷ [])
    ∷ statement "INSERT INTO default_domain (bd_id, cuser, muser) VALUES (?, ?, ?)" 3
        (lint_type ∷ lint_type ∷ lint_type ∷ [])
    ∷ statement "INSERT INTO default_customer(cust_id, cuser, muser) VALUES (?, ?, ?)" 3
        (lint_type ∷ lint_type ∷ lint_type ∷ [])
    ∷ statement
        "INSERT INTO identity(server_id, username, pass, hash, cuser, muser) VALUES (?, ?, ?, ?, ?, ?)"
        6 (lint_type ∷ text_type ∷ text_type ∷ text_type ∷ lint_type ∷ lint_type ∷ [])
    ∷ []

unfoldable pub insert_queries : List SqlQuery
unfolding insert_objects insert_links
insert_queries = insert_objects ++ insert_links
