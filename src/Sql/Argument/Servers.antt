-- ===== src/Sql/Argument/Servers.antt =====
-- lib/queries.c: the queries with arguments, from contacts to packages.
use cmdb.Base.{List, [], ◌∷◌}
use cmdb.Sql.{SqlQuery, statement, lint_type, text_type}

unfoldable pub argument_servers : List SqlQuery
argument_servers =
    statement
      "SELECT co.name, co.phone, co.email FROM customer cu INNER JOIN contacts co ON co.cust_id = cu.cust_id WHERE cu.coid = ?"
      1 (text_type ∷ [])
    ∷ statement
        "SELECT st.service, s.url, s.detail FROM service_type st \tLEFT JOIN services s ON st.service_type_id = s.service_type_id \tLEFT JOIN server se ON s.server_id = se.server_id \tWHERE se.name = ?"
        1 (text_type ∷ [])
    ∷ statement
        "SELECT ht.class, h.device, h.detail FROM hardware h \tLEFT JOIN hard_type ht ON ht.hard_type_id = h.hard_type_id \tLEFT JOIN server s ON h.server_id = s.server_id \tWHERE s.name = ?"
        1 (text_type ∷ [])
    ∷ statement
        "SELECT s.vendor, s.make, s.model, s.uuid, c.coid, \ts.cuser, s.ctime, s.muser, s.mtime FROM server s \tJOIN customer c ON s.cust_id = c.cust_id \tWHERE s.name = ?"
        1 (text_type ∷ [])
    ∷ statement
        "SELECT s.name, v.varient from varient v \tJOIN build b ON v.varient_id = b.varient_id \tJOIN server s ON b.server_id = s.server_id \tJOIN vm_server_hosts vm ON s.vm_server_id = vm.vm_server_id \tWHERE vm.vm_server = ?"
        1 (text_type ∷ [])
    ∷ statement
        "SELECT name, address, city, county, postcode, cuser, ctime, muser, mtime FROM customer WHERE coid = ?"
        1 (text_type ∷ [])
    ∷ statement "SELECT cust_id FROM customer WHERE coid = ?" 1 (text_type ∷ [])
    ∷ statement
        "SELECT cont_id FROM contacts WHERE name = ? AND phone = ? and email = ? and cust_id = ?" 4
        (text_type ∷ text_type ∷ text_type ∷ lint_type ∷ [])
    ∷ statement "SELECT vm_server_id FROM vm_server_hosts WHERE vm_server = ?" 1 (text_type ∷ [])
    ∷ statement "SELECT service_type_id FROM service_type WHERE service = ? AND detail = ?" 2
        (text_type ∷ text_type ∷ [])
    ∷ statement "SELECT hard_type_id FROM hard_type WHERE type = ? AND class = ?" 2
        (text_type ∷ text_type ∷ [])
    ∷ statement "SELECT server_id FROM server WHERE name = ?" 1 (text_type ∷ [])
    ∷ statement "SELECT hard_type_id FROM hard_type WHERE class = ?" 1 (text_type ∷ [])
    ∷ statement
        "SELECT hard_id FROM hardware WHERE server_id = ? AND hard_type_id = ? AND detail = ? AND device = ?"
        4 (lint_type ∷ lint_type ∷ text_type ∷ text_type ∷ [])
    ∷ statement "SELECT service_type_id FROM service_type WHERE service = ?" 1 (text_type ∷ [])
    ∷ statement
        "SELECT service_id FROM services WHERE server_id = ? AND cust_id = ? AND service_type_id = ? AND detail = ? AND url = ?"
        5 (lint_type ∷ lint_type ∷ lint_type ∷ text_type ∷ text_type ∷ [])
    ∷ statement "SELECT bt_id FROM build_type WHERE alias = ?" 1 (text_type ∷ [])
    ∷ statement "SELECT os_id FROM build_os WHERE os = ? AND arch = ? AND os_version = ?" 3
        (text_type ∷ text_type ∷ text_type ∷ [])
    ∷ statement "SELECT os_id FROM build_os WHERE (os = ? OR alias = ?)" 2
        (text_type ∷ text_type ∷ [])
    ∷ statement
        "SELECT os_id FROM build_os WHERE (os = ? OR alias = ?) AND (os_version = ? OR ver_alias = ?)"
        4 (text_type ∷ text_type ∷ text_type ∷ text_type ∷ [])
    ∷ statement "SELECT os_id FROM build_os WHERE (os = ? OR ALIAS = ?) AND arch = ?" 3
        (text_type ∷ text_type ∷ text_type ∷ [])
    ∷ statement
        "SELECT os_id FROM build_os WHERE (os = ? OR alias = ?) AND (os_version = ? OR ver_alias = ?) AND arch = ?"
        5 (text_type ∷ text_type ∷ text_type ∷ text_type ∷ text_type ∷ [])
    ∷ statement
        "SELECT os_id FROM build_os WHERE bt_id = ? AND arch = ? ORDER BY ctime DESC LIMIT 2" 2
        (lint_type ∷ text_type ∷ [])
    ∷ statement "SELECT package, varient_id FROM packages WHERE os_id = ?" 1 (lint_type ∷ [])
    ∷ statement
        "SELECT s.name FROM server s LEFT JOIN build b ON b.server_id = s.server_id LEFT JOIN build_os bo ON bo.os_id = b.os_id WHERE bo.os_id = ?"
        1 (lint_type ∷ [])
    ∷ statement "SELECT varient_id FROM varient WHERE varient = ? OR valias = ?" 2
        (text_type ∷ text_type ∷ [])
    ∷ statement
        "SELECT p.package, o.os, o.os_version, o.arch FROM packages p JOIN build_os o ON p.os_id = o.os_id WHERE p.varient_id = ? ORDER BY o.os, o.os_version, o.arch"
        1 (lint_type ∷ [])
    ∷ []
