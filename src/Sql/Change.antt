-- ===== src/Sql/Change.antt =====
-- lib/queries.c: `delete_queries` and `update_queries`.
use cmdb.Base.{List, [], ◌∷◌}
use cmdb.Sql.{SqlQuery, statement, text_type, lint_type, sint_type}

unfoldable pub delete_queries : List SqlQuery
delete_queries =
    statement "DELETE FROM build_os WHERE os_id = ?" 1 (lint_type ∷ [])
    ∷ statement "DELETE FROM varient WHERE varient = ? OR valias = ?" 2 (text_type ∷ text_type ∷ [])
    ∷ statement "DELETE FROM locale WHERE name = ?" 1 (text_type ∷ [])
    ∷ statement
        "DELETE FROM part_options WHERE def_scheme_id = ? AND def_part_id = ? and poption = ?" 3
        (lint_type ∷ lint_type ∷ text_type ∷ [])
    ∷ statement "DELETE FROM default_part WHERE def_part_id = ?" 1 (lint_type ∷ [])
    ∷ statement "DELETE FROM seed_schemes WHERE scheme_name = ?" 1 (text_type ∷ [])
    ∷ statement "DELETE FROM build_domain WHERE domain = ?" 1 (text_type ∷ [])
    ∷ statement
        "DELETE FROM system_package_conf WHERE arg = ? AND syspack_id = ? AND syspack_arg_id = ? AND bd_id = ?"
        4 (text_type ∷ lint_type ∷ lint_type ∷ lint_type ∷ [])
    ∷ statement "DELETE FROM system_package_args WHERE field = ? AND syspack_id = ?" 2
        (text_type ∷ lint_type ∷ [])
    ∷ statement "DELETE FROM system_packages WHERE name = ?" 1 (text_type ∷ [])
    ∷ statement "DELETE FROM system_scripts_args WHERE systscr_arg_id = ?" 1 (lint_type ∷ [])
    ∷ statement "DELETE FROM system_scripts WHERE systscr_id = ?" 1 (lint_type ∷ [])
    ∷ statement "DELETE FROM zones WHERE id = ?" 1 (lint_type ∷ [])
    ∷ statement "DELETE FROM rev_zones WHERE rev_zone_id = ?" 1 (lint_type ∷ [])
    ∷ statement "DELETE FROM records WHERE zone = ? AND type = ? AND host = ?" 3
        (lint_type ∷ text_type ∷ text_type ∷ [])
    ∷ statement "DELETE FROM records WHERE zone = ? AND type = ? AND host = ? AND pri = ?" 4
        (lint_type ∷ text_type ∷ text_type ∷ lint_type ∷ [])
    ∷ statement
        "DELETE FROM records WHERE zone = ? AND type = ? AND host = ? AND pri = ? AND protocol = ? AND service = ?"
        6 (lint_type ∷ text_type ∷ text_type ∷ lint_type ∷ text_type ∷ text_type ∷ [])
    ∷ statement "DELETE FROM rev_records WHERE rev_record_id = ?" 1 (lint_type ∷ [])
    ∷ statement "DELETE FROM glue_zones WHERE name = ?" 1 (text_type ∷ [])
    ∷ statement "DELETE FROM preferred_a WHERE ip = ?" 1 (text_type ∷ [])
    ∷ statement "DELETE FROM build_ip WHERE ip_id = ?" 1 (lint_type ∷ [])
    ∷ statement "DELETE FROM disk_dev WHERE disk_id = ?" 1 (lint_type ∷ [])
    ∷ statement "DELETE FROM build WHERE server_id = ?" 1 (lint_type ∷ [])
    ∷ statement "DELETE FROM server WHERE server_id = ?" 1 (lint_type ∷ [])
    ∷ statement "DELETE FROM identity WHERE server_id = ? and username = ?" 2
        (lint_type ∷ text_type ∷ [])
    ∷ statement "DELETE FROM customer WHERE cust_id = ?" 1 (lint_type ∷ [])
    ∷ []

unfoldable pub update_queries : List SqlQuery
update_queries =
    statement
      "UPDATE default_locale SET locale_id = (SELECT locale_id FROM locale WHERE name = ?), muser = ?"
      2 (text_type ∷ lint_type ∷ [])
    ∷ statement "UPDATE seed_schemes SET muser = ? WHERE scheme_name = ?" 2
        (lint_type ∷ text_type ∷ [])
    ∷ statement "UPDATE build_domain SET ntp_server = ?, muser = ? WHERE domain = ?" 3
        (text_type ∷ lint_type ∷ text_type ∷ [])
    ∷ statement "UPDATE zones SET valid = ? WHERE name = ?" 2 (text_type ∷ text_type ∷ [])
    ∷ statement "UPDATE zones SET serial = ?, updated = 'no' WHERE name = ?" 2
        (lint_type ∷ text_type ∷ [])
    ∷ statement "UPDATE rev_zones SET valid = ? WHERE net_range = ?" 2 (text_type ∷ text_type ∷ [])
    ∷ statement "UPDATE rev_zones SET serial = ?, updated = 'no' WHERE net_range = ?" 2
        (lint_type ∷ text_type ∷ [])
    ∷ statement "UPDATE zones SET muser = ?, updated = 'yes' WHERE id = ?" 2
        (lint_type ∷ lint_type ∷ [])
    ∷ statement "UPDATE zones SET muser = ?, updated = 'yes' WHERE name = ?" 2
        (lint_type ∷ text_type ∷ [])
    ∷ statement "UPDATE rev_zones SET muser = ?, updated = 'yes' WHERE net_range = ?" 2
        (lint_type ∷ text_type ∷ [])
    ∷ statement
        "UPDATE build SET varient_id = ?, os_id = ?, ip_id = ?, locale_id = ?,  def_scheme_id = ?, mac_addr = ?, net_inst_int = ?, muser = ?  WHERE server_id = ?"
        9
        (lint_type ∷ lint_type ∷ lint_type ∷ lint_type ∷ lint_type ∷ text_type ∷ text_type
          ∷ lint_type ∷ lint_type ∷ [])
    ∷ statement "UPDATE disk_dev SET lvm = ? WHERE server_id = ?" 2 (sint_type ∷ lint_type ∷ [])
    ∷ statement "UPDATE default_os SET os_id = ?, muser = ?" 2 (lint_type ∷ lint_type ∷ [])
    ∷ statement "UPDATE default_scheme SET def_scheme_id = ?, muser = ?" 2
        (lint_type ∷ lint_type ∷ [])
    ∷ statement "UPDATE default_varient SET varient_id = ?, muser = ?" 2
        (lint_type ∷ lint_type ∷ [])
    ∷ statement "UPDATE default_domain SET bd_id = ?, muser = ?" 2 (lint_type ∷ lint_type ∷ [])
    ∷ statement "UPDATE default_customer SET cust_id = ?, muser = ?" 2 (lint_type ∷ lint_type ∷ [])
    ∷ statement "UPDATE identity SET pass = ?, hash = ?, muser = ? WHERE identity_id = ?" 4
        (text_type ∷ text_type ∷ lint_type ∷ lint_type ∷ [])
    ∷ statement "UPDATE varient SET varient = ?, valias = ? WHERE varient_id = ?" 3
        (text_type ∷ text_type ∷ lint_type ∷ [])
    ∷ []
